-- ===== src/Approval/Operations.antt =====
-- agent/approval_service.py: `approve_once`, `reject`, `stop` and `change_request`.
use secure_portfolio_copilot.Base.{
  List, List-eq, Option, Option-eq, String, String-eq, [], find?, if◌then◌else◌, leb, none, not,
  some, ℕ, ℕ-eq, ◌==◌, ◌||◌,
}
use secure_portfolio_copilot.Approval.Service.{
  ok, is_open, raised, owned_run, reconstruct_completed_steps, binding_is_current, RunnerCall,
  api_error, Services, Reply,
}
use secure_portfolio_copilot.Approval.Rows.{
  move, with_lifecycle, approval_of, MessageRole-eq, ApprovalStatus-eq, put_run,
  resolve_home_tenant_id, MessageRole, ApprovalStatus, Message, AgentApprovalRequest, put_approval,
  Database, RunRow, single, AuthorizationContext,
}
use secure_portfolio_copilot.Text.{Text}
use secure_portfolio_copilot.Agent.Loop.Types.{ReconstructedStep}
use secure_portfolio_copilot.Lifecycle.RunState.{AgentRunStatus-eq, AgentRunStatus}

-- an approval with its new status, at a time; `resolver` is the column after it
abbrev pub resolved : AgentApprovalRequest → ApprovalStatus → ℕ → Option ℕ → AgentApprovalRequest
resolved approval status now resolver = record approval {
  status = status;
  resolved_at = some now;
  resolver_user_id = resolver;
}

-- the commit of a run that has moved, with its approvals; a transition that is not allowed raises
-- before the commit
unfoldable pub committed :
    {A : Type 0}
    → Database
    → Reply A
    → List AgentApprovalRequest
    → Option RunRow
    → Reply A × Database
committed db reply approvals none = (raised, db)
committed db reply approvals (some run) =
    (reply, put_run (record run { approval_requests = approvals }) db)

-- The run moves, its approval becomes `approval`, and both are committed.
unfoldable pub commit_resolved :
    {A : Type 0}
    → Database
    → RunRow
    → AgentApprovalRequest
    → AgentRunStatus
    → String
    → ℕ
    → Reply A
    → Reply A × Database
unfolding put_approval committed with_lifecycle
commit_resolved db run approval target reason_code now reply =
    committed db reply (put_approval approval run.approval_requests)
      (move run target reason_code now)

abbrev pub not_found : {A : Type 0} → Reply A
not_found = api_error 404 "not_found"

abbrev pub forbidden : {A : Type 0} → Reply A
forbidden = api_error 403 "forbidden"

abbrev pub unavailable : {A : Type 0} → Reply A
unavailable = api_error 409 "approval_unavailable"

abbrev pub resume_failed : {A : Type 0} → Reply A
resume_failed = api_error 409 "resume_failed"

-- the id of the message that a run answers, with its row
abbrev pub message_of : Database → Option ℕ → Option (Option Message)
message_of db none = none
message_of db (some id) = some (db.messages id)

-- `message is None or message.role != "user" or message.user_id != …` does not hold
unfoldable pub valid_message : AuthorizationContext → Option Message → Option Message
valid_message context none = none
valid_message context (some message) =
    if not (message.role == MessageRole.user) || not (message.user_id == context.identity.user_id)
    then none
    else some message

abbrev pub resumption :
    RunRow → AgentApprovalRequest → Message → List ReconstructedStep → RunnerCall
resumption run approval message steps = record {
  conversation_id = run.conversation_id;
  question = message.content;
  response_mode = run.response_mode;
  agent_control_mode = run.agent_control_mode;
  approved_action_hash = some approval.action_argument_hash;
  resume_run = some run.id;
  reconstructed_steps = steps;
}

-- `approve_once` on the locked rows, in the order of the code
module _ (services : Services) (context : AuthorizationContext) (db : Database) (now : ℕ) where
  -- a failure by which the approval ends and the run fails
  abbrev pub fail_approval :
      RunRow
      → AgentApprovalRequest
      → ApprovalStatus
      → Option ℕ
      → String
      → String
      → Reply RunnerCall × Database
  fail_approval run approval status resolver reason_code code =
      commit_resolved db run (resolved approval status now resolver) AgentRunStatus.failed
        reason_code now (api_error 409 code)

  abbrev pub caller : Option ℕ
  caller = some context.identity.user_id

  -- the end of `approve_once`; the commit is before the call of the runner
  unfoldable pub consume :
      RunRow
      → AgentApprovalRequest
      → Message
      → Option (List ReconstructedStep)
      → Reply RunnerCall × Database
  unfolding commit_resolved
  consume run approval message none =
      fail_approval run approval ApprovalStatus.cancelled caller "RESUME_RECONSTRUCTION_FAILED"
        "resume_failed"
  consume run approval message (some steps) =
      commit_resolved db run
        (record (resolved approval ApprovalStatus.consumed now caller) { consumed_at = some now })
        AgentRunStatus.running "APPROVAL_CONSUMED" now (ok (resumption run approval message steps))

  unfoldable pub resume_message :
      RunRow → AgentApprovalRequest → Option Message → Reply RunnerCall × Database
  unfolding consume reconstruct_completed_steps
  resume_message run approval none =
      fail_approval run approval ApprovalStatus.cancelled approval.resolver_user_id
        "RESUME_MESSAGE_INVALID" "resume_failed"
  resume_message run approval (some message) =
      consume run approval message (reconstruct_completed_steps services context.scope run.steps)

  unfoldable pub resume_run :
      RunRow → AgentApprovalRequest → Option (Option Message) → Reply RunnerCall × Database
  unfolding resume_message valid_message
  resume_run run approval none =
      fail_approval run approval ApprovalStatus.cancelled approval.resolver_user_id
        "RESUME_MESSAGE_MISSING" "resume_failed"
  resume_run run approval (some message) =
      resume_message run approval (valid_message context message)

  unfoldable pub approve_locked : RunRow → AgentApprovalRequest → Reply RunnerCall × Database
  unfolding binding_is_current resume_run
  approve_locked run approval =
      if not (is_open run approval)
      then (unavailable, db)
      else if leb approval.expires_at now
      then fail_approval run approval ApprovalStatus.expired caller "APPROVAL_EXPIRED"
          "approval_expired"
      else if not (binding_is_current run approval)
      then fail_approval run approval ApprovalStatus.cancelled caller "APPROVAL_BINDING_MISMATCH"
          "approval_mismatch"
      else if not
          (approval.authorization_scope_fingerprint == services.scope_fingerprint context.scope)
      then fail_approval run approval ApprovalStatus.cancelled caller "AUTHORIZATION_SCOPE_CHANGED"
          "authorization_changed"
      else resume_run run approval (message_of db run.initial_user_message_id)

-- the query of `_locked_owned`, one condition after the other, and what is done with its row
module _ {A : Type 0} (db : Database)
    (next : RunRow → AgentApprovalRequest → Reply A × Database) where
  unfoldable pub with_approval : RunRow → Option AgentApprovalRequest → Reply A × Database
  with_approval run none = (not_found, db)
  with_approval run (some approval) = next run approval

  unfoldable pub with_run : ℕ → Option RunRow → Reply A × Database
  unfolding with_approval
  with_run approval_id none = (not_found, db)
  with_run approval_id (some run) =
      with_approval run (approval_of approval_id run.approval_requests)

  unfoldable pub with_tenant : AuthorizationContext → ℕ → ℕ → Option ℕ → Reply A × Database
  unfolding with_run owned_run
  with_tenant context run_id approval_id none = (forbidden, db)
  with_tenant context run_id approval_id (some tenant_id) =
      with_run approval_id (owned_run context tenant_id (db.runs run_id))

unfoldable pub with_locked :
    {A : Type 0}
    → AuthorizationContext
    → ℕ
    → ℕ
    → Database
    → (RunRow → AgentApprovalRequest → Reply A × Database)
    → Reply A × Database
unfolding with_tenant single
with_locked context run_id approval_id db next =
    with_tenant db next context run_id approval_id (resolve_home_tenant_id context)

unfoldable pub approve_once :
    Services → AuthorizationContext → ℕ → ℕ → ℕ → Database → Reply RunnerCall × Database
unfolding with_locked approve_locked
approve_once services context run_id approval_id now db =
    with_locked context run_id approval_id db (approve_locked services context db now)

-- `reject` and `change_request` on the locked rows
unfoldable pub resolve_locked :
    {A : Type 0}
    → AuthorizationContext
    → Database
    → ℕ
    → ApprovalStatus
    → String
    → (RunRow → A)
    → RunRow
    → AgentApprovalRequest
    → Reply A × Database
unfolding commit_resolved
resolve_locked context db now status reason_code answer run approval =
    if not (is_open run approval)
    then (unavailable, db)
    else commit_resolved db run (resolved approval status now (some context.identity.user_id))
        AgentRunStatus.cancelled reason_code now (ok (answer run))

-- `reject`, which returns the run's id
unfoldable pub reject : AuthorizationContext → ℕ → ℕ → ℕ → Database → Reply ℕ × Database
unfolding with_locked resolve_locked
reject context run_id approval_id now db =
    with_locked context run_id approval_id db
      (resolve_locked context db now ApprovalStatus.rejected "APPROVAL_REJECTED" (λ run. run.id))

abbrev pub new_request : Text → RunRow → RunnerCall
new_request content run = record {
  conversation_id = run.conversation_id;
  question = content;
  response_mode = run.response_mode;
  agent_control_mode = run.agent_control_mode;
  approved_action_hash = none;
  resume_run = none;
  reconstructed_steps = [];
}

unfoldable pub change_request :
    AuthorizationContext → ℕ → ℕ → Text → ℕ → Database → Reply RunnerCall × Database
unfolding with_locked resolve_locked
change_request context run_id approval_id content now db =
    with_locked context run_id approval_id db (
      resolve_locked context db now ApprovalStatus.superseded "CHANGE_REQUESTED"
        (new_request content))

abbrev pub pending_of : List AgentApprovalRequest → Option AgentApprovalRequest
pending_of approvals =
    find? (λ (a : AgentApprovalRequest). a.status == ApprovalStatus.pending) approvals

-- the approvals of a run that is stopped, given the one that the query finds
abbrev pub stopped :
    ℕ → ℕ → List AgentApprovalRequest → Option AgentApprovalRequest → List AgentApprovalRequest
stopped user_id now approvals none = approvals
stopped user_id now approvals (some approval) =
    put_approval (resolved approval ApprovalStatus.cancelled now (some user_id)) approvals

unfoldable pub stop_run : AuthorizationContext → ℕ → Database → Option RunRow → Reply ℕ × Database
unfolding put_approval committed with_lifecycle
stop_run context now db none = (not_found, db)
stop_run context now db (some run) =
    if not (run.lifecycle.status == AgentRunStatus.awaiting_approval)
    then (api_error 409 "run_not_stoppable", db)
    else committed db (ok run.id)
        (stopped context.identity.user_id now run.approval_requests
          (pending_of run.approval_requests))
        (move run AgentRunStatus.cancelled "RUN_STOPPED" now)

-- `stop`, which returns the run's id
unfoldable pub stop_owned : AuthorizationContext → ℕ → ℕ → Database → Option ℕ → Reply ℕ × Database
unfolding stop_run owned_run
stop_owned context run_id now db none = (forbidden, db)
stop_owned context run_id now db (some tenant_id) =
    stop_run context now db (owned_run context tenant_id (db.runs run_id))

unfoldable pub stop : AuthorizationContext → ℕ → ℕ → Database → Reply ℕ × Database
unfolding stop_owned single
stop context run_id now db = stop_owned context run_id now db (resolve_home_tenant_id context)
