-- ===== src/Approval/Runner.antt =====
-- agent/service.py and agent/approval_repository.py: what `AgentRunService.run` does to the
-- database before and after the loop. A session's changes are committed together, so that a pause
-- and the end of a run are one step each.
use secure_portfolio_copilot.Base.{
  Bool, List, List-eq, Option, Option-eq, String, String-eq, [], contains, false, if◌then◌else◌,
  is_some, length, max, min, none, not, some, true, ℕ, ℕ-eq, ◌&&◌, ◌++◌, ◌+◌, ◌∷◌,
}
use secure_portfolio_copilot.Lifecycle.RunState.{AgentRunStatus-eq, AgentRunStatus}
use secure_portfolio_copilot.Approval.Recorder.{plan_row, plan_record, RunHistory, create_run}
use secure_portfolio_copilot.Approval.Rows.{
  AgentPlanVersion, move, with_lifecycle, ApprovalStatus, AgentApprovalRequest, approval_of,
  put_run, resolve_home_tenant_id, RunRow, AuthorizationContext, single, Database,
}
use secure_portfolio_copilot.Agent.Loop.Types.{
  ApprovalRequired, AgentControlMode, StoppingReason, TerminalStatus, AgentRunOutcome,
}
use secure_portfolio_copilot.Approval.Service.{Services}
use secure_portfolio_copilot.Routing.{ResponseMode}
use secure_portfolio_copilot.Approval.Persist.{persist_checkpoint_history, persist_outcome_history}
use secure_portfolio_copilot.Policy.{query_documents, AuthorizationScope}
use secure_portfolio_copilot.Agent.Models.{Plan}
use secure_portfolio_copilot.Gateway.{has_capability}

-- `APPROVAL_LIFETIME`, in milliseconds
abbrev pub approval_lifetime : ℕ
approval_lifetime = 300000

-- A question of a user, as `run` is given it with the ids that it draws, and what its look-ups say:
-- `request_matches_authorized_scope`, `get_owned_conversation` and `route_model`.
pub record Submission : Type 0 where
  pub run_id : ℕ
  pub conversation_id : ℕ
  pub response_mode : ResponseMode
  pub agent_control_mode : AgentControlMode
  pub scope_allowed : Bool
  pub conversation_found : Bool
  pub upgrade_required : Bool

abbrev pub submitted : AuthorizationContext → ℕ → Submission → RunRow
submitted context tenant_id s =
    create_run s.run_id s.conversation_id tenant_id context.identity.user_id s.response_mode
      s.agent_control_mode

-- the transition of a new run; `none` is an exception
unfoldable pub started : Bool → ℕ → RunRow → Option RunRow
unfolding with_lifecycle
started false now run = some run
started true now run = move run AgentRunStatus.running "AGENT_EXECUTION_STARTED" now

abbrev pub commit_run : Database → Option RunRow → Database
commit_run db none = db
commit_run db (some run) = put_run run db

-- the creation of a run; an id that is taken is refused by the primary key
unfoldable pub start_new :
    AuthorizationContext → ℕ → Submission → ℕ → Database → Option RunRow → Database
unfolding create_run started
start_new context tenant_id s now db (some taken) = db
start_new context tenant_id s now db none =
    commit_run db (started s.scope_allowed now (submitted context tenant_id s))

unfoldable pub start_owned : AuthorizationContext → Submission → ℕ → Database → Option ℕ → Database
unfolding start_new
start_owned context s now db none = db
start_owned context s now db (some tenant_id) =
    if not s.conversation_found
    then db
    else if not (has_capability context.scope query_documents)
    then db
    else if s.scope_allowed && s.upgrade_required
    then db
    else start_new context tenant_id s now db (db.runs s.run_id)

unfoldable pub start_run : AuthorizationContext → Submission → ℕ → Database → Database
unfolding single start_owned
start_run context s now db = start_owned context s now db (resolve_home_tenant_id context)

-- `_mark_run_terminal`, after the rollback
unfoldable pub marked : Database → Option RunRow → Database
marked db none = db
marked db (some run) = put_run run db

unfoldable pub mark_run_terminal :
    AgentRunStatus → ℕ → String → ℕ → Database → Option RunRow → Database
unfolding marked with_lifecycle
mark_run_terminal status duration_ms reason_code now db none = db
mark_run_terminal status duration_ms reason_code now db (some run) =
    if not (contains (AgentRunStatus.created ∷ AgentRunStatus.running ∷ []) run.lifecycle.status)
    then db
    else marked db
        (move (record run { duration_ms = min 120000 duration_ms }) status reason_code now)

-- `AgentApprovalRequest(…)` of `create_pending_approval`
abbrev pub pending_approval :
    Services → AuthorizationScope → ℕ → ApprovalRequired → String → ℕ → AgentApprovalRequest
pending_approval services scope id request tool_name created = record {
  id = id;
  plan_version = request.plan_version;
  proposed_step_number = request.proposed_step_number;
  action_name = tool_name;
  tool_name = tool_name;
  action_argument_hash = request.action_hash;
  authorization_scope_fingerprint = services.scope_fingerprint scope;
  approval_risk_class = request.risk_class;
  status = ApprovalStatus.pending;
  expires_at = created + approval_lifetime;
  resolved_at = none;
  consumed_at = none;
  resolver_user_id = none;
}

-- the rows for the plans whose version is not among the ones of the run
unfoldable pub missing_plans : List AgentPlanVersion → List Plan → List AgentPlanVersion
missing_plans existing [] = []
missing_plans existing (plan ∷ plans) =
    let rest = missing_plans existing plans in
    if is_some (plan_record plan.version existing) then rest else plan_row plan ∷ rest

-- `create_pending_approval`; an id that is taken is refused by the primary key
unfoldable pub create_pending_approval :
    Services → AuthorizationScope → ℕ → ApprovalRequired → String → ℕ → RunRow → Option RunRow
unfolding missing_plans
create_pending_approval services scope id request tool_name created run =
    if is_some (approval_of id run.approval_requests)
    then none
    else some (record run {
      plan_versions = run.plan_versions ++ missing_plans run.plan_versions request.plans;
      plan_version_count = max run.plan_version_count (length request.plans);
      approval_requests =
          run.approval_requests
          ++ pending_approval services scope id request tool_name created ∷ [];
    })

unfoldable pub awaiting : ℕ → Option RunRow → Option RunRow
unfolding with_lifecycle
awaiting now none = none
awaiting now (some run) = move run AgentRunStatus.awaiting_approval "USER_APPROVAL_REQUIRED" now

unfoldable pub checkpointed :
    Services
    → AuthorizationScope
    → ℕ
    → ApprovalRequired
    → String
    → ℕ
    → Option RunRow
    → Option RunRow
unfolding create_pending_approval
checkpointed services scope id request tool_name now none = none
checkpointed services scope id request tool_name now (some run) =
    create_pending_approval services scope id request tool_name now run

-- `except ApprovalRequired`, with a tool that has a name; `none` is an exception, which leaves the
-- run as it was
unfoldable pub paused :
    Services → AuthorizationScope → ℕ → ApprovalRequired → String → ℕ → RunRow → Option RunRow
unfolding persist_outcome_history checkpointed awaiting
paused services scope id request tool_name now run = awaiting now (
    checkpointed services scope id request tool_name now (
      persist_checkpoint_history services.authorized run scope request.plans request.safe_steps
        request.safe_observations))

-- `outcome.stopping_reason.value.upper()`
unfoldable pub reason_value : StoppingReason → String
reason_value StoppingReason.is_completed = "COMPLETED"
reason_value StoppingReason.request_refused = "REQUEST_REFUSED"
reason_value StoppingReason.clarification_required = "CLARIFICATION_REQUIRED"
reason_value StoppingReason.insufficient_authorized_evidence = "INSUFFICIENT_AUTHORIZED_EVIDENCE"
reason_value StoppingReason.scope_denied = "SCOPE_DENIED"
reason_value StoppingReason.max_steps = "MAX_STEPS"
reason_value StoppingReason.max_retrieval_rewrites = "MAX_RETRIEVAL_REWRITES"
reason_value StoppingReason.max_replans = "MAX_REPLANS"
reason_value StoppingReason.max_duration = "DURATION"
reason_value StoppingReason.tool_timeout = "TOOL_TIMEOUT"
reason_value StoppingReason.tool_error = "TOOL_ERROR"
reason_value StoppingReason.model_error = "MODEL_ERROR"
reason_value StoppingReason.malformed_action = "MALFORMED_ACTION"
reason_value StoppingReason.plan_exhausted = "PLAN_EXHAUSTED"
reason_value StoppingReason.citation_validation_failed = "CITATION_VALIDATION_FAILED"

-- `terminal_status`
unfoldable pub terminal_status : TerminalStatus → AgentRunStatus
terminal_status TerminalStatus.completed = AgentRunStatus.completed
terminal_status TerminalStatus.refused = AgentRunStatus.refused
terminal_status TerminalStatus.needs_clarification = AgentRunStatus.clarification_required
terminal_status TerminalStatus.insufficient_evidence = AgentRunStatus.insufficient_evidence
terminal_status TerminalStatus.limit_reached = AgentRunStatus.limit_reached
terminal_status TerminalStatus.failed = AgentRunStatus.failed

abbrev pub history_of : AgentRunOutcome → RunHistory
history_of outcome = record {
  plan_versions = outcome.plan_versions;
  safe_steps = outcome.safe_steps;
  safe_observations = outcome.safe_observations;
  retry_count = outcome.retry_count;
}

unfoldable pub concluded : AgentRunOutcome → ℕ → Option RunRow → Option RunRow
unfolding terminal_status reason_value with_lifecycle
concluded outcome now none = none
concluded outcome now (some run) =
    move run (terminal_status outcome.terminal_status) (reason_value outcome.stopping_reason) now

-- the end of a run with an outcome; `none` is an exception
unfoldable pub completed_run :
    Services → AuthorizationScope → AgentRunOutcome → ℕ → ℕ → RunRow → Option RunRow
unfolding persist_outcome_history concluded
completed_run services scope outcome duration_ms now run = concluded outcome now (
    persist_outcome_history services.authorized
      (record run { duration_ms = min 120000 duration_ms }) scope (history_of outcome))
