-- ===== src/Approval/Commands.antt =====
-- agent/service.py: how `AgentRunService.run` settles a run, by the way that its loop ended; and
-- the requests to both services in any order, one at a time as the row lock has it.
use secure_portfolio_copilot.Base.{
  Bool, List, List-eq, Option, Option-eq, String, String-eq, [], contains, if◌then◌else◌, is_some,
  none, not, some, ℕ, ℕ-eq, ◌++◌, ◌∷◌,
}
use secure_portfolio_copilot.Lifecycle.RunState.{AgentRunStatus-eq, AgentRunStatus}
use secure_portfolio_copilot.Approval.Runner.{
  Submission, paused, mark_run_terminal, start_run, completed_run,
}
use secure_portfolio_copilot.Approval.Service.{ok, RunnerCall, Services, Reply}
use secure_portfolio_copilot.Text.{Text}
use secure_portfolio_copilot.Approval.Operations.{change_request, stop, reject, approve_once}
use secure_portfolio_copilot.Approval.Rows.{
  put_run, MessageRole, put_message, Message, Database, RunRow, AuthorizationContext,
}
use secure_portfolio_copilot.Agent.Loop.Types.{ApprovalRequired, AgentRunOutcome}
use secure_portfolio_copilot.Agent.Loop.State.{Exit}

-- How the `try` of `run` ends: as the loop does, by `CancelledError`, or by another exception.
pub data Ending : Type 0 where
  left : Exit → Ending
  client_cancelled : Ending
  crashed : Ending

-- What `run` brings to the end of a run: the ids that it draws, the question, and times.
pub record Settlement : Type 0 where
  pub message_id : ℕ
  pub approval_id : ℕ
  pub question : Text
  pub duration_ms : ℕ
  pub now : ℕ
  pub ending : Ending

-- `add_message` of the user's question
abbrev pub user_message : AuthorizationContext → Text → RunRow → Message
user_message context question run = record {
  conversation_id = run.conversation_id;
  user_id = context.identity.user_id;
  role = MessageRole.user;
  content = question;
}

-- `run_record.initial_user_message_id = user_message.id` of a new run, which has none yet
unfoldable pub first_message : ℕ → RunRow → Option ℕ → RunRow
first_message message_id run none = record run { initial_user_message_id = some message_id }
first_message message_id run (some old) = run

abbrev pub with_message : ℕ → RunRow → RunRow
with_message message_id run = first_message message_id run run.initial_user_message_id

-- the commit of a run, with the message that it began with if it is new
unfoldable pub commit_message :
    AuthorizationContext → Settlement → RunRow → Option ℕ → Database → Database
commit_message context s run none db =
    put_message s.message_id (user_message context s.question run) (put_run run db)
commit_message context s run (some old) db = put_run run db

-- `otherwise` is what is left after an exception
unfoldable pub commit_settled :
    AuthorizationContext → Settlement → Option ℕ → Database → Database → Option RunRow → Database
unfolding commit_message
commit_settled context s before db otherwise none = otherwise
commit_settled context s before db otherwise (some next) = commit_message context s next before db

unfoldable pub mark : RunRow → Settlement → AgentRunStatus → String → Database → Database
unfolding mark_run_terminal
mark run s status reason_code db =
    mark_run_terminal status s.duration_ms reason_code s.now db (db.runs run.id)

unfoldable pub settle_pause :
    Services
    → AuthorizationContext
    → Settlement
    → ApprovalRequired
    → Option String
    → RunRow
    → Database
    → Database
unfolding mark paused first_message commit_settled
settle_pause services context s request none run db =
    mark run s AgentRunStatus.failed "APPROVAL_RECONSTRUCTION_INVALID" db
settle_pause services context s request (some name) run db =
    commit_settled context s run.initial_user_message_id db db (
      paused services context.scope s.approval_id request name s.now
        (with_message s.message_id run))

unfoldable pub settle_outcome :
    Services → AuthorizationContext → Settlement → AgentRunOutcome → RunRow → Database → Database
unfolding mark completed_run first_message commit_settled
settle_outcome services context s outcome run db =
    commit_settled context s run.initial_user_message_id db
      (mark run s AgentRunStatus.failed "PERSISTENCE_VALIDATION_FAILED" db)
      (completed_run services context.scope outcome s.duration_ms s.now
        (with_message s.message_id run))

unfoldable pub settle_end :
    Services → AuthorizationContext → Settlement → Ending → RunRow → Database → Database
unfolding settle_pause settle_outcome
settle_end services context s (left (Exit.finished outcome)) run db =
    settle_outcome services context s outcome run db
settle_end services context s (left (Exit.approval_required request)) run db =
    settle_pause services context s request request.action.action_name run db
settle_end services context s (left Exit.reconstruction_mismatch) run db =
    mark run s AgentRunStatus.failed "APPROVED_ACTION_HASH_MISMATCH" db
settle_end services context s (left _) run db =
    mark run s AgentRunStatus.failed "AGENT_EXECUTION_FAILED_SAFE" db
settle_end services context s client_cancelled run db =
    mark run s AgentRunStatus.cancelled "REQUEST_CANCELLED" db
settle_end services context s crashed run db =
    mark run s AgentRunStatus.failed "AGENT_EXECUTION_FAILED_SAFE" db

-- A runner is at work on a run that it has created or found running.
abbrev pub is_working : RunRow → Bool
is_working run =
    contains (AgentRunStatus.created ∷ AgentRunStatus.running ∷ []) run.lifecycle.status

-- The message of a new run is added first; an id that is taken is refused by the primary key.
abbrev pub began : Database → Settlement → Option ℕ → Ending
began db s none = if is_some (db.messages s.message_id) then crashed else s.ending
began db s (some old) = s.ending

unfoldable pub settle_run :
    Services → AuthorizationContext → Settlement → Database → Option RunRow → Database
unfolding settle_end
settle_run services context s db none = db
settle_run services context s db (some run) =
    if not (is_working run)
    then db
    else settle_end services context s (began db s run.initial_user_message_id) run db

pub data Command : Type 0 where
  submitting : AuthorizationContext → Submission → (now : ℕ) → Command
  settling : AuthorizationContext → (run_id : ℕ) → Settlement → Command
  approving : AuthorizationContext → (run_id approval_id now : ℕ) → Command
  rejecting : AuthorizationContext → (run_id approval_id now : ℕ) → Command
  stopping : AuthorizationContext → (run_id now : ℕ) → Command
  changing : AuthorizationContext → (run_id approval_id now : ℕ) → (content : Text) → Command

-- the database after a request
unfoldable pub perform : Services → Command → Database → Database
unfolding start_run settle_run approve_once reject stop change_request
perform services (submitting context s now) db = start_run context s now db
perform services (settling context run_id s) db = settle_run services context s db (db.runs run_id)
perform services (approving context run_id approval_id now) db =
    (approve_once services context run_id approval_id now db).1
perform services (rejecting context run_id approval_id now) db =
    (reject context run_id approval_id now db).1
perform services (stopping context run_id now) db = (stop context run_id now db).1
perform services (changing context run_id approval_id now content) db =
    (change_request context run_id approval_id content now db).1

abbrev pub resumed_by : ℕ × ℕ → Reply RunnerCall → List (ℕ × ℕ)
resumed_by key (ok call) = key ∷ []
resumed_by key _ = []

-- the approvals, with their runs, by which a request has an action carried out
unfoldable pub resumptions : Services → Command → Database → List (ℕ × ℕ)
unfolding approve_once
resumptions services (approving context run_id approval_id now) db =
    resumed_by (run_id, approval_id) (approve_once services context run_id approval_id now db).0
resumptions services _ db = []

unfoldable pub perform_all : Services → List Command → Database → Database
unfolding perform
perform_all services [] db = db
perform_all services (c ∷ commands) db = perform_all services commands (perform services c db)

unfoldable pub all_resumptions : Services → List Command → Database → List (ℕ × ℕ)
unfolding perform resumptions
all_resumptions services [] db = []
all_resumptions services (c ∷ commands) db =
    resumptions services c db ++ all_resumptions services commands (perform services c db)
