-- ===== src/Approval/Tests.antt =====
-- agent/approval_service.py: one run, from its start over a pause to an approval.
use secure_portfolio_copilot.Base.{
  List, List-eq, Option-eq, String, String-eq, [], arith, false, none, refl, some, true, ℕ-eq, ◌++◌,
  ◌↔◌, ◌∷◌, ◌≡◌,
}
use secure_portfolio_copilot.Lifecycle.RunState.{
  transition_run, AgentRunStatus, AgentRunStatus-discrete,
}
use secure_portfolio_copilot.Agent.Loop.State.{Exit}
use secure_portfolio_copilot.Agent.Loop.Types.{
  StepPolicy, ObservationStatus, SafeStatus, SafeObservationSnapshot, SafeStepSnapshot,
  ApprovalRiskClass, AgentControlMode, ApprovalRequired,
}
use secure_portfolio_copilot.Approval.Commands.{
  user_message, perform_all, rejecting, approving, settling, left, submitting, all_resumptions,
  Command, Settlement,
}
use secure_portfolio_copilot.Agent.Models.{StepStatus, search_input, tool_call, Plan, Step}
use secure_portfolio_copilot.Approval.Runner.{pending_approval, submitted, paused, Submission}
use secure_portfolio_copilot.Approval.Changes.{SoundDatabase}
use secure_portfolio_copilot.Approval.Service.{
  reconstruct_completed_steps, ok, RunnerCall, Services,
}
use secure_portfolio_copilot.Policy.{
  Capability-discrete, query_documents, AuthorizationGrant, TrustedIdentity,
}
use secure_portfolio_copilot.Approval.Rows.{
  ApprovalStatus, AgentStep, AgentApprovalRequest, approval_of, single, put_run, put_message,
  RunRow, MessageRole-discrete, ApprovalStatus-discrete, Database, AuthorizationContext,
}
use secure_portfolio_copilot.Routing.{ResponseMode}
use secure_portfolio_copilot.Text.{codes}
use secure_portfolio_copilot.Approval.SingleUse.{single_use, Different}
use secure_portfolio_copilot.Approval.Operations.{
  change_request, stop, reject, resumption, approve_once,
}
use secure_portfolio_copilot.Approval.Recorder.{
  observation_row, RunHistory, step_row, plan_row, create_run,
}
use secure_portfolio_copilot.Approval.Sequences.{resolved_final, perform_all-Sound}
use secure_portfolio_copilot.Approval.Entitled.{Entitled, approve_once_iff}
use secure_portfolio_copilot.Approval.Isolation.{isolation, Foreign}
use secure_portfolio_copilot.Approval.Persist.{checkpoint, persist_outcome_history}
use secure_portfolio_copilot.Approval.Reading.{persist_roundtrip, ShowsAll}
use secure_portfolio_copilot.Approval.Current.{pause_then_approve}

abbrev search : String
search = "portfolio.search_authorized_documents"

abbrev member : TrustedIdentity
member = record { user_id = 7; email = "ana@atlas.example"; display_name = "Ana" }

abbrev grant : AuthorizationGrant
grant = record {
  membership_id = 1;
  home_tenant_id = 3;
  home_tenant_slug = "atlas";
  home_tenant_name = "Atlas";
  workspace_id = 4;
  workspace_slug = "atlas";
  workspace_name = "Atlas";
  role = "ANALYST";
  primary_department = "finance";
  company_ids = 5 ∷ [];
  company_slugs = "acme" ∷ [];
  departments = [];
  capabilities = query_documents ∷ [];
}

abbrev ana : AuthorizationContext
ana = record { identity = member; scope = record { identity = member; grants = grant ∷ [] } }

abbrev stranger : AuthorizationContext
stranger = record {
  identity = record { user_id = 8; email = "bo@atlas.example"; display_name = "Bo" };
  scope = record { identity = member; grants = grant ∷ [] };
}

abbrev services : Services
services = record {
  scope_fingerprint = λ scope. "fingerprint";
  excerpt = λ scope document chunk. none;
  authorized = λ scope chunks. [];
}

abbrev empty : Database
empty = record { runs = λ id. none; messages = λ id. none }

abbrev empty-Sound : SoundDatabase empty
empty-Sound id = tt

abbrev question : Submission
question = record {
  run_id = 20;
  conversation_id = 11;
  response_mode = ResponseMode.auto;
  agent_control_mode = AgentControlMode.guided;
  scope_allowed = true;
  conversation_found = true;
  upgrade_required = false;
}

abbrev search_step : Step
search_step = record {
  step_index = 0;
  action_type = tool_call;
  action_name = some search;
  status = StepStatus.pending;
  reason_code = "SEARCH";
}

abbrev search_plan : Plan
search_plan = record {
  version = 1;
  plan_text = "Search" ∷ [];
  steps = search_step ∷ [];
  change_reason_code = "INITIAL_PLAN";
}

abbrev search_request : ApprovalRequired
search_request = record {
  action = record {
    type = tool_call;
    action_name = some search;
    arguments = search_input "revenue" 5;
    reason_code = "SEARCH";
  };
  action_hash = "hash";
  plan_version = 1;
  proposed_step_number = 1;
  plans = search_plan ∷ [];
  step_count = 0;
  remaining_tools = 4;
  risk_class = ApprovalRiskClass.low_read_only;
  safe_steps = [];
  safe_observations = [];
}

abbrev pause : Settlement
pause = record {
  message_id = 30;
  approval_id = 40;
  question = codes "revenue?";
  duration_ms = 900;
  now = 2000;
  ending = left (Exit.approval_required search_request);
}

abbrev requests : List Command
requests =
    submitting ana question 1000
    ∷ settling ana 20 pause
    ∷ approving stranger 20 40 2500
    ∷ approving ana 20 40 3000
    ∷ approving ana 20 40 3001
    ∷ rejecting ana 20 40 3002
    ∷ []

-- The run after the pause.
abbrev waiting_run : RunRow
waiting_run = record (submitted ana 3 question) {
  lifecycle = record {
    status = AgentRunStatus.awaiting_approval;
    safe_reason_code = "USER_APPROVAL_REQUIRED";
    started_at = some 1000;
    completed_at = none;
  };
  plan_version_count = 1;
  initial_user_message_id = some 30;
  plan_versions = plan_row search_plan ∷ [];
  approval_requests = pending_approval services ana.scope 40 search_request search 2000 ∷ [];
}

abbrev asked_run : RunRow
asked_run = record waiting_run {
  lifecycle = record {
    status = AgentRunStatus.running;
    safe_reason_code = "AGENT_EXECUTION_STARTED";
    started_at = some 1000;
    completed_at = none;
  };
  plan_version_count = 0;
  plan_versions = [];
  approval_requests = [];
}

abbrev waiting_db : Database
waiting_db =
    put_message 30 (user_message ana (codes "revenue?") waiting_run) (put_run waiting_run empty)

pauses : paused services ana.scope 40 search_request search 2000 asked_run ≡ some waiting_run
unfolding paused transition_run create_run AgentRunStatus-discrete
pauses = refl

used_once : all_resumptions services requests empty ≡ (20, 40) ∷ []
unfolding all_resumptions transition_run ApprovalStatus-discrete AgentRunStatus-discrete
    MessageRole-discrete Capability-discrete
used_once = refl

abbrev resumed_call : RunnerCall
resumed_call =
    resumption waiting_run (pending_approval services ana.scope 40 search_request search 2000)
      (user_message ana (codes "revenue?") waiting_run) []

pause_then_approve_example : (approve_once services ana 20 40 3000 waiting_db).0 ≡ ok resumed_call
unfolding paused transition_run create_run reconstruct_completed_steps single
pause_then_approve_example =
    pause_then_approve services ana.scope 40 search_request search 2000 ana waiting_db asked_run
      waiting_run 3000 30 (user_message ana (codes "revenue?") waiting_run) []
      (record { planned = refl; plan_version = refl; step = refl; known = refl }) tt pauses refl
      refl refl refl (omega arith) refl refl refl refl refl

approve_once_iff_example :
    ((approve_once services ana 20 40 3000 waiting_db).0 ≡ ok resumed_call)
    ↔ Entitled services ana 20 40 3000 waiting_db resumed_call
approve_once_iff_example = approve_once_iff services ana 20 40 3000 waiting_db resumed_call

single_use_example : Different (all_resumptions services requests empty)
single_use_example = single_use services requests empty empty-Sound

perform_all-Sound_example : SoundDatabase (perform_all services requests empty)
perform_all-Sound_example = perform_all-Sound services requests empty empty-Sound

abbrev used_approval : AgentApprovalRequest
used_approval = record (pending_approval services ana.scope 40 search_request search 2000) {
  status = ApprovalStatus.consumed;
  resolved_at = some 3000;
  consumed_at = some 3000;
  resolver_user_id = some 7;
}

abbrev used_run : RunRow
used_run = record waiting_run {
  lifecycle = record {
    status = AgentRunStatus.running;
    safe_reason_code = "APPROVAL_CONSUMED";
    started_at = some 1000;
    completed_at = none;
  };
  approval_requests = used_approval ∷ [];
}

after_requests : (perform_all services requests empty).runs 20 ≡ some used_run
unfolding perform_all transition_run create_run ApprovalStatus-discrete AgentRunStatus-discrete
    MessageRole-discrete Capability-discrete
after_requests = refl

resolved_final_example :
    (later : RunRow) × ((perform_all services requests (perform_all services requests empty)).runs
        20
      ≡ some later)
    × (approval_of 40 later.approval_requests ≡ some used_approval)
unfolding ApprovalStatus-discrete
resolved_final_example =
    resolved_final services requests (perform_all services requests empty) 20 40 used_run
      used_approval (perform_all-Sound services requests empty empty-Sound) after_requests refl refl

abbrev search_snapshot : SafeStepSnapshot
search_snapshot = record {
  plan_version = 1;
  plan_step_index = 0;
  tool_name = search;
  action_argument_hash = "hash";
  status = SafeStatus.completed;
  policy_decision = StepPolicy.allowed;
  reason_code = "TOOL_COMPLETED";
  duration_ms = 120;
}

abbrev found_nothing : SafeObservationSnapshot
found_nothing = record {
  status = ObservationStatus.success;
  reason_code = "TOOL_COMPLETED";
  document_ids = [];
  chunk_ids = [];
  citation_ids = [];
  retry_count = 0;
  duration_ms = 120;
}

abbrev checkpoint_history : RunHistory
checkpoint_history = checkpoint (search_plan ∷ []) (search_snapshot ∷ []) (found_nothing ∷ [])

abbrev recorded_run : RunRow
recorded_run = record used_run {
  step_count = 1;
  observation_count = 1;
  steps = step_row 1 search_snapshot (some (observation_row found_nothing)) ∷ [];
}

persists :
    persist_outcome_history services.authorized used_run ana.scope checkpoint_history
    ≡ some recorded_run
unfolding persist_outcome_history create_run
persists = refl

persist_roundtrip_example :
    ShowsAll 1 recorded_run.steps checkpoint_history.safe_steps checkpoint_history.safe_observations
    × ((new : List AgentStep) × (recorded_run.steps ≡ used_run.steps ++ new))
persist_roundtrip_example =
    persist_roundtrip services.authorized used_run ana.scope checkpoint_history recorded_run
      persists

foreign : Foreign stranger used_run
unfolding create_run
foreign tenant_id home = ground arith

isolation_example :
    ((approve_once services stranger 20 40 4000 (perform_all services requests empty)).1.runs 20
      ≡ some used_run)
    × ((reject stranger 20 40 4000 (perform_all services requests empty)).1.runs 20 ≡ some used_run)
    × ((stop stranger 20 4000 (perform_all services requests empty)).1.runs 20 ≡ some used_run)
    × ((change_request stranger 20 40
            (codes "other")
            4000
            (perform_all services requests empty)).1.runs
          20
        ≡ some used_run)
isolation_example =
    isolation (perform_all services requests empty) 20 used_run after_requests stranger foreign
      (perform_all-Sound services requests empty empty-Sound) services 20 40 4000 (codes "other")
