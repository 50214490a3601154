-- ===== src/Approval/Recorder.antt =====
-- agent/history_repository.py: `create_run` and `persist_outcome_history`, which appends to the
-- plans and the steps of a run and checks that what is there has not changed.
use secure_portfolio_copilot.Base.{
  Bool, List, List-eq, Option, Option-eq, String-eq, [], false, find?, if◌then◌else◌, is_some, leb,
  length, none, not, some, suc, true, ℕ, ℕ-eq, ◌&&◌, ◌++◌, ◌==◌, ◌||◌, ◌∷◌,
}
use secure_portfolio_copilot.Routing.{ResponseMode}
use secure_portfolio_copilot.Approval.Rows.{
  RunRow, AgentPlanVersion, AgentStep, AgentObservationRecord,
}
use secure_portfolio_copilot.Agent.Loop.Types.{
  StepPolicy-eq, SafeStatus-eq, ObservationStatus-eq, SafeObservationSnapshot, AgentControlMode,
  SafeStepSnapshot,
}
use secure_portfolio_copilot.Gateway.{approved_tool_name}
use secure_portfolio_copilot.Lifecycle.RunState.{AgentRunStatus}
use secure_portfolio_copilot.Agent.Models.{Plan}

-- `create_run`
unfoldable pub create_run : ℕ → ℕ → ℕ → ℕ → ResponseMode → AgentControlMode → RunRow
create_run run_id conversation_id tenant_id user_id response_mode agent_control_mode = record {
  id = run_id;
  conversation_id = conversation_id;
  tenant_id = tenant_id;
  user_id = user_id;
  response_mode = response_mode;
  agent_control_mode = agent_control_mode;
  lifecycle = record {
    status = AgentRunStatus.created;
    safe_reason_code = "RUN_CREATED";
    started_at = none;
    completed_at = none;
  };
  plan_version_count = 0;
  step_count = 0;
  observation_count = 0;
  retry_count = 0;
  duration_ms = 0;
  initial_user_message_id = none;
  plan_versions = [];
  steps = [];
  approval_requests = [];
}

-- The fields of an outcome that are persisted.
pub record RunHistory : Type 0 where
  pub plan_versions : List Plan
  pub safe_steps : List SafeStepSnapshot
  pub safe_observations : List SafeObservationSnapshot
  pub retry_count : ℕ

-- `versions != tuple(range(1, len(versions) + 1))`, from `n` on
unfoldable pub contiguous_from : ℕ → List Plan → Bool
contiguous_from n [] = true
contiguous_from n (plan ∷ plans) = (plan.version == n) && contiguous_from (suc n) plans

abbrev pub plan_row : Plan → AgentPlanVersion
plan_row plan = record {
  version = plan.version;
  change_reason_code = plan.change_reason_code;
  planned_step_count = length plan.steps;
}

abbrev pub plan_record : ℕ → List AgentPlanVersion → Option AgentPlanVersion
plan_record version rows = find? (λ (r : AgentPlanVersion). r.version == version) rows

-- one round of `for plan in outcome.plan_versions`, given `plan_rows.get(plan.version)`
unfoldable pub record_plan :
    List AgentPlanVersion → Plan → Option AgentPlanVersion → Option (List AgentPlanVersion)
record_plan rows plan none = some (rows ++ plan_row plan ∷ [])
record_plan rows plan (some r) =
    if not (r.change_reason_code == plan.change_reason_code)
      || not (r.planned_step_count == length plan.steps)
    then none
    else some rows

unfoldable pub record_plans :
    Option (List AgentPlanVersion) → List Plan → Option (List AgentPlanVersion)
unfolding record_plan
record_plans none plans = none
record_plans (some rows) [] = some rows
record_plans (some rows) (plan ∷ plans) =
    record_plans (record_plan rows plan (plan_record plan.version rows)) plans

-- the comparison of the existing observation with `expected_observation`
unfoldable pub same_observation :
    Option AgentObservationRecord → Option SafeObservationSnapshot → Bool
same_observation none none = true
same_observation none (some e) = false
same_observation (some o) none = false
same_observation (some o) (some e) =
    (o.status == e.status)
    && ((o.safe_reason_code == e.reason_code)
        && ((o.authorized_document_ids == e.document_ids)
            && ((o.authorized_chunk_ids == e.chunk_ids) && (o.citation_ids == e.citation_ids))))

abbrev pub same_recorded_step : ℕ → AgentStep → SafeStepSnapshot → Bool
same_recorded_step number existing snapshot =
    (existing.step_number == number)
    && ((existing.plan_version == snapshot.plan_version)
        && ((existing.plan_step_index == snapshot.plan_step_index)
            && ((existing.tool_name == snapshot.tool_name)
                && ((existing.action_argument_hash == snapshot.action_argument_hash)
                    && ((existing.status == snapshot.status)
                        && ((existing.policy_decision == snapshot.policy_decision)
                            && (existing.safe_reason_code == snapshot.reason_code)))))))

abbrev pub head : {A : Type 0} → List A → Option A
head [] = none
head (x ∷ xs) = some x

abbrev pub tail : {A : Type 0} → List A → List A
tail [] = []
tail (x ∷ xs) = xs

-- `for index, existing in enumerate(existing_steps)`, the number of the step being `index + 1`
unfoldable pub unchanged_from :
    ℕ → List AgentStep → List SafeStepSnapshot → List SafeObservationSnapshot → Bool
unfolding same_observation
unchanged_from number [] snapshots observations = true
unchanged_from number (existing ∷ steps) [] observations = false
unchanged_from number (existing ∷ steps) (snapshot ∷ snapshots) observations =
    same_recorded_step number existing snapshot
    && (same_observation existing.observation (head observations)
        && unchanged_from (suc number) steps snapshots (tail observations))

abbrev pub observation_row : SafeObservationSnapshot → AgentObservationRecord
observation_row observation = record {
  status = observation.status;
  safe_reason_code = observation.reason_code;
  authorized_document_ids = observation.document_ids;
  authorized_chunk_ids = observation.chunk_ids;
  citation_ids = observation.citation_ids;
  evidence_count = length observation.chunk_ids;
  retry_count = observation.retry_count;
  duration_ms = observation.duration_ms;
}

abbrev pub step_row : ℕ → SafeStepSnapshot → Option AgentObservationRecord → AgentStep
step_row number snapshot observation = record {
  step_number = number;
  plan_version = snapshot.plan_version;
  plan_step_index = snapshot.plan_step_index;
  tool_name = snapshot.tool_name;
  action_argument_hash = snapshot.action_argument_hash;
  status = snapshot.status;
  policy_decision = snapshot.policy_decision;
  safe_reason_code = snapshot.reason_code;
  duration_ms = snapshot.duration_ms;
  observation = observation;
}

abbrev pub observation_rows : Option SafeObservationSnapshot → Option AgentObservationRecord
observation_rows none = none
observation_rows (some o) = some (observation_row o)

unfoldable pub add_step : AgentStep → Option (List AgentStep) → Option (List AgentStep)
add_step step none = none
add_step step (some later) = some (step ∷ later)

-- `for step_number, snapshot in enumerate(outcome.safe_steps, start=1)`, the first `existing` being
-- passed over
unfoldable pub new_steps :
    List AgentPlanVersion
    → ℕ
    → ℕ
    → List SafeStepSnapshot
    → List SafeObservationSnapshot
    → Option (List AgentStep)
unfolding approved_tool_name add_step
new_steps plans existing number [] observations = some []
new_steps plans existing number (snapshot ∷ snapshots) observations =
    let rest = new_steps plans existing (suc number) snapshots (tail observations) in
    if leb number existing
    then rest
    else if not (is_some (approved_tool_name snapshot.tool_name))
    then none
    else if not (is_some (plan_record snapshot.plan_version plans))
    then none
    else add_step (step_row number snapshot (observation_rows (head observations))) rest
