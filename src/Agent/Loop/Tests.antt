-- ===== src/Agent/Loop/Tests.antt =====
-- agent/loop.py: a request that searches once and then answers from the evidence.
use secure_portfolio_copilot.Base.{
  All, List, List-eq, Option, Option-eq, String, String-eq, [], false, filter, if◌then◌else◌,
  length, none, refl, some, ℕ-eq, ◌*◌, ◌==◌, ◌∷◌, ◌≡◌, ◌≤◌,
}
use secure_portfolio_copilot.Text.{codes}
use secure_portfolio_copilot.Grounding.{GroundedEvidence, GroundedAnswerDraft, supported}
use secure_portfolio_copilot.Agent.Models.{
  Action, ActionType, Plan, tool_call, pending, search_input, no_arguments,
}
use secure_portfolio_copilot.Agent.PlanState.{Json, text}
use secure_portfolio_copilot.Agent.Loop.Types.{
  guided, balanced, AgentControlMode, TerminalStatus, StructuredObservation, ObservationStatus,
  PerceptionSnapshot, GoalStatus, financial_lookup,
}
use secure_portfolio_copilot.Agent.Loop.Environment.{Environment, observed, answered}
use secure_portfolio_copilot.Agent.Loop.State.{Request, LoopState, Exit, search_tool}
use secure_portfolio_copilot.Agent.Loop.Run.{run}
use secure_portfolio_copilot.Agent.PlanState.{
  initial, validate_next_action, complete_next, action_fingerprint, apply_decision, same_signature,
}
use secure_portfolio_copilot.Agent.Loop.Environment.{canonical_action_hash}
use secure_portfolio_copilot.Grounding.{validate_grounded_answer}
use secure_portfolio_copilot.Agent.Loop.Sound.{Clear, Fine, needs_approval, fingerprints, ledger}
use secure_portfolio_copilot.Agent.Loop.Total.{timed}
use secure_portfolio_copilot.Agent.PlanState.Invariant.{Distinct}
use secure_portfolio_copilot.Agent.Models.{StepStatus-discrete, ActionType-discrete}
use secure_portfolio_copilot.Agent.Loop.Act.{must_pause}
use secure_portfolio_copilot.Agent.Loop.Types.{
  ApprovalRiskClass-discrete, AgentControlMode-discrete, TerminalStatus-discrete,
}
use secure_portfolio_copilot.Agent.Loop.Environment.{classify_tool_risk}
use secure_portfolio_copilot.Agent.PlanState.{same_steps, same_step}
use secure_portfolio_copilot.Agent.Loop.Finish.{finalize}
use secure_portfolio_copilot.Grounding.{DraftStatus-discrete}
use secure_portfolio_copilot.Text.{collapse}
use secure_portfolio_copilot.Agent.Loop.State.{terminate, outcome}
use secure_portfolio_copilot.Agent.Loop.Guarantees.{
  run_bounded, run-Clear, run_single_approval, run-Fine, guided_pauses,
}

abbrev search : Action
search = record {
  type = tool_call;
  action_name = some search_tool;
  arguments = search_input "revenue of Acme" 5;
  reason_code = "SEARCH_NEEDED";
}

abbrev answer_now : Action
answer_now = record {
  type = ActionType.finalize;
  action_name = none;
  arguments = no_arguments;
  reason_code = "EVIDENCE_SUFFICIENT";
}

abbrev two_steps : Plan
two_steps = record {
  version = 1;
  plan_text = "Search" ∷ "Answer" ∷ [];
  steps =
      record {
        step_index = 0;
        action_type = tool_call;
        action_name = some search_tool;
        status = pending;
        reason_code = "SEARCH_NEEDED";
      }
      ∷ record {
        step_index = 1;
        action_type = ActionType.finalize;
        action_name = none;
        status = pending;
        reason_code = "EVIDENCE_SUFFICIENT";
      }
      ∷ [];
  change_reason_code = "INITIAL_PLAN";
}

abbrev found : GroundedEvidence
found = record {
  evidence_id = "ev_1";
  chunk_id = 11;
  document_id = 12;
  document_version_id = 13;
  version_number = 1;
  document_title = "Acme FY24";
  excerpt = "Revenue was 120 INR crore.";
  page_number = some 3;
  sheet_name = none;
  row_start = none;
  row_end = none;
  cell_start = none;
  cell_end = none;
}

abbrev result : StructuredObservation
result = record {
  tool_name = search_tool;
  status = ObservationStatus.success;
  evidence = found ∷ [];
  calculations = [];
  memory_context = [];
  memory_notification = none;
  duration_ms = 40;
  retry_count = 0;
  reason_code = "SEARCH_COMPLETED";
}

abbrev seen : PerceptionSnapshot
seen = record {
  intent = financial_lookup;
  local_goal_status = GoalStatus.advanced;
  global_goal_status = GoalStatus.pending;
}

abbrev draft : GroundedAnswerDraft
draft = record {
  status = supported;
  claims = record { text = codes "Revenue was 120 INR crore."; evidence_ids = "ev_1" ∷ [] } ∷ [];
  limitations = [];
}

-- A digest that keeps the name of the action.
abbrev named_digest : List (String × Json) → String
named_digest [] = ""
named_digest ((key, text value) ∷ rest) = if key == "action_name" then value else named_digest rest
named_digest ((key, value) ∷ rest) = named_digest rest

abbrev world : Environment
world = record {
  clock = λ n. 10 * n;
  digest = named_digest;
  fixed2 = λ n. [];
  perceive_user_query = λ query left. answered seen;
  perceive_step_result = λ query previous plan steps observation budgets left. answered seen;
  decide_initial = λ query perception tools left.
      answered (record { plan = two_steps; next_action = search; replan = false });
  decide_mid_session = λ query perception plan steps tools left.
      answered (record { plan = plan; next_action = answer_now; replan = false });
  execute = λ action tools left. observed result;
  generate = λ query evidence left.
      answered (record { answer = draft; input_tokens = some 100; output_tokens = some 20 });
}

abbrev asked : AgentControlMode → Request
asked mode = record {
  query = codes "What was the revenue of Acme?";
  permitted_tools = search_tool ∷ [];
  agent_control_mode = mode;
  limits = record {
    max_steps = 4;
    max_retrieval_rewrites = 1;
    max_replans = 1;
    max_duration_ms = 30000;
  };
  started = 0;
}

abbrev status_of : Option (Exit × LoopState) → Option TerminalStatus
status_of (some (Exit.finished o, s)) = some o.terminal_status
status_of _ = none

abbrev calls_of : Option (Exit × LoopState) → Option (List Action)
calls_of (some (e, s)) = some s.calls
calls_of none = none

-- the run answers, after one call
run-answers : status_of (run world (asked balanced) none []) ≡ some TerminalStatus.completed
unfolding run initial validate_next_action action_fingerprint complete_next apply_decision
    same_signature canonical_action_hash validate_grounded_answer StepStatus-discrete
    ActionType-discrete must_pause ApprovalRiskClass-discrete classify_tool_risk
    AgentControlMode-discrete same_steps same_step finalize DraftStatus-discrete collapse terminate
    TerminalStatus-discrete outcome
run-answers = refl

run-searches : calls_of (run world (asked balanced) none []) ≡ some (search ∷ [])
unfolding run initial validate_next_action action_fingerprint complete_next apply_decision
    same_signature canonical_action_hash validate_grounded_answer StepStatus-discrete
    ActionType-discrete must_pause ApprovalRiskClass-discrete classify_tool_risk
    AgentControlMode-discrete same_steps same_step finalize DraftStatus-discrete collapse terminate
    TerminalStatus-discrete outcome
run-searches = refl

-- in guided mode it asks first
run-asks : status_of (run world (asked guided) none []) ≡ none
unfolding run initial validate_next_action action_fingerprint complete_next apply_decision
    same_signature canonical_action_hash validate_grounded_answer StepStatus-discrete
    ActionType-discrete must_pause ApprovalRiskClass-discrete classify_tool_risk
    AgentControlMode-discrete same_steps same_step finalize DraftStatus-discrete collapse terminate
    TerminalStatus-discrete outcome
run-asks = refl

run_bounded_example :
    (r : Exit × LoopState) × (run world (asked balanced) none [] ≡ some r)
    × (r.1.step_count ≤ 4)
    × (length r.1.calls ≤ 4)
    × (r.1.retrieval_count ≤ 2)
    × (r.1.replan_count ≤ 2)
run_bounded_example = run_bounded world (asked balanced) none []

run-Clear_example :
    (r : Exit × LoopState) × (run world (asked balanced) none [] ≡ some r)
    × All (Clear world (timed world (asked balanced)) none) r.1.calls
run-Clear_example = run-Clear world (asked balanced) none []

run_single_approval_example :
    (r : Exit × LoopState) × (run world (asked guided) (some search_tool) [] ≡ some r)
    × (length (filter (needs_approval world (timed world (asked guided))) r.1.calls) ≤ 1)
    × Distinct (fingerprints world (timed world (asked guided)) r.1.calls)
run_single_approval_example = run_single_approval world (asked guided) (some search_tool) []

run-Fine_example :
    (r : Exit × LoopState) × (run world (asked balanced) none [] ≡ some r)
    × Fine world (timed world (asked balanced)) (ledger r.1) r.0
run-Fine_example = run-Fine world (asked balanced) none []

guided_pauses_example :
    (r : Exit × LoopState) × (run world (asked guided) none [] ≡ some r) × (r.1.calls ≡ [])
guided_pauses_example = guided_pauses world (asked guided) [] refl
