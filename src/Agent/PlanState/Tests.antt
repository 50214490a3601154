-- ===== src/Agent/PlanState/Tests.antt =====
-- A plan of two steps run by hand, and the theorems on plan states at it.
use secure_portfolio_copilot.Base.{
  List, List-eq, Option-eq, String, String-eq, [], contains, false, none, refl, some, true, ℕ-eq,
  ◌++◌, ◌+◌, ◌↔◌, ◌∷◌, ◌≡◌, ◌≢◌,
}
use secure_portfolio_copilot.Agent.Models.{
  StepStatus-discrete, ActionType-discrete, CompletedStep, ordered_from, tool_call, finalize,
  pending, search_input, no_arguments, Action, Step, Plan, DecisionResult,
}
use secure_portfolio_copilot.Agent.PlanState.{
  plan_contract, same_step, action_fingerprint, first_pending_step, same_steps, completed_state,
  apply_decision, validate_next_action, initial, Json, text, PlanState, ok, err, complete_next,
}
use secure_portfolio_copilot.Agent.PlanState.History.{
  completes, decides, here, next, never_again, run-IsConsistent, Reach, history_append_only,
}
use secure_portfolio_copilot.Agent.PlanState.Progress.{
  complete_next-steps, pending_count, complete_first,
}
use secure_portfolio_copilot.Agent.PlanState.Deciding.{apply_decision_iff, Acceptable, Decided}
use secure_portfolio_copilot.Agent.PlanState.Invariant.{validate_iff, IsConsistent, start}

-- A digest that tells the two actions below apart, by the type in the payload.
abbrev digest : List (String × Json) → String
digest ((_, text t) ∷ _) = t
digest _ = ""

abbrev search : Action
search = record {
  type = tool_call;
  action_name = some "portfolio.search_authorized_documents";
  arguments = search_input "revenue" 4;
  reason_code = "SEARCH";
}

abbrev finish : Action
finish = record {
  type = finalize;
  action_name = none;
  arguments = no_arguments;
  reason_code = "DONE";
}

abbrev first_step : Step
first_step = record {
  step_index = 0;
  action_type = tool_call;
  action_name = some "portfolio.search_authorized_documents";
  status = pending;
  reason_code = "SEARCH";
}

abbrev second_step : Step
second_step = record first_step { step_index = 1; action_type = finalize; action_name = none }

abbrev plan : Plan
plan = record {
  version = 1;
  plan_text = "search" ∷ "answer" ∷ [];
  steps = first_step ∷ second_step ∷ [];
  change_reason_code = "INITIAL";
}

abbrev decision : DecisionResult
decision = record { plan = plan; next_action = search; replan = false }

abbrev after : PlanState
after = completed_state digest (start decision) search first_step

abbrev last : DecisionResult
last = record { plan = after.current_plan; next_action = finish; replan = false }

initial-decision : initial digest decision ≡ ok (start decision)
unfolding initial validate_next_action ActionType-discrete StepStatus-discrete
initial-decision = refl

complete_next-search : complete_next digest (start decision) search ≡ ok after
unfolding complete_next validate_next_action ActionType-discrete StepStatus-discrete
complete_next-search = refl

apply_decision-last : apply_decision digest after last ≡ ok (after, false)
unfolding apply_decision validate_next_action same_steps same_step action_fingerprint
    ActionType-discrete StepStatus-discrete
apply_decision-last = refl

search_again : validate_next_action digest after search ≡ err plan_contract
unfolding validate_next_action ActionType-discrete StepStatus-discrete
search_again = refl

reached : Reach digest after after
reached = next here (decides last false apply_decision-last)

validate_iff_example : (validate_next_action digest (start decision) search ≡ ok first_step) ↔ (
    (first_pending_step (start decision) ≡ some first_step)
    × (first_step.action_type ≡ search.type)
    × (first_step.action_name ≡ search.action_name)
    × (contains [] (action_fingerprint digest search) ≡ false))
validate_iff_example = validate_iff digest (start decision) search first_step

run-IsConsistent_example : IsConsistent after
run-IsConsistent_example =
    run-IsConsistent digest decision (start decision) after initial-decision
      (next here (completes search complete_next-search))

never_again_example : validate_next_action digest after search ≢ ok second_step
never_again_example =
    never_again digest (start decision) search after after search second_step complete_next-search
      reached refl

history_append_only_example : (more : List CompletedStep) × (after.completed_history ≡ [] ++ more)
history_append_only_example =
    history_append_only digest {s = start decision}
      (next here (completes search complete_next-search))

apply_decision_iff_example :
    (apply_decision digest after last ≡ ok (after, false))
    ↔ (Decided digest after last after false × Acceptable digest after last.next_action)
apply_decision_iff_example = apply_decision_iff digest after last after false

complete_next-steps_example :
    (after.current_plan.steps ≡ complete_first plan.steps)
    × (ordered_from 0 after.current_plan.steps ≡ true)
    × (pending_count after.current_plan.steps + 1 ≡ pending_count plan.steps)
unfolding ordered_from
complete_next-steps_example =
    complete_next-steps digest (start decision) search after refl complete_next-search
