-- ===== src/Agent/PlanState.antt =====
-- backend/app/agent/plan_state.py: plan versions, progression and the completed-step history.
pub mod Invariant
pub mod Deciding
pub mod History
pub mod Progress
mod Tests
use secure_portfolio_copilot.Base.{
  Bool, List, List-eq, Option, Option-eq, String, String-eq, [], any, contains, false, find?,
  if◌then◌else◌, map, none, not, refl, some, true, ℕ-eq, ◌&&◌, ◌++◌, ◌+◌, ◌==◌, ◌||◌, ◌∷◌, ◌≡◌,
}
use secure_portfolio_copilot.Agent.Models.{
  ActionType, tool_call, finalize, clarify, refuse, ActionType-eq, StepStatus, pending, completed,
  StepStatus-eq, ActionArguments, Action, Step, Plan, DecisionResult, CompletedStep,
}

-- `PlanExhaustedError` is a subclass of `PlanContractError`, and is caught first where both are.
pub data PlanError : Type 0 where
  plan_contract plan_exhausted : PlanError

-- `err` is a raise, `ok` a return.
pub data Result {ℓ} (A : Type ℓ) : Type ℓ where
  err : PlanError → Result A
  ok : A → Result A

module _ {ℓ κ} {A : Type ℓ} {B : Type κ} where
  infixl 10 ◌>>=◌ ◌>>◌
  abbrev pub ◌>>=◌ : Result A → (A → Result B) → Result B
  err e >>= next = err e
  ok a >>= next = next a

  abbrev pub ◌>>◌ : Result A → Result B → Result B
  err e >> rest = err e
  ok a >> rest = rest

  -- A chain that returns has returned from each of its parts.
  pub >>=-eq-ok :
      (r : Result A) (next : A → Result B) {b : B}
      → (r >>= next) ≡ ok b
      → (a : A) × (r ≡ ok a) × (next a ≡ ok b)
  >>=-eq-ok (err e) next h = cc
  >>=-eq-ok (ok a) next h = (a, refl, h)

  pub >>-eq-ok :
      (r : Result A) (rest : Result B) {b : B}
      → (r >> rest) ≡ ok b
      → (a : A) × (r ≡ ok a) × (rest ≡ ok b)
  >>-eq-ok (err e) rest h = cc
  >>-eq-ok (ok a) rest h = (a, refl, h)

abbrev pub raise_if : Bool → PlanError → Result (Unit {0})
raise_if true e = err e
raise_if false e = ok tt

pub raise_if-eq-ok : (b : Bool) (e : PlanError) {u : Unit {0}} → raise_if b e ≡ ok u → b ≡ false
raise_if-eq-ok true e h = cc
raise_if-eq-ok false e h = refl

-- A value of a payload that `json.dumps` renders.
pub data Json : Type 0 where
  null : Json
  text : String → Json
  arguments : ActionArguments → Json

abbrev pub name_json : Option String → Json
name_json none = null
name_json (some name) = text name

-- the members' values
unfoldable pub type_value : ActionType → String
type_value tool_call = "TOOL_CALL"
type_value finalize = "FINALIZE"
type_value clarify = "CLARIFY"
type_value refuse = "REFUSE"

-- `_plan_signature`, compared part by part
unfoldable pub same_step : Step → Step → Bool
same_step a b =
    (a.step_index == b.step_index)
    && ((a.action_type == b.action_type)
        && ((a.action_name == b.action_name) && (a.status == b.status)))

unfoldable pub same_steps : List Step → List Step → Bool
same_steps [] [] = true
same_steps [] (b ∷ bs) = false
same_steps (a ∷ as') [] = false
same_steps (a ∷ as') (b ∷ bs) = same_step a b && same_steps as' bs

unfoldable pub same_signature : Plan → Plan → Bool
same_signature p q = (p.plan_text == q.plan_text) && same_steps p.steps q.steps

pub record PlanState : Type 0 where
  pub current_plan : Plan
  pub versions : List Plan
  pub completed_history : List CompletedStep
  pub executed_action_fingerprints : List String

abbrev pub is_pending : Step → Bool
is_pending step = step.status == pending

-- `PlanState.first_pending_step`
abbrev pub first_pending_step : PlanState → Option Step
first_pending_step state = find? is_pending state.current_plan.steps

-- `versions[:-1]`
abbrev pub drop_last {ℓ} : {A : Type ℓ} → List A → List A
drop_last [] = []
drop_last (x ∷ []) = []
drop_last (x ∷ y ∷ xs) = x ∷ drop_last (y ∷ xs)

abbrev pub complete_step : Step → Step
complete_step step = record step { status = completed; reason_code = "TOOL_COMPLETED" }

abbrev pub complete_at : Step → Step → Step
complete_at matched item =
    if item.step_index == matched.step_index then complete_step matched else item

-- `json.dumps` and `hashlib.sha256` of a payload, as the digest's text.
module _ (digest : List (String × Json) → String) where
  -- `_action_fingerprint`
  unfoldable pub action_fingerprint : Action → String
  unfolding type_value
  action_fingerprint action = digest (
      ("type", text (type_value action.type))
      ∷ ("action_name", name_json action.action_name)
      ∷ ("arguments", arguments action.arguments)
      ∷ [])

  abbrev pub check_next_action : PlanState → Action → Option Step → Result Step
  check_next_action state action none = err plan_exhausted
  check_next_action state action (some step) = do
    raise_if (not (step.action_type == action.type) || not (step.action_name == action.action_name))
        plan_contract
    raise_if (contains state.executed_action_fingerprints (action_fingerprint action)) plan_contract
    ok step

  unfoldable pub validate_next_action : PlanState → Action → Result Step
  validate_next_action state action = check_next_action state action (first_pending_step state)

  -- `PlanState.initial`
  unfoldable pub initial : DecisionResult → Result PlanState
  unfolding validate_next_action
  initial decision = do
    raise_if (not (decision.plan.version == 1)) plan_contract
    raise_if decision.replan plan_contract
    raise_if (any (λ step. not (is_pending step)) decision.plan.steps) plan_contract
    let state : PlanState = record {
      current_plan = decision.plan;
      versions = decision.plan ∷ [];
      completed_history = [];
      executed_action_fingerprints = [];
    }
    validate_next_action state decision.next_action
    ok state

  -- the new state of `complete_next`, once `matched` is known
  abbrev pub completed_state : PlanState → Action → Step → PlanState
  completed_state state action matched =
      let steps = map (complete_at matched) state.current_plan.steps in
      let updated_plan = record state.current_plan { steps = steps } in
      record {
        current_plan = updated_plan;
        versions = drop_last state.versions ++ updated_plan ∷ [];
        completed_history =
            state.completed_history
            ++ record {
              plan_version = state.current_plan.version;
              step_index = matched.step_index;
              action_type = matched.action_type;
              action_name = matched.action_name;
              status = completed;
              reason_code = "TOOL_COMPLETED";
            }
              ∷ [];
        executed_action_fingerprints =
            action_fingerprint action ∷ state.executed_action_fingerprints;
      }

  unfoldable pub complete_next : PlanState → Action → Result PlanState
  complete_next state action = do
    matched ← validate_next_action state action
    ok (completed_state state action matched)

  abbrev pub next_version : PlanState → DecisionResult → Result (PlanState × Bool)
  next_version state decision = do
    let candidate = decision.plan
    raise_if (not (candidate.version == state.current_plan.version + 1)) plan_contract
    raise_if (any (λ step. not (is_pending step)) candidate.steps) plan_contract
    ok (
      record state { current_plan = candidate; versions = state.versions ++ candidate ∷ [] },
      true,
    )

  abbrev pub same_version : PlanState → DecisionResult → Result (PlanState × Bool)
  same_version state decision = do
    raise_if (not (decision.plan.version == state.current_plan.version)) plan_contract
    raise_if decision.replan plan_contract
    ok (state, false)

  unfoldable pub apply_decision : PlanState → DecisionResult → Result (PlanState × Bool)
  unfolding same_signature
  apply_decision state decision = do
    let changed = not (same_signature decision.plan state.current_plan)
    (state', changed') ←
        if changed then next_version state decision else same_version state decision
    validate_next_action state' decision.next_action
    ok (state', changed')
