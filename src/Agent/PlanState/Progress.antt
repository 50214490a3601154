-- ===== src/Agent/PlanState/Progress.antt =====
-- plan_state.py: what `complete_next` does to the steps of a plan whose indices are ordered, as
-- `Plan.unique_ordered_steps` demands.
use secure_portfolio_copilot.Base.{
  List, List-eq, Option-eq, String, String-eq, [], ap, arith, find?, if◌then◌else◌, map, refl, some,
  suc, true, ℕ, ℕ-eq, ◌+◌, ◌<◌, ◌∙◌, ◌∷◌, ◌≡◌, ◌≤◌,
}
use secure_portfolio_copilot.Agent.Models.{
  Action, Step, StepStatus-eq, StepStatus-discrete, ActionType-eq, ordered_from,
}
use secure_portfolio_copilot.Agent.PlanState.{
  Json, PlanState, ok, is_pending, complete_step, complete_at, complete_next,
}
use secure_portfolio_copilot.Agent.PlanState.Invariant.{complete_next-eq-ok, validate_iff}

abbrev pub pending_count : List Step → ℕ
pending_count [] = 0
pending_count (step ∷ steps) = (if is_pending step then 1 else 0) + pending_count steps

-- The list with its first pending step completed: an independent account of the update.
abbrev pub complete_first : List Step → List Step
complete_first [] = []
complete_first (step ∷ steps) =
    if is_pending step then complete_step step ∷ steps else step ∷ complete_first steps

map-complete_at_later :
    (n : ℕ) (m : Step) (steps : List Step)
    → ordered_from n steps ≡ true
    → m.step_index < n
    → map (complete_at m) steps ≡ steps
unfolding ordered_from
map-complete_at_later n m [] h lt = refl
map-complete_at_later n m (step ∷ steps) h lt =
    ground (arith, map-complete_at_later (suc n) m steps)

find?-later :
    (n : ℕ) (m : Step) (steps : List Step)
    → ordered_from n steps ≡ true
    → find? is_pending steps ≡ some m
    → n ≤ m.step_index
unfolding ordered_from
find?-later n m [] h e = cc
find?-later n m (step ∷ steps) h e = ground (arith, find?-later (suc n) m steps)

map-complete_at :
    (n : ℕ) (m : Step) (steps : List Step)
    → ordered_from n steps ≡ true
    → find? is_pending steps ≡ some m
    → map (complete_at m) steps ≡ complete_first steps
unfolding ordered_from
map-complete_at n m [] h e = cc
map-complete_at n m (step ∷ steps) h e = ground (
  arith,
  map-complete_at (suc n) m steps,
  map-complete_at_later (suc n) m steps,
  find?-later (suc n) m steps,
)

ordered_from-complete_first :
    (n : ℕ) (steps : List Step) → ordered_from n (complete_first steps) ≡ ordered_from n steps
unfolding ordered_from
ordered_from-complete_first n [] = refl
ordered_from-complete_first n (step ∷ steps) =
    ground (arith, ordered_from-complete_first (suc n) steps)

pending_count-complete_first :
    (m : Step) (steps : List Step)
    → find? is_pending steps ≡ some m
    → pending_count (complete_first steps) + 1 ≡ pending_count steps
unfolding StepStatus-discrete
pending_count-complete_first m [] e = cc
pending_count-complete_first m (step ∷ steps) e =
    ground (arith, pending_count-complete_first m steps)

module _ (digest : List (String × Json) → String) where
  -- On a plan with ordered step indices `complete_next` completes exactly the first pending step
  -- and leaves the others as they are, so the indices stay ordered and one step fewer is pending.
  pub complete_next-steps :
      (s : PlanState) (a : Action) (t : PlanState)
      → ordered_from 0 s.current_plan.steps ≡ true
      → complete_next digest s a ≡ ok t
      → (t.current_plan.steps ≡ complete_first s.current_plan.steps)
        × (ordered_from 0 t.current_plan.steps ≡ true)
        × (pending_count t.current_plan.steps + 1 ≡ pending_count s.current_plan.steps)
  complete_next-steps s a t ordered h =
      let (m, accepted, e) = complete_next-eq-ok digest s a t h in
      let found = ((validate_iff digest s a m).0 accepted).0 in
      let steps = s.current_plan.steps in
      let same : t.current_plan.steps ≡ complete_first steps =
        ap (λ x. x.current_plan.steps) e ∙ map-complete_at 0 m steps ordered found in
      (
        same,
        rw same (ordered_from-complete_first 0 steps ∙ ordered),
        rw same (pending_count-complete_first m steps found),
      )
