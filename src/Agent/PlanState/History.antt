-- ===== src/Agent/PlanState/History.antt =====
-- plan_state.py: the states that `complete_next` and `apply_decision` lead to, and what their
-- history keeps on the way.
use secure_portfolio_copilot.Base.{
  Bool, List, List-eq, Option-eq, String, String-eq, [], ap, append-nil, append_assoc, arith,
  contains, eq_iff, false, refl, sym, true, ℕ-eq, ◌++◌, ◌∙◌, ◌≡◌, ◌≢◌,
}
use secure_portfolio_copilot.Agent.Models.{Action, Step, DecisionResult, CompletedStep}
use secure_portfolio_copilot.Agent.PlanState.{
  Json, PlanState, ok, action_fingerprint, validate_next_action, initial, complete_next,
  apply_decision,
}
use secure_portfolio_copilot.Agent.PlanState.Invariant.{
  IsConsistent, initial-IsConsistent, complete_next-eq-ok, complete_next-IsConsistent,
  apply_decision-Applied, apply_decision-IsConsistent, validate_iff,
}

module _ (digest : List (String × Json) → String) where
  -- One call that the loop makes on its plan state.
  pub data Advance (s t : PlanState) : Type 0 where
    completes : (a : Action) → complete_next digest s a ≡ ok t → Advance s t
    decides :
        (d : DecisionResult) (changed : Bool)
        → apply_decision digest s d ≡ ok (t, changed)
        → Advance s t

  pub data Reach (s : PlanState) : PlanState → Type 0 where
    here : Reach s s
    next : {t u : PlanState} → Reach s t → Advance t u → Reach s u

  Advance-IsConsistent : {s t : PlanState} → Advance s t → IsConsistent s → IsConsistent t
  Advance-IsConsistent {s} {t} (completes a h) v = complete_next-IsConsistent digest s a t h v
  Advance-IsConsistent {s} {t} (decides d c h) v = apply_decision-IsConsistent digest s d t c h v

  Reach-IsConsistent : {s t : PlanState} → IsConsistent s → Reach s t → IsConsistent t
  Reach-IsConsistent v here = v
  Reach-IsConsistent v (next r a) = Advance-IsConsistent a (Reach-IsConsistent v r)

  -- From an initial decision on, whatever steps complete and whatever decisions are accepted: the
  -- plan versions are numbered 1, 2, 3, … and end in the current plan, and each completed step has
  -- executed an action with a fingerprint of its own.
  pub run-IsConsistent :
      (d : DecisionResult) (s t : PlanState) → initial digest d ≡ ok s → Reach s t → IsConsistent t
  run-IsConsistent d s t h r = Reach-IsConsistent (initial-IsConsistent digest d s h) r

  Advance-executed :
      {s t : PlanState} (f : String)
      → Advance s t
      → contains s.executed_action_fingerprints f ≡ true
      → contains t.executed_action_fingerprints f ≡ true
  Advance-executed {s} {t} f (completes a h) e =
      let (m, _, p) = complete_next-eq-ok digest s a t h in ground arith
  Advance-executed {s} {t} f (decides d true h) e =
      let (p, _, _) = (apply_decision-Applied digest s d t true h).replaced refl in ground arith
  Advance-executed {s} {t} f (decides d false h) e =
      let (p, _, _) = (apply_decision-Applied digest s d t false h).kept refl in ground arith

  Reach-executed :
      {s t : PlanState} (f : String)
      → Reach s t
      → contains s.executed_action_fingerprints f ≡ true
      → contains t.executed_action_fingerprints f ≡ true
  Reach-executed f here e = e
  Reach-executed f (next r a) e = Advance-executed f a (Reach-executed f r e)

  -- Once an action has completed, no later state accepts an action with its fingerprint, whatever
  -- plans come between.
  pub never_again :
      (s : PlanState) (a : Action) (t u : PlanState) (b : Action) (step : Step)
      → complete_next digest s a ≡ ok t
      → Reach t u
      → action_fingerprint digest b ≡ action_fingerprint digest a
      → validate_next_action digest u b ≢ ok step
  never_again s a t u b step h r same accepted =
      let (m, _, p) = complete_next-eq-ok digest s a t h in
      let f = action_fingerprint digest a in
      let done : contains t.executed_action_fingerprints f ≡ true = ground (arith, eq_iff f f) in
      let fresh = ((validate_iff digest u b step).0 accepted).3 in
      cc (Reach-executed f r done, fresh, same)

  Advance-history :
      {s t : PlanState}
      → Advance s t
      → (more : List CompletedStep) × (t.completed_history ≡ s.completed_history ++ more)
  Advance-history {s} {t} (completes a h) =
      let (m, _, p) = complete_next-eq-ok digest s a t h in (_, ap (λ x. x.completed_history) p)
  Advance-history {s} {t} (decides d true h) =
      let (p, _, _) = (apply_decision-Applied digest s d t true h).replaced refl in
      ([], ap (λ x. x.completed_history) p ∙ sym (append-nil s.completed_history))
  Advance-history {s} {t} (decides d false h) =
      let (p, _, _) = (apply_decision-Applied digest s d t false h).kept refl in
      ([], ap (λ x. x.completed_history) p ∙ sym (append-nil s.completed_history))

  -- The completed-step history is never rewritten: whatever happens is appended to it.
  pub history_append_only :
      {s t : PlanState}
      → Reach s t
      → (more : List CompletedStep) × (t.completed_history ≡ s.completed_history ++ more)
  history_append_only {s} here = ([], sym (append-nil s.completed_history))
  history_append_only {s} (next r a) =
      let (one, p) = history_append_only r in
      let (two, q) = Advance-history a in
      (one ++ two, q ∙ ap (λ l. l ++ two) p ∙ append_assoc s.completed_history one two)
