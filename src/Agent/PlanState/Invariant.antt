-- ===== src/Agent/PlanState/Invariant.antt =====
-- plan_state.py: what every plan state that the loop can reach keeps.
use secure_portfolio_copilot.Base.{
  Bool, Bool-cases, List, List-eq, Option, Option-eq, String, String-eq, [], any, ap, arith,
  contains, enum_beq_iff, false, if◌then◌else◌, inl, inr, length, length-append, none, not,
  option_beq_iff, refl, some, subst, suc, true, ℕ, ℕ-eq, ◌++◌, ◌+◌, ◌==◌, ◌↔◌, ◌∷◌, ◌≡◌,
}
use secure_portfolio_copilot.Agent.Models.{
  ActionType-discrete, Action, Step, Plan, DecisionResult, StepStatus-eq, ActionType-eq,
}
use secure_portfolio_copilot.Agent.PlanState.{
  >>-eq-ok, ◌>>=◌, ◌>>◌, raise_if-eq-ok, >>=-eq-ok, Json, PlanState, Result, ok, err, raise_if,
  plan_contract, is_pending, first_pending_step, drop_last, action_fingerprint, check_next_action,
  validate_next_action, initial, completed_state, complete_next, next_version, same_version,
  same_signature, apply_decision,
}

abbrev pub Numbered : ℕ → List Plan → Type 0
Numbered n [] = Unit
Numbered n (plan ∷ plans) = (plan.version ≡ n) × Numbered (suc n) plans

abbrev pub Distinct : List String → Type 0
Distinct [] = Unit
Distinct (x ∷ xs) = (contains xs x ≡ false) × Distinct xs

-- The versions are numbered 1, 2, 3, … and end in the current plan; each completed step has its
-- own fingerprint.
pub record IsConsistent (s : PlanState) : Type 0 where
  pub latest : s.versions ≡ drop_last s.versions ++ s.current_plan ∷ []
  pub numbered : Numbered 1 s.versions
  pub counted : length s.completed_history ≡ length s.executed_action_fingerprints
  pub distinct : Distinct s.executed_action_fingerprints

drop_last-append {ℓ} : {A : Type ℓ} (xs : List A) (x : A) → drop_last (xs ++ x ∷ []) ≡ xs
drop_last-append [] x = refl
drop_last-append (y ∷ []) x = refl
drop_last-append (y ∷ z ∷ xs) x = ap (λ l. y ∷ l) (drop_last-append (z ∷ xs) x)

Numbered-append :
    (n : ℕ) (plans : List Plan) (p : Plan)
    → Numbered n plans
    → p.version ≡ n + length plans
    → Numbered n (plans ++ p ∷ [])
Numbered-append n [] p h e = omega (arith, e)
Numbered-append n (q ∷ plans) p h e = (h.0, Numbered-append (suc n) plans p h.1 (omega arith))

Numbered-init :
    (n : ℕ) (plans : List Plan) (p : Plan)
    → Numbered n (plans ++ p ∷ [])
    → Numbered n plans × (p.version ≡ n + length plans)
Numbered-init n [] p h = (tt, omega arith)
Numbered-init n (q ∷ plans) p h =
    let rest = Numbered-init (suc n) plans p h.1 in ((h.0, rest.0), omega arith)

-- Whatever list ends in the current plan has it as the last of `drop_last` and one more.
latest-append :
    (past : List Plan) (p : Plan) → past ++ p ∷ [] ≡ drop_last (past ++ p ∷ []) ++ p ∷ []
latest-append past p = rw drop_last-append

-- The state of a decision whose plan is new.
abbrev pub start : DecisionResult → PlanState
start d = record {
  current_plan = d.plan;
  versions = d.plan ∷ [];
  completed_history = [];
  executed_action_fingerprints = [];
}

module _ (digest : List (String × Json) → String) where
  check_iff :
      (s : PlanState) (a : Action) (o : Option Step) (step : Step)
      → (check_next_action digest s a o ≡ ok step) ↔ (
          (o ≡ some step)
          × (step.action_type ≡ a.type)
          × (step.action_name ≡ a.action_name)
          × (contains s.executed_action_fingerprints (action_fingerprint digest a) ≡ false))
  check_iff s a none step = ground arith
  check_iff s a (some x) step = ground (
    arith,
    enum_beq_iff ActionType-discrete x.action_type a.type,
    option_beq_iff x.action_name a.action_name,
  )

  -- What `validate_next_action` accepts is the first pending step of the plan, of the type and the
  -- name of the action, and only if no action of that fingerprint has been executed.
  pub validate_iff :
      (s : PlanState) (a : Action) (step : Step)
      → (validate_next_action digest s a ≡ ok step) ↔ (
          (first_pending_step s ≡ some step)
          × (step.action_type ≡ a.type)
          × (step.action_name ≡ a.action_name)
          × (contains s.executed_action_fingerprints (action_fingerprint digest a) ≡ false))
  unfolding validate_next_action
  validate_iff s a step = check_iff s a (first_pending_step s) step

  -- A state that `initial` returns has the decision's plan, of version 1 and with every step
  -- pending, and nothing completed; the decision's action is acceptable there.
  pub initial-eq-ok :
      (d : DecisionResult) (s : PlanState)
      → initial digest d ≡ ok s
      → (s ≡ start d)
        × (d.plan.version ≡ 1)
        × (d.replan ≡ false)
        × (any (λ step. not (is_pending step)) d.plan.steps ≡ false)
        × ((step : Step) × (validate_next_action digest (start d) d.next_action ≡ ok step))
  unfolding initial
  initial-eq-ok d s h =
      let (_, v, h₁) = >>-eq-ok (raise_if (not (d.plan.version == 1)) plan_contract) _ h in
      let (_, r, h₂) = >>-eq-ok (raise_if d.replan plan_contract) _ h₁ in
      let (_, p, h₃) =
        >>-eq-ok (raise_if (any (λ step. not (is_pending step)) d.plan.steps) plan_contract) _ h₂ in
      let (step, a, h₄) = >>-eq-ok (validate_next_action digest (start d) d.next_action) _ h₃ in
      (
        ground arith,
        ground (arith, raise_if-eq-ok (not (d.plan.version == 1)) plan_contract v),
        raise_if-eq-ok d.replan plan_contract r,
        raise_if-eq-ok (any (λ step. not (is_pending step)) d.plan.steps) plan_contract p,
        (step, a),
      )

  pub initial-IsConsistent :
      (d : DecisionResult) (s : PlanState) → initial digest d ≡ ok s → IsConsistent s
  initial-IsConsistent d s h =
      let p = initial-eq-ok d s h in
      rw p.0 (record { latest = refl; numbered = (p.1, tt); counted = refl; distinct = tt })

  pub complete_next-eq-ok :
      (s : PlanState) (a : Action) (t : PlanState)
      → complete_next digest s a ≡ ok t
      → (m : Step) × (validate_next_action digest s a ≡ ok m) × (t ≡ completed_state digest s a m)
  unfolding complete_next
  complete_next-eq-ok s a t h =
      let (m, v, e) =
        >>=-eq-ok (validate_next_action digest s a) (λ m. ok (completed_state digest s a m)) h in
      (m, v, ground arith)

  -- Whatever `validate_next_action` accepts, `complete_next` completes.
  pub complete_next-accepted :
      (s : PlanState) (a : Action) (m : Step)
      → validate_next_action digest s a ≡ ok m
      → complete_next digest s a ≡ ok (completed_state digest s a m)
  unfolding complete_next
  complete_next-accepted s a m h = ground arith

  completed_state-IsConsistent :
      (s : PlanState) (a : Action) (m : Step)
      → contains s.executed_action_fingerprints (action_fingerprint digest a) ≡ false
      → IsConsistent s
      → IsConsistent (completed_state digest s a m)
  completed_state-IsConsistent s a m fresh v =
      let past = drop_last s.versions in
      let plans = subst (Numbered 1) v.latest v.numbered in
      let (before, version) = Numbered-init 1 past s.current_plan plans in
      let updated = (completed_state digest s a m).current_plan in
      record {
        latest = latest-append past updated;
        numbered = Numbered-append 1 past updated before version;
        counted = omega (arith, length-append s.completed_history, v.counted);
        distinct = (fresh, v.distinct);
      }

  -- Completing a step keeps the state consistent.
  pub complete_next-IsConsistent :
      (s : PlanState) (a : Action) (t : PlanState)
      → complete_next digest s a ≡ ok t
      → IsConsistent s
      → IsConsistent t
  complete_next-IsConsistent s a t h v =
      let (m, accepted, e) = complete_next-eq-ok s a t h in
      rw e (completed_state-IsConsistent s a m ((validate_iff s a m).0 accepted).3 v)

  -- What an accepted decision has done.
  pub record Applied (s : PlanState) (d : DecisionResult) (t : PlanState) (changed : Bool)
      : Type 0 where
    pub signed : changed ≡ not (same_signature d.plan s.current_plan)
    pub replaced :
        changed ≡ true
        → (t ≡ record s { current_plan = d.plan; versions = s.versions ++ d.plan ∷ [] })
          × (d.plan.version ≡ s.current_plan.version + 1)
          × (any (λ step. not (is_pending step)) d.plan.steps ≡ false)
    pub kept :
        changed ≡ false → (t ≡ s) × (d.plan.version ≡ s.current_plan.version) × (d.replan ≡ false)
    pub accepted : (step : Step) × (validate_next_action digest t d.next_action ≡ ok step)

  next_version-eq-ok :
      (s : PlanState) (d : DecisionResult) (t : PlanState) (changed : Bool)
      → next_version digest s d ≡ ok (t, changed)
      → (changed ≡ true)
        × (t ≡ record s { current_plan = d.plan; versions = s.versions ++ d.plan ∷ [] })
        × (d.plan.version ≡ s.current_plan.version + 1)
        × (any (λ step. not (is_pending step)) d.plan.steps ≡ false)
  next_version-eq-ok s d t changed h = ground arith

  same_version-eq-ok :
      (s : PlanState) (d : DecisionResult) (t : PlanState) (changed : Bool)
      → same_version digest s d ≡ ok (t, changed)
      → (changed ≡ false) × (t ≡ s) × (d.plan.version ≡ s.current_plan.version) × (d.replan ≡ false)
  same_version-eq-ok s d t changed h = ground arith

  abbrev accept : DecisionResult → PlanState × Bool → Result (PlanState × Bool)
  accept d r = validate_next_action digest r.0 d.next_action >> ok r

  accept-eq-ok :
      (d : DecisionResult) (r : Result (PlanState × Bool)) (t : PlanState) (changed : Bool)
      → (r >>= accept d) ≡ ok (t, changed)
      → (r ≡ ok (t, changed))
        × ((step : Step) × (validate_next_action digest t d.next_action ≡ ok step))
  accept-eq-ok d (err e) t changed h = cc
  accept-eq-ok d (ok r) t changed h =
      let (step, a, e) = >>-eq-ok (validate_next_action digest r.0 d.next_action) (ok r) h in
      (e, (step, ground arith))

  Applied-by :
      (s : PlanState) (d : DecisionResult) (t : PlanState) (changed : Bool)
      → (if not (same_signature d.plan s.current_plan)
          then next_version digest s d
          else same_version digest s d)
        ≡ ok (t, changed)
      → ((step : Step) × (validate_next_action digest t d.next_action ≡ ok step))
      → Applied s d t changed
  Applied-by s d t changed h acc = elim (Bool-cases (same_signature d.plan s.current_plan)) [
    | inl e ↦
        let q = same_version-eq-ok s d t changed (ground arith) in
        record {
          signed = ground arith;
          replaced = λ x. cc;
          kept = λ _. (q.1, q.2, q.3);
          accepted = acc;
        }
    | inr e ↦
        let q = next_version-eq-ok s d t changed (ground arith) in
        record {
          signed = ground arith;
          replaced = λ _. (q.1, q.2, q.3);
          kept = λ x. cc;
          accepted = acc;
        }
  ]

  -- A decision that `apply_decision` accepts either changes the signature of the plan, and then
  -- brings the next version with every step pending, which becomes the current plan and is appended
  -- to the versions, or keeps the signature, the version and the state, and claims no replan. Its
  -- action is acceptable in the state that results.
  pub apply_decision-Applied :
      (s : PlanState) (d : DecisionResult) (t : PlanState) (changed : Bool)
      → apply_decision digest s d ≡ ok (t, changed)
      → Applied s d t changed
  unfolding apply_decision
  apply_decision-Applied s d t changed h =
      let p =
        accept-eq-ok d
          (if not (same_signature d.plan s.current_plan)
            then next_version digest s d
            else same_version digest s d)
          t changed h in
      Applied-by s d t changed p.0 p.1

  Applied-IsConsistent :
      (s : PlanState) (d : DecisionResult) (t : PlanState) (changed : Bool)
      → Applied s d t changed
      → IsConsistent s
      → IsConsistent t
  Applied-IsConsistent s d t true a v =
      let (e, version, fresh) = a.replaced refl in
      let past = drop_last s.versions in
      let plans = subst (Numbered 1) v.latest v.numbered in
      let (before, here) = Numbered-init 1 past s.current_plan plans in
      let long = length-append past (s.current_plan ∷ []) in
      rw e (record {
        latest = latest-append s.versions d.plan;
        numbered =
            Numbered-append 1 s.versions d.plan v.numbered (omega (arith, ap length v.latest));
        counted = v.counted;
        distinct = v.distinct;
      })
  Applied-IsConsistent s d t false a v = rw (a.kept refl).0 v

  -- An accepted decision keeps the state consistent.
  pub apply_decision-IsConsistent :
      (s : PlanState) (d : DecisionResult) (t : PlanState) (changed : Bool)
      → apply_decision digest s d ≡ ok (t, changed)
      → IsConsistent s
      → IsConsistent t
  apply_decision-IsConsistent s d t changed h v =
      Applied-IsConsistent s d t changed (apply_decision-Applied s d t changed h) v
