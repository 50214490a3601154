-- ===== src/Agent/PlanState/Deciding.antt =====
-- plan_state.py: what `apply_decision` accepts, and what it makes of it, in terms of plans and steps.
use secure_portfolio_copilot.Base.{
  All, Bool, Bool-cases, Exists, List, List-eq, Option, Option-eq, String, String-eq, [], any, ap,
  arith, contains, contains_iff, enum_beq_iff, false, find?, if◌then◌else◌, inl, inr, list_beq_iff,
  map, nat_eq_iff, not, option_beq_iff, refl, some, subst, sym, true, ℕ, ℕ-eq, ◌++◌, ◌+◌, ◌↔◌, ◌∙◌,
  ◌∷◌, ◌≡◌, ◌≢◌,
}
use secure_portfolio_copilot.Agent.PlanState.{
  ◌>>◌, ◌>>=◌, next_version, same_version, first_pending_step, ok, apply_decision,
  validate_next_action, action_fingerprint, PlanState, Json, same_signature, is_pending, same_steps,
  same_step,
}
use secure_portfolio_copilot.Agent.PlanState.Invariant.{
  apply_decision-Applied, validate_iff, Applied,
}
use secure_portfolio_copilot.Agent.Models.{
  Action, DecisionResult, StepStatus-discrete, ActionType-discrete, StepStatus, pending, ActionType,
  Plan, Step,
}

-- the part of a step that its plan's signature has
abbrev pub outline : Step → ℕ × ActionType × Option String × StepStatus
outline step = (step.step_index, step.action_type, step.action_name, step.status)

-- Plans with one signature: the same text and, but for reason codes, the same steps.
pub record SamePlan (p q : Plan) : Type 0 where
  pub text : p.plan_text ≡ q.plan_text
  pub steps : map outline p.steps ≡ map outline q.steps

same_step_iff : (a b : Step) → (same_step a b ≡ true) ↔ (outline a ≡ outline b)
unfolding same_step
same_step_iff a b =
    let types = enum_beq_iff ActionType-discrete a.action_type b.action_type in
    let names = option_beq_iff a.action_name b.action_name in
    let statuses = enum_beq_iff StepStatus-discrete a.status b.status in
    ground (arith, types, names, statuses)

same_steps_iff : (p q : List Step) → (same_steps p q ≡ true) ↔ (map outline p ≡ map outline q)
unfolding same_steps
same_steps_iff [] [] = (λ _. refl, λ _. refl)
same_steps_iff [] (b ∷ q) = (λ h. absurd (cc h), λ h. absurd (cc h))
same_steps_iff (a ∷ p) [] = (λ h. absurd (cc h), λ h. absurd (cc h))
same_steps_iff (a ∷ p) (b ∷ q) =
    let here = same_step_iff a b in let rest = same_steps_iff p q in ground (arith, here, rest)

same_signature_iff : (p q : Plan) → (same_signature p q ≡ true) ↔ SamePlan p q
unfolding same_signature
same_signature_iff p q =
    let lines = (list_beq_iff p.plan_text q.plan_text) in
    let outlines = same_steps_iff p.steps q.steps in
    (
      λ h. record { text = lines.0 (ground (arith, h)); steps = outlines.0 (ground (arith, h)) },
      λ h. ground (arith, lines.1 h.text, outlines.1 h.steps),
    )

-- The step that is next in a list: the first one that is pending.
pub record Next (steps : List Step) (step : Step) : Type 0 where
  pub before : List Step
  pub after : List Step
  pub split : steps ≡ before ++ step ∷ after
  pub past : All (λ (s : Step). s.status ≢ pending) before
  pub waits : step.status ≡ pending

find-Next : (steps : List Step) (step : Step) → find? is_pending steps ≡ some step → Next steps step
find-Next [] step h = cc
find-Next (s ∷ steps) step h = elim (Bool-cases (is_pending s)) [
  | inl e ↦
      let same : s ≡ step = ground (arith, h, e) in
      let waits = (enum_beq_iff StepStatus-discrete s.status pending).0 e in
      subst (Next (s ∷ steps)) same
        (record { before = []; after = steps; split = refl; past = tt; waits = waits })
  | inr e ↦
      let rest = find-Next steps step (ground (arith, h, e)) in
      record {
        before = s ∷ rest.before;
        after = rest.after;
        split = ap (λ l. s ∷ l) rest.split;
        past = (
          λ p.
              let yes = (enum_beq_iff StepStatus-discrete s.status pending).1 p in
              ground (arith, yes, e),
          rest.past,
        );
        waits = rest.waits;
      }
]

skip-past :
    (before after : List Step) (step : Step)
    → All (λ (s : Step). s.status ≢ pending) before
    → step.status ≡ pending
    → find? is_pending (before ++ step ∷ after) ≡ some step
skip-past [] after step past waits =
    rw ((enum_beq_iff StepStatus-discrete step.status pending).1 waits) refl
skip-past (s ∷ before) after step past waits = elim (Bool-cases (is_pending s)) [
  | inl e ↦ absurd (past.0 ((enum_beq_iff StepStatus-discrete s.status pending).0 e))
  | inr e ↦ rw e (skip-past before after step past.1 waits)
]

module _ (digest : List (String × Json) → String) where
  -- An action that a state accepts: its plan's next step has the type and the name of the action,
  -- and no action of that fingerprint has been executed.
  pub record Acceptable (s : PlanState) (a : Action) : Type 0 where
    pub step : Step
    pub is_next : Next s.current_plan.steps step
    pub type : step.action_type ≡ a.type
    pub name : step.action_name ≡ a.action_name
    pub fresh : Exists (λ f. f ≡ action_fingerprint digest a) s.executed_action_fingerprints → ⊥

  validate-Acceptable :
      (s : PlanState) (a : Action) (step : Step)
      → validate_next_action digest s a ≡ ok step
      → Acceptable s a
  validate-Acceptable s a step h =
      let (first, type, name, fresh) = (validate_iff digest s a step).0 h in
      record {
        step = step;
        is_next = find-Next s.current_plan.steps step first;
        type = type;
        name = name;
        fresh = λ known.
            let yes =
              (contains_iff s.executed_action_fingerprints (action_fingerprint digest a)).1 known in
            ground (arith, yes, fresh);
      }

  Acceptable-validate :
      (s : PlanState) (a : Action) (h : Acceptable s a)
      → validate_next_action digest s a ≡ ok h.step
  Acceptable-validate s a h =
      let first : first_pending_step s ≡ some h.step =
        ap (find? is_pending) h.is_next.split
        ∙ skip-past h.is_next.before h.is_next.after h.step h.is_next.past h.is_next.waits in
      let fresh : contains s.executed_action_fingerprints (action_fingerprint digest a) ≡ false =
        elim (Bool-cases (contains s.executed_action_fingerprints (action_fingerprint digest a))) [
          | inl e ↦ absurd (
              h.fresh
                ((contains_iff s.executed_action_fingerprints (action_fingerprint digest a)).0 e))
          | inr e ↦ e
        ] in
      (validate_iff digest s a h.step).1 (first, h.type, h.name, fresh)

-- A decision that replaces the plan by its next version, all of whose steps are pending.
pub record Revised (s : PlanState) (d : DecisionResult) (t : PlanState) : Type 0 where
  pub differs : SamePlan d.plan s.current_plan → ⊥
  pub version : d.plan.version ≡ s.current_plan.version + 1
  pub waiting : All (λ (step : Step). step.status ≡ pending) d.plan.steps
  pub result : t ≡ record {
    current_plan = d.plan;
    versions = s.versions ++ d.plan ∷ [];
    completed_history = s.completed_history;
    executed_action_fingerprints = s.executed_action_fingerprints;
  }

-- A decision that keeps the plan.
pub record Kept (s : PlanState) (d : DecisionResult) (t : PlanState) : Type 0 where
  pub same : SamePlan d.plan s.current_plan
  pub version : d.plan.version ≡ s.current_plan.version
  pub no_replan : d.replan ≡ false
  pub result : t ≡ s

all_pending_iff :
    (steps : List Step)
    → (any (λ step. not (is_pending step)) steps ≡ false)
      ↔ All (λ (step : Step). step.status ≡ pending) steps
all_pending_iff [] = ground arith
all_pending_iff (s ∷ steps) =
    let this = enum_beq_iff StepStatus-discrete s.status pending in
    let rest = all_pending_iff steps in
    (
      λ h. (this.0 (ground (arith, h)), rest.0 (ground (arith, h))),
      λ h. ground (arith, this.1 h.0, rest.1 h.1),
    )

module _ (digest : List (String × Json) → String) (s : PlanState) (d : DecisionResult)
    (t : PlanState) where
  -- What a decision does, and whether it has changed the plan.
  abbrev pub Decided : Bool → Type 0
  Decided true = Revised s d t
  Decided false = Kept s d t

  Applied-Decided : (changed : Bool) → Applied digest s d t changed → Decided changed
  Applied-Decided true h =
      let (result, version, waiting) = h.replaced refl in
      record {
        differs = λ same.
            let yes = (same_signature_iff d.plan s.current_plan).1 same in
            ground (arith, yes, h.signed);
        version = version;
        waiting = (all_pending_iff d.plan.steps).0 waiting;
        result = result;
      }
  Applied-Decided false h =
      let (result, version, no_replan) = h.kept refl in
      record {
        same = (same_signature_iff d.plan s.current_plan).0 (ground (arith, h.signed));
        version = version;
        no_replan = no_replan;
        result = result;
      }

  -- `apply_decision`, once the signatures are compared
  apply_decision-by :
      (same : Bool)
      → same_signature d.plan s.current_plan ≡ same
      → apply_decision digest s d ≡ (
          (if not same then next_version digest s d else same_version digest s d)
          >>= λ (r : PlanState × Bool). validate_next_action digest r.0 d.next_action >> ok r)
  unfolding apply_decision
  apply_decision-by same e =
      subst
        (λ b. apply_decision digest s d ≡ (
          (if not b then next_version digest s d else same_version digest s d)
          >>= λ (r : PlanState × Bool). validate_next_action digest r.0 d.next_action >> ok r))
        e refl

  Revised-next_version : Revised s d t → next_version digest s d ≡ ok (t, true)
  Revised-next_version h =
      let version = (nat_eq_iff d.plan.version (s.current_plan.version + 1)).1 h.version in
      rw (version, (all_pending_iff d.plan.steps).1 h.waiting)
        (ap (λ n. ok (n, true)) (sym h.result))

  Kept-same_version : Kept s d t → same_version digest s d ≡ ok (t, false)
  Kept-same_version h =
      let version = (nat_eq_iff d.plan.version s.current_plan.version).1 h.version in
      rw (version, h.no_replan) (ap (λ n. ok (n, false)) (sym h.result))

  Decided-applied :
      (changed : Bool)
      → Decided changed
      → Acceptable digest t d.next_action
      → apply_decision digest s d ≡ ok (t, changed)
  Decided-applied true h able =
      let differs : same_signature d.plan s.current_plan ≡ false =
        elim (Bool-cases (same_signature d.plan s.current_plan)) [
          | inl e ↦ absurd (h.differs ((same_signature_iff d.plan s.current_plan).0 e))
          | inr e ↦ e
        ] in
      let accepted = Acceptable-validate digest t d.next_action able in
      apply_decision-by false differs ∙ rw (Revised-next_version h, accepted) refl
  Decided-applied false h able =
      let same = (same_signature_iff d.plan s.current_plan).1 h.same in
      let accepted = Acceptable-validate digest t d.next_action able in
      apply_decision-by true same ∙ rw (Kept-same_version h, accepted) refl

-- A decision is accepted, with this state and this word on whether the plan has changed, exactly
-- if its action is acceptable in the state - the first pending step of the current plan has the
-- action's type and name, and no action of that fingerprint has been executed - and: if it has
-- changed, the decision's plan has another text or other steps than the current one (reason codes
-- aside), has the next version and only pending steps, and in the state it is the current plan and
-- the last of the versions, and what is completed and executed is as it was; if it has not, the
-- decision's plan has the text, the steps and the version of the current one, claims no replan, and
-- the state is as it was.
pub apply_decision_iff :
    (digest : List (String × Json) → String) (s : PlanState) (d : DecisionResult) (t : PlanState)
    (changed : Bool)
    → (apply_decision digest s d ≡ ok (t, changed))
      ↔ (Decided digest s d t changed × Acceptable digest t d.next_action)
apply_decision_iff digest s d t changed = (
  λ h.
      let applied = apply_decision-Applied digest s d t changed h in
      let (step, accepted) = applied.accepted in
      (
        Applied-Decided digest s d t changed applied,
        validate-Acceptable digest t d.next_action step accepted,
      ),
  λ (decided, able). Decided-applied digest s d t changed decided able,
)
