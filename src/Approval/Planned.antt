-- ===== src/Approval/Planned.antt =====
-- agent/history_repository.py and agent/approval_repository.py: once a history is persisted, no plan
-- of it is missing.
use secure_portfolio_copilot.Base.{
  Bool-cases, List, List-eq, Option, Option-cases, Option-eq, String-eq, [], ap, arith, inl, inr,
  is_some, nat_eq_iff, none, refl, some, subst, true, ℕ, ℕ-eq, ◌++◌, ◌==◌, ◌∷◌, ◌≡◌,
}
use secure_portfolio_copilot.Approval.Recorder.{plan_row, plan_record, record_plan, record_plans}
use secure_portfolio_copilot.Approval.Rows.{AgentPlanVersion}
use secure_portfolio_copilot.Approval.Runner.{missing_plans}
use secure_portfolio_copilot.Agent.Models.{Plan}

abbrev Known : ℕ → List AgentPlanVersion → Type 0
Known n rows = is_some (plan_record n rows) ≡ true

Known-append : (n : ℕ) (rows new : List AgentPlanVersion) → Known n rows → Known n (rows ++ new)
Known-append n [] new h = absurd (cc h)
Known-append n (r ∷ rows) new h = elim (Bool-cases (r.version == n)) [
  | inl e ↦ rw e refl
  | inr e ↦ rw e (Known-append n rows new (ground (arith, h, e)))
]

Known-new : (rows : List AgentPlanVersion) (r : AgentPlanVersion) → Known r.version (rows ++ r ∷ [])
Known-new [] r = rw ((nat_eq_iff r.version r.version).1 refl) refl
Known-new (x ∷ rows) r = elim (Bool-cases (x.version == r.version)) [
  | inl e ↦ rw e refl
  | inr e ↦ rw e (Known-new rows r)
]

-- Recording a plan forgets no version, and knows its own.
record_plan-Known :
    (rows out : List AgentPlanVersion) (plan : Plan)
    → record_plan rows plan (plan_record plan.version rows) ≡ some out
    → ((n : ℕ) → Known n rows → Known n out) × Known plan.version out
unfolding record_plan
record_plan-Known rows out plan h = elim (Option-cases (plan_record plan.version rows)) [
  | inl e ↦
      let new : rows ++ plan_row plan ∷ [] ≡ out = ground (arith, h, e) in
      subst (λ o. ((n : ℕ) → Known n rows → Known n o) × Known plan.version o) new
        (λ n. Known-append n rows (plan_row plan ∷ []), Known-new rows (plan_row plan))
  | inr (r, e) ↦
      let same : rows ≡ out = ground (arith, h, e) in
      subst (λ o. ((n : ℕ) → Known n rows → Known n o) × Known plan.version o) same
        (λ n known. known, ap is_some e)
]

record_plans-Known :
    (n : ℕ) (plans : List Plan) (rows : Option (List AgentPlanVersion))
    (out : List AgentPlanVersion)
    → ((r : List AgentPlanVersion) → rows ≡ some r → Known n r)
    → record_plans rows plans ≡ some out
    → Known n out
unfolding record_plans
record_plans-Known n plans none out known h = cc
record_plans-Known n [] (some rows) out known h = known out h
record_plans-Known n (plan ∷ plans) (some rows) out known h =
    record_plans-Known n plans (record_plan rows plan (plan_record plan.version rows)) out
      (λ r e. (record_plan-Known rows r plan e).0 n (known rows refl)) h

pub missing_plans-recorded :
    (plans : List Plan) (rows : Option (List AgentPlanVersion)) (out : List AgentPlanVersion)
    → record_plans rows plans ≡ some out
    → missing_plans out plans ≡ []
unfolding record_plans missing_plans
missing_plans-recorded plans none out h = cc
missing_plans-recorded [] (some rows) out h = refl
missing_plans-recorded (plan ∷ plans) (some rows) out h =
    let next = record_plan rows plan (plan_record plan.version rows) in
    let known =
      record_plans-Known plan.version plans next out (λ r e. (record_plan-Known rows r plan e).1)
        h in
    rw known (missing_plans-recorded plans next out h)
