-- ===== src/Approval/Binding.antt =====
-- agent/approval_service.py: the home tenant of a caller and the newest version of a plan, in words.
use secure_portfolio_copilot.Base.{
  All, Bool, Bool-cases, Exists, List, List-eq, Option-cases, Option-eq, String-eq, [], all, ap,
  arith, false, inl, inr, is_empty, leb, max, refl, some, subst, sym, true, ℕ, ℕ-eq, ◌&&◌, ◌==◌,
  ◌↔◌, ◌∙◌, ◌∷◌, ◌≡◌, ◌≤◌,
}
use secure_portfolio_copilot.Approval.Rows.{single, AgentPlanVersion}
use secure_portfolio_copilot.Approval.Service.{latest_version}
use secure_portfolio_copilot.Agent.Loop.Types.{ObservationStatus-eq}

pub and_iff : (a b : Bool) → ((a && b) ≡ true) ↔ ((a ≡ true) × (b ≡ true))
and_iff true b = (λ h. (refl, h), λ h. h.1)
and_iff false b = (λ h. absurd (cc h), λ h. absurd (cc h.0))

pub and-all : {a b : Bool} → a ≡ true → b ≡ true → (a && b) ≡ true
and-all {a} {b} h k = (and_iff a b).1 (h, k)

all_iff :
    (ids : List ℕ) (id : ℕ)
    → (all (λ other. other == id) ids ≡ true) ↔ All (λ other. other ≡ id) ids
all_iff [] id = ground arith
all_iff (other ∷ ids) id = (
  λ h. (ground arith, (all_iff ids id).0 (ground arith)),
  λ h. ground (arith, h.0, (all_iff ids id).1 h.1),
)

pub single_iff :
    (ids : List ℕ) (t : ℕ)
    → (single ids ≡ some t) ↔ ((is_empty ids ≡ false) × All (λ id. id ≡ t) ids)
unfolding single
single_iff [] t = ground arith
single_iff (id ∷ ids) t = elim (Bool-cases (all (λ other. other == id) ids)) [
  | inl e ↦ rw e (
    (λ h.
        let same : id ≡ t = ground arith in
        (refl, (same, subst (λ x. All (λ other. other ≡ x) ids) same ((all_iff ids id).0 e)))),
    λ h. ap some h.1.0,
  )
  | inr e ↦ rw e (
    (λ h. absurd (cc h)),
    λ h.
        let every = subst (λ x. All (λ other. other ≡ x) ids) (sym h.1.0) h.1.1 in
        absurd (ground (arith, (all_iff ids id).1 every, e)),
  )
]

-- The newest version of the plans that are stored.
pub record Newest (version : ℕ) (plans : List AgentPlanVersion) : Type 0 where
  pub stored : Exists (λ (p : AgentPlanVersion). p.version ≡ version) plans
  pub newest : All (λ (p : AgentPlanVersion). p.version ≤ version) plans

latest_version-some :
    (p : AgentPlanVersion) (plans : List AgentPlanVersion)
    → (n : ℕ) × (latest_version (p ∷ plans) ≡ some n)
unfolding latest_version
latest_version-some p plans = elim (Option-cases (latest_version plans)) [
  | inl e ↦ rw e (p.version, refl)
  | inr (n, e) ↦ rw e (max p.version n, refl)
]

All-weaken :
    (a b : ℕ) (plans : List AgentPlanVersion)
    → a ≤ b
    → All (λ (p : AgentPlanVersion). p.version ≤ a) plans
    → All (λ (p : AgentPlanVersion). p.version ≤ b) plans
All-weaken a b [] h all = tt
All-weaken a b (p ∷ plans) h all = (omega (arith, h, all.0), All-weaken a b plans h all.1)

Newest-cons :
    (p : AgentPlanVersion) (n : ℕ) (plans : List AgentPlanVersion)
    → Newest n plans
    → Newest (max p.version n) (p ∷ plans)
Newest-cons p n plans h = elim (Bool-cases (leb p.version n)) [
  | inl e ↦
      let same : max p.version n ≡ n = ground (arith, e) in
      subst (λ m. Newest m (p ∷ plans)) (sym same)
        (record { stored = inr h.stored; newest = (ground (arith, e), h.newest) })
  | inr e ↦
      let same : max p.version n ≡ p.version = ground (arith, e) in
      subst (λ m. Newest m (p ∷ plans)) (sym same)
        (record {
          stored = inl refl;
          newest = (omega arith, All-weaken n p.version plans (ground (arith, e)) h.newest);
        })
]

pub Newest-latest_version :
    (version : ℕ) (plans : List AgentPlanVersion)
    → latest_version plans ≡ some version
    → Newest version plans
unfolding latest_version
Newest-latest_version version [] h = cc
Newest-latest_version version (p ∷ []) h = record {
  stored = inl (ground (arith, h));
  newest = (ground (arith, h), tt);
}
Newest-latest_version version (p ∷ q ∷ plans) h =
    let (n, e) = latest_version-some q plans in
    let same : max p.version n ≡ version = ground (arith, h, e) in
    subst (λ m. Newest m (p ∷ q ∷ plans)) same
      (Newest-cons p n (q ∷ plans) (Newest-latest_version n (q ∷ plans) e))

stored-below :
    (a b : ℕ) (plans : List AgentPlanVersion)
    → Exists (λ (p : AgentPlanVersion). p.version ≡ a) plans
    → All (λ (p : AgentPlanVersion). p.version ≤ b) plans
    → a ≤ b
stored-below a b [] h all = absurd h
stored-below a b (p ∷ plans) (inl h) all = omega (arith, h, all.0)
stored-below a b (p ∷ plans) (inr h) all = stored-below a b plans h all.1

pub latest_version-Newest :
    (version : ℕ) (plans : List AgentPlanVersion)
    → Newest version plans
    → latest_version plans ≡ some version
latest_version-Newest version [] h = absurd h.stored
latest_version-Newest version (p ∷ plans) h =
    let (n, e) = latest_version-some p plans in
    let other = Newest-latest_version n (p ∷ plans) e in
    let same : n ≡ version = omega (
      arith,
      stored-below n version (p ∷ plans) other.stored h.newest,
      stored-below version n (p ∷ plans) h.stored other.newest,
    ) in
    e ∙ ap some same
