-- ===== src/Approval/Ledger.antt =====
-- agent/approval_service.py: the approvals of one run, under updates by id and additions.
use secure_portfolio_copilot.Base.{
  All, Bool, Bool-cases, List, List-eq, Option-eq, String-eq, [], arith, false, filter, inl, inr,
  is_some, length, nat_eq_iff, none, not, refl, some, subst, suc, true, ℕ, ℕ-eq, ◌++◌, ◌==◌, ◌∙◌,
  ◌∷◌, ◌≡◌,
}
use secure_portfolio_copilot.Approval.Operations.{pending_of}
use secure_portfolio_copilot.Approval.Rows.{
  AgentApprovalRequest, ApprovalStatus, ApprovalStatus-eq, approval_of, put_approval,
}

-- No two approvals have the same id.
abbrev pub DistinctIds : List AgentApprovalRequest → Type 0
DistinctIds [] = Unit
DistinctIds (a ∷ approvals) = (approval_of a.id approvals ≡ none) × DistinctIds approvals

abbrev pub is_pending : AgentApprovalRequest → Bool
is_pending a = a.status == ApprovalStatus.pending

abbrev pub pending_count : List AgentApprovalRequest → ℕ
pending_count approvals = length (filter is_pending approvals)

-- The times of an approval agree with its status.
pub record Stamped (a : AgentApprovalRequest) : Type 0 where
  pub settled : is_some a.resolved_at ≡ not (is_pending a)
  pub used : is_some a.consumed_at ≡ (a.status == ApprovalStatus.consumed)

module _ (row : AgentApprovalRequest) where
  pub approval_of-put_other :
      (id : ℕ) (approvals : List AgentApprovalRequest)
      → (row.id == id) ≡ false
      → approval_of id (put_approval row approvals) ≡ approval_of id approvals
  unfolding put_approval
  approval_of-put_other id [] other = refl
  approval_of-put_other id (a ∷ approvals) other =
      ground (arith, approval_of-put_other id approvals other)

  pub approval_of-put_same :
      (a : AgentApprovalRequest) (approvals : List AgentApprovalRequest)
      → approval_of row.id approvals ≡ some a
      → approval_of row.id (put_approval row approvals) ≡ some row
  unfolding put_approval
  approval_of-put_same a [] found = cc
  approval_of-put_same a (b ∷ approvals) found = ground (arith, approval_of-put_same a approvals)

  pub DistinctIds-put :
      (approvals : List AgentApprovalRequest)
      → DistinctIds approvals
      → DistinctIds (put_approval row approvals)
  unfolding put_approval
  DistinctIds-put [] distinct = tt
  DistinctIds-put (a ∷ approvals) (fresh, distinct) = elim (Bool-cases (a.id == row.id)) [
    | inl e ↦
        let same : a.id ≡ row.id = ground (arith, nat_eq_iff a.id row.id) in
        rw e (subst (λ id. approval_of id approvals ≡ none) same fresh, distinct)
    | inr e ↦
        let other : (row.id == a.id) ≡ false = ground (arith, nat_eq_iff row.id a.id) in
        rw e
          (approval_of-put_other a.id approvals other ∙ fresh, DistinctIds-put approvals distinct)
  ]

  pub pending_count-put :
      (a : AgentApprovalRequest) (approvals : List AgentApprovalRequest)
      → approval_of row.id approvals ≡ some a
      → is_pending a ≡ true
      → is_pending row ≡ false
      → pending_count approvals ≡ suc (pending_count (put_approval row approvals))
  unfolding put_approval
  pending_count-put a [] found was now = cc
  pending_count-put a (b ∷ approvals) found was now = elim (Bool-cases (b.id == row.id)) [
    | inl e ↦ ground arith
    | inr e ↦ ground (arith, pending_count-put a approvals)
  ]

pub pending_count-append :
    (approvals : List AgentApprovalRequest) (a : AgentApprovalRequest)
    → is_pending a ≡ true
    → pending_count (approvals ++ a ∷ []) ≡ suc (pending_count approvals)
pending_count-append [] a now = ground arith
pending_count-append (b ∷ approvals) a now = ground (arith, pending_count-append approvals a now)

pub approval_of-append :
    (id : ℕ) (a b : AgentApprovalRequest) (approvals : List AgentApprovalRequest)
    → approval_of id approvals ≡ some a
    → approval_of id (approvals ++ b ∷ []) ≡ some a
approval_of-append id a b [] found = cc
approval_of-append id a b (c ∷ approvals) found =
    ground (arith, approval_of-append id a b approvals)

approval_of-append_none :
    (id : ℕ) (b : AgentApprovalRequest) (approvals : List AgentApprovalRequest)
    → approval_of id approvals ≡ none
    → (b.id == id) ≡ false
    → approval_of id (approvals ++ b ∷ []) ≡ none
approval_of-append_none id b [] found other = ground arith
approval_of-append_none id b (c ∷ approvals) found other =
    ground (arith, approval_of-append_none id b approvals)

pub approval_of-append_new :
    (b : AgentApprovalRequest) (approvals : List AgentApprovalRequest)
    → approval_of b.id approvals ≡ none
    → approval_of b.id (approvals ++ b ∷ []) ≡ some b
approval_of-append_new b [] found = ground (arith, nat_eq_iff b.id b.id)
approval_of-append_new b (c ∷ approvals) found = ground (arith, approval_of-append_new b approvals)

pub DistinctIds-append :
    (approvals : List AgentApprovalRequest) (b : AgentApprovalRequest)
    → approval_of b.id approvals ≡ none
    → DistinctIds approvals
    → DistinctIds (approvals ++ b ∷ [])
DistinctIds-append [] b new distinct = (refl, tt)
DistinctIds-append (a ∷ approvals) b new (fresh, distinct) = elim (Bool-cases (a.id == b.id)) [
  | inl e ↦ absurd (ground arith)
  | inr e ↦
      let other : (b.id == a.id) ≡ false =
        ground (arith, nat_eq_iff a.id b.id, nat_eq_iff b.id a.id) in
      (
        approval_of-append_none a.id b approvals fresh other,
        DistinctIds-append approvals b (ground arith) distinct,
      )
]

-- The approval that is found by its status is the one that is found by its id.
pub pending_of-found :
    (approvals : List AgentApprovalRequest) (a : AgentApprovalRequest)
    → DistinctIds approvals
    → pending_of approvals ≡ some a
    → (approval_of a.id approvals ≡ some a) × (is_pending a ≡ true)
pending_of-found [] a distinct found = cc
pending_of-found (b ∷ approvals) a (fresh, distinct) found = elim (Bool-cases (is_pending b)) [
  | inl e ↦
      let same : b ≡ a = ground arith in
      (ground (arith, nat_eq_iff b.id a.id, same), subst (λ c. is_pending c ≡ true) same e)
  | inr e ↦
      let (found_later, now) = pending_of-found approvals a distinct (ground arith) in
      elim (Bool-cases (b.id == a.id)) [
        | inl same ↦
            let ids : b.id ≡ a.id = ground (arith, nat_eq_iff b.id a.id) in
            absurd (ground (arith, found_later, fresh, ids))
        | inr other ↦ (ground arith, now)
      ]
]

pub pending_of-none :
    (approvals : List AgentApprovalRequest)
    → pending_of approvals ≡ none
    → pending_count approvals ≡ 0
pending_of-none [] h = refl
pending_of-none (a ∷ approvals) h = ground (arith, pending_of-none approvals)

pub Stamped-put :
    (row : AgentApprovalRequest) (approvals : List AgentApprovalRequest)
    → Stamped row
    → All Stamped approvals
    → All Stamped (put_approval row approvals)
unfolding put_approval
Stamped-put row [] stamp stamps = tt
Stamped-put row (a ∷ approvals) stamp (first, stamps) = elim (Bool-cases (a.id == row.id)) [
  | inl e ↦ rw e (stamp, stamps)
  | inr e ↦ rw e (first, Stamped-put row approvals stamp stamps)
]

pub All-append :
    (P : AgentApprovalRequest → Type 0) (xs : List AgentApprovalRequest) (y : AgentApprovalRequest)
    → All P xs
    → P y
    → All P (xs ++ y ∷ [])
All-append P [] y h k = (k, tt)
All-append P (x ∷ xs) y (h, hs) k = (h, All-append P xs y hs k)

pub Stamped-found :
    (id : ℕ) (approvals : List AgentApprovalRequest) (a : AgentApprovalRequest)
    → All Stamped approvals
    → approval_of id approvals ≡ some a
    → Stamped a
Stamped-found id [] a stamps found = cc
Stamped-found id (b ∷ approvals) a (stamp, stamps) found = elim (Bool-cases (b.id == id)) [
  | inl e ↦ let same : b ≡ a = ground arith in subst Stamped same stamp
  | inr e ↦ Stamped-found id approvals a stamps (ground arith)
]
