-- ===== src/Memory/Tests.antt =====
-- memory/policy.py: memories with sources of the finance department.
use secure_portfolio_copilot.Base.{
  Exists, List-eq, Option-eq, String-eq, [], inl, inr, refl, ℕ-eq, ◌↔◌, ◌∷◌, ◌≡◌,
}
use secure_portfolio_copilot.Memory.{
  MemoryScope-discrete, private_user, finance_scope, SourceAcl, derive_memory_acl, mixed_sources,
  shared_acl,
}
use secure_portfolio_copilot.Memory.Inheritance.{
  Inherits, derive_memory_acl_iff, derive_memory_acl_members,
}

abbrev finance_acl : SourceAcl
finance_acl = record {
  department = "finance";
  visibility = "DEPARTMENT_PRIVATE";
  classification = "FINANCE_ONLY";
}

finance_memory :
    derive_memory_acl finance_scope (finance_acl ∷ [])
    ≡ inr (record { scope = finance_scope; source = finance_acl })
unfolding derive_memory_acl MemoryScope-discrete
finance_memory = refl

mixed_memory : derive_memory_acl private_user (finance_acl ∷ shared_acl ∷ []) ≡ inl mixed_sources
unfolding derive_memory_acl
mixed_memory = refl

derive_memory_acl_iff_example :
    (derive_memory_acl finance_scope (finance_acl ∷ [])
      ≡ inr (record { scope = finance_scope; source = finance_acl }))
    ↔ Inherits finance_scope
        (finance_acl ∷ [])
        (record { scope = finance_scope; source = finance_acl })
derive_memory_acl_iff_example =
    derive_memory_acl_iff finance_scope (finance_acl ∷ [])
      (record { scope = finance_scope; source = finance_acl })

twice :
    (x : SourceAcl)
    → Exists (λ y. y ≡ x) (finance_acl ∷ []) ↔ Exists (λ y. y ≡ x) (finance_acl ∷ finance_acl ∷ [])
twice x = (λ m. inr m, λ m. elim m [ inl e ↦ inl e | inr n ↦ n ])

derive_memory_acl_members_example :
    derive_memory_acl finance_scope (finance_acl ∷ finance_acl ∷ [])
    ≡ inr (record { scope = finance_scope; source = finance_acl })
derive_memory_acl_members_example =
    derive_memory_acl_members finance_scope (finance_acl ∷ []) (finance_acl ∷ finance_acl ∷ [])
      (record { scope = finance_scope; source = finance_acl }) twice finance_memory
