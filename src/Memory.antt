-- ===== src/Memory.antt =====
-- backend/app/memory/policy.py: the access list that a memory inherits from its sources.
pub mod Inheritance
mod Tests
use secure_portfolio_copilot.Base.{
  Bool, Eq, List, List-eq, Option, Option-eq, String, String-eq, [], all, enum_eq, false,
  if◌then◌else◌, inl, inr, none, not, some, ℕ-eq, ◌&&◌, ◌==◌, ◌∷◌, ◌⊎◌,
}

-- models/memory.py
pub data MemoryScope : Type 0 where
  private_user finance_scope legal_scope shared_scope : MemoryScope

unfoldable pub MemoryScope-discrete : Discrete MemoryScope
MemoryScope-discrete = hlevel

instance abbrev pub MemoryScope-eq : Eq MemoryScope
MemoryScope-eq = enum_eq MemoryScope-discrete

-- department, visibility and classification of a source
pub record SourceAcl : Type 0 where
  pub department : String
  pub visibility : String
  pub classification : String

pub record EffectiveMemoryAcl : Type 0 where
  pub scope : MemoryScope
  pub source : SourceAcl

pub data MemoryPolicyError : Type 0 where
  source_free_not_private mixed_sources invalid_restriction scope_changed : MemoryPolicyError

abbrev pub shared_acl : SourceAcl
shared_acl = record {
  department = "shared";
  visibility = "TENANT_SHARED";
  classification = "TENANT_SHARED";
}

-- `_ACL_BY_DEPARTMENT.get(department)`
unfoldable pub acl_by_department : String → Option SourceAcl
acl_by_department department =
    if department == "finance"
    then some (record {
      department = department;
      visibility = "DEPARTMENT_PRIVATE";
      classification = "FINANCE_ONLY";
    })
    else if department == "legal"
    then some (record {
      department = department;
      visibility = "DEPARTMENT_PRIVATE";
      classification = "LEGAL_ONLY_CONFIDENTIAL";
    })
    else if department == "shared"
    then some (record {
      department = department;
      visibility = "TENANT_SHARED";
      classification = "TENANT_SHARED";
    })
    else none

-- `_SCOPE_BY_DEPARTMENT[department]`, for a department that has passed the check before
unfoldable pub scope_by_department : String → MemoryScope
scope_by_department department =
    if department == "finance"
    then finance_scope
    else if department == "legal"
    then legal_scope
    else shared_scope

abbrev pub same_acl : SourceAcl → SourceAcl → Bool
same_acl a b =
    (a.department == b.department)
    && ((a.visibility == b.visibility) && (a.classification == b.classification))

abbrev pub is_valid : Option SourceAcl → SourceAcl → Bool
is_valid none acl = false
is_valid (some expected) acl = same_acl expected acl

-- `derive_memory_acl`
unfoldable pub derive_memory_acl :
    MemoryScope → List SourceAcl → MemoryPolicyError ⊎ EffectiveMemoryAcl
unfolding acl_by_department scope_by_department
derive_memory_acl requested_scope [] =
    if not (requested_scope == private_user)
    then inl source_free_not_private
    else inr (record { scope = requested_scope; source = shared_acl })
derive_memory_acl requested_scope (acl ∷ acls) =
    if not (all (same_acl acl) acls)
    then inl mixed_sources
    else if not (is_valid (acl_by_department acl.department) acl)
    then inl invalid_restriction
    else if not (requested_scope == private_user)
        && not (requested_scope == scope_by_department acl.department)
    then inl scope_changed
    else inr (record { scope = requested_scope; source = acl })
