-- ===== src/Policy/Reasons.antt =====
-- policies/engine.py: what the reason code of a decision says.
use secure_portfolio_copilot.Base.{
  Bool, List, Option, Option-eq, String, String-eq, [], any, arith, contains, false, filter,
  if◌then◌else◌, is_empty, is_empty-filter, none, some, true, ℕ, ℕ-eq, ◌==◌, ◌↔◌, ◌∷◌, ◌≡◌,
}
use secure_portfolio_copilot.Policy.{
  PolicyReason, allow_tenant_department, allow_tenant_shared, allow_explicit_cross_department,
  allow_admin_upload, allow_platform_admin, deny_workspace, deny_capability, PolicyDecision,
  AuthorizationGrant, AuthorizationScope, PolicyRequest, first_department, authorize_department,
  authorize_company, authorize_capable, authorize, Capability-eq, source_reason, GrantSource,
}

abbrev pub is_allow : PolicyReason → Bool
is_allow allow_tenant_department = true
is_allow allow_tenant_shared = true
is_allow allow_explicit_cross_department = true
is_allow allow_admin_upload = true
is_allow allow_platform_admin = true
is_allow _ = false

-- How far a request came: past the workspace, past the capability.
abbrev progress : PolicyReason → ℕ
progress deny_workspace = 0
progress deny_capability = 1
progress _ = 2

record IsCoherent (request : PolicyRequest) (n : ℕ) (d : PolicyDecision) : Type 0 where
  answer : d.allowed ≡ is_allow d.reason_code
  echo : d.capability ≡ request.capability
  reached : progress d.reason_code ≡ n

source_reason-allows :
    (s : GrantSource) → (is_allow (source_reason s) ≡ true) × (progress (source_reason s) ≡ 2)
source_reason-allows s = ground arith

module _ (request : PolicyRequest) where
  first_department-IsCoherent :
      (department : String) (grants : List AuthorizationGrant)
      → IsCoherent request 2 (first_department request department grants)
  unfolding first_department
  first_department-IsCoherent department [] = ground arith
  first_department-IsCoherent department (grant ∷ grants) =
      ground (arith, first_department-IsCoherent department grants)

  authorize_department-IsCoherent :
      (department : Option String) (grants : List AuthorizationGrant)
      → IsCoherent request 2 (authorize_department request department grants)
  unfolding authorize_department
  authorize_department-IsCoherent none grants = ground arith
  authorize_department-IsCoherent (some department) grants =
      ground (arith, first_department-IsCoherent department grants)

  authorize_company-IsCoherent :
      (company : Option ℕ) (grants : List AuthorizationGrant)
      → IsCoherent request 2 (authorize_company request company grants)
  unfolding authorize_company
  authorize_company-IsCoherent none grants = ground arith
  authorize_company-IsCoherent (some company) grants = ground (
    arith,
    authorize_department-IsCoherent request.department
        (filter (λ (grant : AuthorizationGrant). contains grant.company_ids company) grants),
  )

  authorize_capable-IsCoherent :
      (grants : List AuthorizationGrant)
      → IsCoherent request (if is_empty grants then 1 else 2) (authorize_capable request grants)
  unfolding authorize_capable
  authorize_capable-IsCoherent grants =
      ground (arith, authorize_company-IsCoherent request.company_id grants)

  abbrev pub in_workspace : AuthorizationGrant → Bool
  in_workspace grant = grant.workspace_id == request.workspace_id

  abbrev pub is_capable : AuthorizationGrant → Bool
  is_capable grant = contains grant.capabilities request.capability

  -- The decision allows exactly when its reason is one of the ALLOW reasons, and names the
  -- capability asked for. The reason is DENY_WORKSPACE exactly when no grant is of the workspace,
  -- and DENY_CAPABILITY exactly when some grant is and none of those lists the capability.
  pub authorize_reasons :
      (scope : AuthorizationScope)
      → let d = authorize scope request in
        (d.allowed ≡ is_allow d.reason_code)
        × (d.capability ≡ request.capability)
        × ((d.reason_code ≡ deny_workspace) ↔ (any in_workspace scope.grants ≡ false))
        × ((d.reason_code ≡ deny_capability) ↔ (
            (any in_workspace scope.grants ≡ true)
            × (any is_capable (filter in_workspace scope.grants) ≡ false)))
  unfolding authorize
  authorize_reasons scope =
      let stage = filter in_workspace scope.grants in
      ground (
        arith,
        authorize_capable-IsCoherent (filter is_capable stage),
        is_empty-filter in_workspace scope.grants,
        is_empty-filter is_capable stage,
      )
