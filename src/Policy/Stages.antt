-- ===== src/Policy/Stages.antt =====
-- policies/engine.py: each stage of `authorize` answers whether one of its grants permits.
use secure_portfolio_copilot.Base.{
  Bool, Bool-cases, List, Option, Option-eq, String, String-eq, [], any, any-and, any-false,
  any-filter, any-is_empty, arith, contains, false, filter, if◌then◌else◌, inl, inr, is_some-find?,
  none, refl, some, sym, true, ℕ, ℕ-eq, ◌&&◌, ◌==◌, ◌∙◌, ◌∷◌, ◌≡◌,
}
use secure_portfolio_copilot.Policy.{
  Capability-eq, query_documents, manage_uploads, administer_platform, DepartmentAccess,
  AuthorizationGrant, AuthorizationScope, PolicyRequest, first_department, authorize_department,
  authorize_company, authorize_capable, authorize, is_admin, decision, deny_default,
}

module _ (request : PolicyRequest) where
  abbrev department_test : String → AuthorizationGrant → Bool
  department_test department grant =
      any (λ (item : DepartmentAccess). item.key == department) grant.departments

  abbrev department_stage : Option String → AuthorizationGrant → Bool
  department_stage none grant = false
  department_stage (some department) grant =
      (request.capability == query_documents) && department_test department grant

  abbrev company_stage : Option ℕ → AuthorizationGrant → Bool
  company_stage none grant = false
  company_stage (some company_id) grant =
      contains grant.company_ids company_id
      && (if request.capability == manage_uploads
          then is_admin grant
          else department_stage request.department grant)

  abbrev capable_stage : AuthorizationGrant → Bool
  capable_stage grant =
      if request.capability == administer_platform
      then is_admin grant
      else company_stage request.company_id grant

  -- The whole test that a grant must pass.
  abbrev pub permits : AuthorizationGrant → Bool
  permits grant =
      (grant.workspace_id == request.workspace_id)
      && (contains grant.capabilities request.capability && capable_stage grant)

  first_department-any :
      (department : String) (grants : List AuthorizationGrant)
      → (first_department request department grants).allowed
        ≡ any (department_test department) grants
  unfolding first_department
  first_department-any department [] = refl
  first_department-any department (grant ∷ grants) = ground (
    arith,
    first_department-any department grants,
    is_some-find? (λ (item : DepartmentAccess). item.key == department) grant.departments,
  )

  first_department-step :
      (b : Bool) (department : String) (grants : List AuthorizationGrant)
      → (if b
          then first_department request department grants
          else decision request false deny_default).allowed
        ≡ (b && any (department_test department) grants)
  first_department-step true department grants = first_department-any department grants
  first_department-step false department grants = refl

  authorize_department-any :
      (department : Option String) (grants : List AuthorizationGrant)
      → (authorize_department request department grants).allowed
        ≡ any (department_stage department) grants
  unfolding authorize_department
  authorize_department-any none grants = sym (any-false grants)
  authorize_department-any (some department) grants =
      first_department-step (request.capability == query_documents) department grants
      ∙ sym (any-and (request.capability == query_documents) (department_test department) grants)

  authorize_company-any :
      (company_id : Option ℕ) (grants : List AuthorizationGrant)
      → (authorize_company request company_id grants).allowed
        ≡ any (company_stage company_id) grants
  unfolding authorize_company
  authorize_company-any none grants = sym (any-false grants)
  authorize_company-any (some company_id) grants =
      let q = λ (grant : AuthorizationGrant). contains grant.company_ids company_id in
      let stage = filter q grants in
      elim (Bool-cases (request.capability == manage_uploads)) [
        | inl e ↦ simp e (ground (arith, any-is_empty is_admin stage, any-filter is_admin q grants))
        | inr e ↦ simp e (
            ground (
              arith,
              authorize_department-any request.department stage,
              any-is_empty (department_stage request.department) stage,
              any-filter (department_stage request.department) q grants,
            ))
      ]

  authorize_capable-any :
      (grants : List AuthorizationGrant)
      → (authorize_capable request grants).allowed ≡ any capable_stage grants
  unfolding authorize_capable
  authorize_capable-any grants =
      ground
        (arith, any-is_empty capable_stage grants, authorize_company-any request.company_id grants)

  pub authorize-any :
      (scope : AuthorizationScope) → (authorize scope request).allowed ≡ any permits scope.grants
  unfolding authorize
  authorize-any scope =
      let q = λ (grant : AuthorizationGrant). grant.workspace_id == request.workspace_id in
      let able = λ (grant : AuthorizationGrant). contains grant.capabilities request.capability in
      let later = λ (grant : AuthorizationGrant). able grant && capable_stage grant in
      ground (
        arith,
        any-is_empty later (filter q scope.grants),
        any-filter capable_stage able (filter q scope.grants),
        any-filter later q scope.grants,
        authorize_capable-any (filter able (filter q scope.grants)),
      )
