-- ===== src/Policy/Scope.antt =====
-- policies/engine.py: what `authorize` promises of a scope, by an independent description.
use secure_portfolio_copilot.Base.{
  Bool, Exists, Exists-in, Exists-out, List, Option, Option-eq, String, String-eq, [], any, arith,
  contains, contains_iff, eq_iff, false, none, some, true, ℕ, ℕ-eq, ◌==◌, ◌↔◌, ◌∷◌, ◌≡◌,
}
use secure_portfolio_copilot.Policy.{
  Capability-discrete, Capability, Capability-eq, query_documents, manage_uploads,
  administer_platform, DepartmentAccess, AuthorizationGrant, AuthorizationScope, PolicyRequest,
  authorize,
}
use secure_portfolio_copilot.Policy.Stages.{permits, authorize-any}

module _ (request : PolicyRequest) (grant : AuthorizationGrant) where
  abbrev InCompany : Type 0
  InCompany = Exists (λ id. some id ≡ request.company_id) grant.company_ids

  abbrev InDepartment : Type 0
  InDepartment =
      Exists (λ (access : DepartmentAccess). some access.key ≡ request.department) grant.departments

  -- What a grant must give for each capability, beside the workspace and the capability itself.
  abbrev Warrants : Capability → Type 0
  Warrants query_documents = InCompany × InDepartment
  Warrants manage_uploads = InCompany × (grant.role ≡ "admin")
  Warrants administer_platform = grant.role ≡ "admin"

  abbrev pub Permits : Type 0
  Permits =
      (grant.workspace_id ≡ request.workspace_id)
      × Exists (λ c. c ≡ request.capability) grant.capabilities
      × Warrants request.capability

in_company : Option ℕ → List ℕ → Bool
in_company none ids = false
in_company (some c) ids = contains ids c

in_company_iff :
    (company : Option ℕ) (ids : List ℕ)
    → (in_company company ids ≡ true) ↔ Exists (λ id. some id ≡ company) ids
unfolding in_company
in_company_iff none [] = ground arith
in_company_iff none (id ∷ ids) = ground (arith, in_company_iff none ids)
in_company_iff (some c) [] = ground arith
in_company_iff (some c) (id ∷ ids) = ground (arith, in_company_iff (some c) ids)

in_department : Option String → List DepartmentAccess → Bool
in_department none items = false
in_department (some d) items = any (λ (item : DepartmentAccess). item.key == d) items

in_department_iff :
    (department : Option String) (items : List DepartmentAccess)
    → (in_department department items ≡ true)
      ↔ Exists (λ (access : DepartmentAccess). some access.key ≡ department) items
unfolding in_department
in_department_iff none [] = ground arith
in_department_iff none (item ∷ items) = ground (arith, in_department_iff none items)
in_department_iff (some d) [] = ground arith
in_department_iff (some d) (item ∷ items) =
    ground (arith, in_department_iff (some d) items, eq_iff item.key d)

abbrev asks : Capability → ℕ → Option ℕ → Option String → PolicyRequest
asks c w company department = record {
  capability = c;
  workspace_id = w;
  company_id = company;
  department = department;
}

permits_iff_at :
    (c : Capability) (w : ℕ) (company : Option ℕ) (department : Option String)
    (grant : AuthorizationGrant)
    → (permits (asks c w company department) grant ≡ true)
      ↔ Permits (asks c w company department) grant
unfolding in_company in_department Capability-discrete
permits_iff_at administer_platform w company department grant =
    ground (arith, contains_iff grant.capabilities administer_platform, eq_iff grant.role "admin")
permits_iff_at manage_uploads w none department grant =
    ground
      (arith, contains_iff grant.capabilities manage_uploads, in_company_iff none grant.company_ids)
permits_iff_at manage_uploads w (some c) department grant = ground (
  arith,
  contains_iff grant.capabilities manage_uploads,
  in_company_iff (some c) grant.company_ids,
  eq_iff grant.role "admin",
)
permits_iff_at query_documents w none department grant =
    ground (
      arith,
      contains_iff grant.capabilities query_documents,
      in_company_iff none grant.company_ids,
    )
permits_iff_at query_documents w (some c) none grant = ground (
  arith,
  contains_iff grant.capabilities query_documents,
  in_company_iff (some c) grant.company_ids,
  in_department_iff none grant.departments,
)
permits_iff_at query_documents w (some c) (some d) grant = ground (
  arith,
  contains_iff grant.capabilities query_documents,
  in_company_iff (some c) grant.company_ids,
  in_department_iff (some d) grant.departments,
)

permits_iff :
    (request : PolicyRequest) (grant : AuthorizationGrant)
    → (permits request grant ≡ true) ↔ Permits request grant
permits_iff request grant =
    permits_iff_at request.capability request.workspace_id request.company_id request.department
      grant

abbrev pub Permitted : PolicyRequest → List AuthorizationGrant → Type 0
Permitted request grants = Exists (Permits request) grants

Permitted-iff :
    (request : PolicyRequest) (grants : List AuthorizationGrant)
    → (any (permits request) grants ≡ true) ↔ Permitted request grants
Permitted-iff request [] = ground arith
Permitted-iff request (grant ∷ grants) =
    ground (arith, Permitted-iff request grants, permits_iff request grant)

-- A request is allowed exactly when one single grant of the scope has its workspace, lists its
-- capability and gives what that capability needs: for a query the company and the department,
-- for uploads the company and the role "admin", for the platform the role "admin".
pub authorize_iff :
    (scope : AuthorizationScope) (request : PolicyRequest)
    → ((authorize scope request).allowed ≡ true) ↔ Permitted request scope.grants
authorize_iff scope request = rw (authorize-any request scope) (Permitted-iff request scope.grants)

-- Whatever a scope allows, every scope with the same grants and perhaps more allows too, in
-- whatever order it lists them: no grant takes a permission away.
pub authorize_mono :
    (scope wider : AuthorizationScope) (request : PolicyRequest)
    → ((g : AuthorizationGrant)
        → Exists (λ x. x ≡ g) scope.grants
        → Exists (λ x. x ≡ g) wider.grants)
    → (authorize scope request).allowed ≡ true
    → (authorize wider request).allowed ≡ true
authorize_mono scope wider request sub h = (authorize_iff wider request).1 (
    let P = Permits request in
    let (g, here, permits) = Exists-out P scope.grants ((authorize_iff scope request).0 h) in
    Exists-in P wider.grants g (sub g here) permits)
