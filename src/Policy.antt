-- ===== src/Policy.antt =====
-- backend/app/policies/models.py and policies/engine.py: the grants and the decision of a request.
-- A UUID is a number, which the engine only compares; e-mail addresses and names are texts.
mod Stages
pub mod Scope
pub mod Reasons
mod Tests
use secure_portfolio_copilot.Base.{
  ℕ, String, Bool, true, false, Option, none, some, List, [], ◌∷◌, Eq, enum_eq, ◌==◌, any, filter,
  find?, contains, is_empty, if◌then◌else◌, String-eq, ℕ-eq, Option-eq,
}

-- models/identity.py
pub data Capability : Type 0 where
  query_documents manage_uploads administer_platform : Capability

pub data GrantSource : Type 0 where
  primary_department tenant_shared explicit_cross_department admin_assignment : GrantSource

unfoldable pub Capability-discrete : Discrete Capability
Capability-discrete = hlevel

unfoldable pub GrantSource-discrete : Discrete GrantSource
GrantSource-discrete = hlevel

instance abbrev pub Capability-eq : Eq Capability
Capability-eq = enum_eq Capability-discrete

instance abbrev pub GrantSource-eq : Eq GrantSource
GrantSource-eq = enum_eq GrantSource-discrete

-- policies/models.py
pub record TrustedIdentity : Type 0 where
  pub user_id : ℕ
  pub email : String
  pub display_name : String

pub record DepartmentAccess : Type 0 where
  pub key : String
  pub source : GrantSource

pub record AuthorizationGrant : Type 0 where
  pub membership_id : ℕ
  pub home_tenant_id : ℕ
  pub home_tenant_slug : String
  pub home_tenant_name : String
  pub workspace_id : ℕ
  pub workspace_slug : String
  pub workspace_name : String
  pub role : String
  pub primary_department : String
  pub company_ids : List ℕ
  pub company_slugs : List String
  pub departments : List DepartmentAccess
  pub capabilities : List Capability

pub record AuthorizationScope : Type 0 where
  pub identity : TrustedIdentity
  pub grants : List AuthorizationGrant

pub data PolicyReason : Type 0 where
  allow_tenant_department allow_tenant_shared allow_explicit_cross_department : PolicyReason
  allow_admin_upload allow_platform_admin : PolicyReason
  deny_workspace deny_company deny_department deny_capability deny_role deny_default : PolicyReason

pub record PolicyRequest : Type 0 where
  pub capability : Capability
  pub workspace_id : ℕ
  pub company_id : Option ℕ
  pub department : Option String

pub record PolicyDecision : Type 0 where
  pub allowed : Bool
  pub reason_code : PolicyReason
  pub capability : Capability

-- `_decision`
abbrev pub decision : PolicyRequest → Bool → PolicyReason → PolicyDecision
decision request allowed reason = record {
  allowed = allowed;
  reason_code = reason;
  capability = request.capability;
}

abbrev pub source_reason : GrantSource → PolicyReason
source_reason source =
    if source == tenant_shared
    then allow_tenant_shared
    else if source == explicit_cross_department
    then allow_explicit_cross_department
    else allow_tenant_department

-- the `for grant in company_grants` loop; `department` is the requested one
pub first_department : PolicyRequest → String → List AuthorizationGrant → PolicyDecision
first_department request department [] = decision request false deny_department
first_department request department (grant ∷ grants) =
    let rest = first_department request department grants in
    elim (find? (λ (item : DepartmentAccess). item.key == department) grant.departments) [
      | none ↦ rest
      | some access ↦ decision request true (source_reason access.source)
    ]

-- from the last guard of `authorize` on
pub authorize_department : PolicyRequest → Option String → List AuthorizationGrant → PolicyDecision
authorize_department request none company_grants = decision request false deny_default
authorize_department request (some department) company_grants =
    if request.capability == query_documents
    then first_department request department company_grants
    else decision request false deny_default

abbrev pub is_admin : AuthorizationGrant → Bool
is_admin grant = grant.role == "admin"

-- from the test of `company_id` on
pub authorize_company : PolicyRequest → Option ℕ → List AuthorizationGrant → PolicyDecision
authorize_company request none capable_grants = decision request false deny_default
authorize_company request (some company_id) capable_grants =
    let company_grants =
      filter (λ (grant : AuthorizationGrant). contains grant.company_ids company_id)
        capable_grants in
    if is_empty company_grants
    then decision request false deny_company
    else if request.capability == manage_uploads
    then if any is_admin company_grants
      then decision request true allow_admin_upload
      else decision request false deny_role
    else authorize_department request request.department company_grants

-- from the test of `capable_grants` on
pub authorize_capable : PolicyRequest → List AuthorizationGrant → PolicyDecision
authorize_capable request capable_grants =
    if is_empty capable_grants
    then decision request false deny_capability
    else if request.capability == administer_platform
    then if any is_admin capable_grants
      then decision request true allow_platform_admin
      else decision request false deny_role
    else authorize_company request request.company_id capable_grants

unfoldable pub authorize : AuthorizationScope → PolicyRequest → PolicyDecision
authorize scope request =
    let workspace_grants =
      filter (λ (grant : AuthorizationGrant). grant.workspace_id == request.workspace_id)
        scope.grants in
    if is_empty workspace_grants
    then decision request false deny_workspace
    else authorize_capable request (
        filter (λ (grant : AuthorizationGrant). contains grant.capabilities request.capability)
          workspace_grants)
