-- ===== src/Policy/Tests.antt =====
-- The policy engine on a small scope, and its theorems at concrete inputs.
use secure_portfolio_copilot.Base.{
  List-eq, Option-eq, String-eq, [], any, ap, false, filter, inr, refl, some, true, ℕ-eq, ◌↔◌, ◌∷◌,
  ◌≡◌,
}
use secure_portfolio_copilot.Policy.{
  Capability-discrete, GrantSource-discrete, query_documents, manage_uploads, administer_platform,
  primary_department, tenant_shared, AuthorizationGrant, AuthorizationScope, PolicyRequest,
  TrustedIdentity, authorize, first_department, authorize_department, authorize_company,
  authorize_capable, decision, allow_tenant_shared, deny_workspace, deny_capability,
}
use secure_portfolio_copilot.Policy.Scope.{authorize_iff, authorize_mono, Permitted}
use secure_portfolio_copilot.Policy.Reasons.{authorize_reasons, is_allow, in_workspace, is_capable}

abbrev finance : AuthorizationGrant
finance = record {
  membership_id = 1;
  home_tenant_id = 10;
  home_tenant_slug = "atlas";
  home_tenant_name = "Atlas";
  workspace_id = 10;
  workspace_slug = "atlas";
  workspace_name = "Atlas";
  role = "analyst";
  primary_department = "finance";
  company_ids = 7 ∷ [];
  company_slugs = "atlas-co" ∷ [];
  departments =
      record { key = "finance"; source = primary_department }
      ∷ record { key = "shared"; source = tenant_shared }
      ∷ [];
  capabilities = query_documents ∷ [];
}

abbrev admin : AuthorizationGrant
admin = record finance {
  membership_id = 2;
  role = "admin";
  departments = [];
  capabilities = manage_uploads ∷ administer_platform ∷ [];
}

abbrev user : TrustedIdentity
user = record { user_id = 5; email = "ana@atlas.test"; display_name = "Ana" }

abbrev scope : AuthorizationScope
scope = record { identity = user; grants = finance ∷ [] }

abbrev wider : AuthorizationScope
wider = record { identity = user; grants = admin ∷ finance ∷ [] }

abbrev shared_query : PolicyRequest
shared_query = record {
  capability = query_documents;
  workspace_id = 10;
  company_id = some 7;
  department = some "shared";
}

shared_is_allowed : authorize scope shared_query ≡ decision shared_query true allow_tenant_shared
unfolding authorize authorize_capable authorize_company authorize_department first_department
    Capability-discrete GrantSource-discrete
shared_is_allowed = refl

other_workspace :
    (authorize scope (record shared_query { workspace_id = 11 })).reason_code ≡ deny_workspace
unfolding authorize
other_workspace = refl

uploads_need_admin :
    (authorize wider (record shared_query { capability = manage_uploads })).allowed ≡ true
unfolding authorize authorize_capable authorize_company Capability-discrete
uploads_need_admin = refl

authorize_iff_example :
    ((authorize scope shared_query).allowed ≡ true) ↔ Permitted shared_query scope.grants
authorize_iff_example = authorize_iff scope shared_query

authorize_mono_example : (authorize wider shared_query).allowed ≡ true
authorize_mono_example =
    authorize_mono scope wider shared_query (λ g h. inr h) (ap (λ d. d.allowed) shared_is_allowed)

authorize_reasons_example :
    let d = authorize scope shared_query in
    (d.allowed ≡ is_allow d.reason_code)
    × (d.capability ≡ query_documents)
    × ((d.reason_code ≡ deny_workspace) ↔ (any (in_workspace shared_query) scope.grants ≡ false))
    × ((d.reason_code ≡ deny_capability) ↔ (
        (any (in_workspace shared_query) scope.grants ≡ true)
        × (any (is_capable shared_query) (filter (in_workspace shared_query) scope.grants)
            ≡ false)))
authorize_reasons_example = authorize_reasons shared_query scope
