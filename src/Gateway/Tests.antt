-- ===== src/Gateway/Tests.antt =====
-- mcp_gateway/gateway.py: a gateway with one tool, which times out once.
use secure_portfolio_copilot.Base.{
  List-eq, Option-eq, String, String-eq, [], contains, inr, none, refl, some, suc, true, zero, ℕ,
  ℕ-eq, ◌<◌, ◌∷◌, ◌≡◌, ◌≤◌,
}
use secure_portfolio_copilot.Policy.{
  Capability-discrete, query_documents, AuthorizationScope, AuthorizationGrant,
}
use secure_portfolio_copilot.Gateway.{
  ApprovedToolName-eq, ApprovedToolName-discrete, approved_tool_name, tool_value,
  authorized_catalog, search_authorized_documents, tool_completed, ToolStatus, Attempt, returned,
  timed_out, tool_payload, ApprovedToolAdapter,
}
use secure_portfolio_copilot.Gateway.Execution.{Outcome, execute, lookup}
use secure_portfolio_copilot.Gateway.Outcomes.{Answered, Admitted, execute-Answered}
use secure_portfolio_copilot.Gateway.Construction.{build, Registered, build-Registered}
use secure_portfolio_copilot.Gateway.Catalog.{catalog-Admitted}

abbrev flaky : ℕ → String → Attempt String ℕ String
flaky zero query = timed_out
flaky (suc n) query = returned (tool_payload (7 ∷ []))

abbrev search_adapter : ApprovedToolAdapter String ℕ String
search_adapter = record {
  name = search_authorized_documents;
  input_schema = "SearchAuthorizedDocumentsInput";
  output_schema = "ToolPayload";
  required_capability = query_documents;
  validate_input = λ query. some query;
  attempt = flaky;
}

abbrev analyst : AuthorizationGrant
analyst = record {
  membership_id = 1;
  home_tenant_id = 10;
  home_tenant_slug = "atlas";
  home_tenant_name = "Atlas";
  workspace_id = 10;
  workspace_slug = "atlas";
  workspace_name = "Atlas";
  role = "analyst";
  primary_department = "finance";
  company_ids = 7 ∷ [];
  company_slugs = "atlas-co" ∷ [];
  departments = [];
  capabilities = query_documents ∷ [];
}

abbrev scope : AuthorizationScope
scope = record {
  identity = record { user_id = 5; email = "ana@atlas.test"; display_name = "Ana" };
  grants = analyst ∷ [];
}

abbrev no_schema : String → String
no_schema model = model

builds : build no_schema (search_adapter ∷ []) 3000 1 ≡ inr (search_adapter ∷ [])
unfolding build Capability-discrete
builds = refl

retried_once :
    execute
      (search_adapter ∷ [])
      1
      "portfolio.search_authorized_documents"
      "revenue"
      scope
      ("portfolio.search_authorized_documents" ∷ [])
    ≡ some (
      record {
        tool_name = some search_authorized_documents;
        status = ToolStatus.completed;
        reason_code = tool_completed;
        retry_count = 1;
        evidence = 7 ∷ [];
        calculations = [];
        memories = [];
        memory_proposal = none;
      },
      (search_authorized_documents, "revenue") ∷ (search_authorized_documents, "revenue") ∷ [],
    )
unfolding execute approved_tool_name tool_value Capability-discrete ApprovedToolName-discrete
retried_once = refl

execute-Answered_example :
    Answered
      (search_adapter ∷ [])
      1
      "portfolio.search_authorized_documents"
      "revenue"
      scope
      ("portfolio.search_authorized_documents" ∷ [])
      (execute
        (search_adapter ∷ [])
        1
        "portfolio.search_authorized_documents"
        "revenue"
        scope
        ("portfolio.search_authorized_documents" ∷ []))
execute-Answered_example =
    execute-Answered (search_adapter ∷ []) 1 "portfolio.search_authorized_documents" "revenue" scope
      ("portfolio.search_authorized_documents" ∷ [])

build-Registered_example :
    (0 < 3000)
    × (1 ≤ 1)
    × (search_adapter ∷ [] ≡ search_adapter ∷ [])
    × Registered no_schema (search_adapter ∷ [])
build-Registered_example =
    build-Registered no_schema (search_adapter ∷ []) (search_adapter ∷ []) 3000 1 builds

listed :
    contains
      (authorized_catalog scope ("portfolio.search_authorized_documents" ∷ []))
      search_authorized_documents
    ≡ true
unfolding authorized_catalog tool_value Capability-discrete ApprovedToolName-discrete
listed = refl

looked_up : lookup (search_adapter ∷ []) search_authorized_documents ≡ some search_adapter
unfolding ApprovedToolName-discrete
looked_up = refl

catalog-Admitted_example :
    (r : Outcome String ℕ String) × (execute
        (search_adapter ∷ [])
        1
        (tool_value search_authorized_documents)
        "revenue"
        scope
        ("portfolio.search_authorized_documents" ∷ [])
      ≡ some r)
    × Admitted
        (search_adapter ∷ [])
        1
        (tool_value search_authorized_documents)
        "revenue"
        scope
        ("portfolio.search_authorized_documents" ∷ [])
        r
catalog-Admitted_example =
    catalog-Admitted no_schema (search_adapter ∷ []) (search_adapter ∷ []) 3000 1
      search_authorized_documents search_adapter "revenue" "revenue" scope
      ("portfolio.search_authorized_documents" ∷ []) builds listed looked_up refl
