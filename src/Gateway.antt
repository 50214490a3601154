-- ===== src/Gateway.antt =====
-- backend/app/mcp_gateway/gateway.py and contracts.py: the gateway between the agent and its tools.
-- The adapters and the schemas of pydantic are parameters; trace ids and durations are left out.
pub mod Construction
pub mod Execution
pub mod Outcomes
pub mod Catalog
mod Tests
use secure_portfolio_copilot.Base.{
  Bool, Eq, List, List-eq, Option, Option-eq, String, String-eq, [], any, contains, enum_eq, filter,
  find?, ℕ, ℕ-eq, ◌&&◌, ◌==◌, ◌∷◌,
}
use secure_portfolio_copilot.Policy.{
  Capability, Capability-eq, query_documents, AuthorizationScope, AuthorizationGrant,
}
use secure_portfolio_copilot.Agent.Loop.Types.{CalculationResult, MemoryToolItem}

-- contracts.py
pub data ApprovedToolName : Type 0 where
  search_authorized_documents get_document_excerpt calculate_ebitda_margin : ApprovedToolName
  calculate_revenue_growth calculate_net_profit_margin query_financial_metrics : ApprovedToolName
  calculate_debt_to_equity calculate_cash_runway calculate_cagr : ApprovedToolName
  search_memory propose_memory : ApprovedToolName

unfoldable pub ApprovedToolName-discrete : Discrete ApprovedToolName
ApprovedToolName-discrete = hlevel

instance abbrev pub ApprovedToolName-eq : Eq ApprovedToolName
ApprovedToolName-eq = enum_eq ApprovedToolName-discrete

unfoldable pub tool_value : ApprovedToolName → String
tool_value search_authorized_documents = "portfolio.search_authorized_documents"
tool_value get_document_excerpt = "portfolio.get_document_excerpt"
tool_value calculate_ebitda_margin = "portfolio.calculate_ebitda_margin"
tool_value calculate_revenue_growth = "portfolio.calculate_revenue_growth"
tool_value calculate_net_profit_margin = "portfolio.calculate_net_profit_margin"
tool_value query_financial_metrics = "portfolio.query_financial_metrics"
tool_value calculate_debt_to_equity = "portfolio.calculate_debt_to_equity"
tool_value calculate_cash_runway = "portfolio.calculate_cash_runway"
tool_value calculate_cagr = "portfolio.calculate_cagr"
tool_value search_memory = "portfolio.search_memory"
tool_value propose_memory = "portfolio.propose_memory"

-- the keys of `TOOL_MANIFEST`, in order
abbrev pub manifest_names : List ApprovedToolName
manifest_names =
    search_authorized_documents ∷ get_document_excerpt ∷ calculate_ebitda_margin
    ∷ calculate_revenue_growth ∷ calculate_net_profit_margin ∷ query_financial_metrics
    ∷ calculate_debt_to_equity ∷ calculate_cash_runway ∷ calculate_cagr ∷ search_memory
    ∷ propose_memory ∷ []

-- `ApprovedToolName(tool_name)`; `none` is the `ValueError`
unfoldable pub approved_tool_name : String → Option ApprovedToolName
unfolding tool_value
approved_tool_name tool_name =
    find? (λ (n : ApprovedToolName). tool_value n == tool_name) manifest_names

pub data GatewayReasonCode : Type 0 where
  tool_completed unknown_tool tool_not_shortlisted authorization_denied : GatewayReasonCode
  input_schema_rejected output_schema_rejected tool_timeout : GatewayReasonCode
  tool_transient_failure tool_failed_safe calculation_inputs_missing : GatewayReasonCode
  calculation_inputs_invalid calculation_division_by_zero : GatewayReasonCode

pub data ToolStatus : Type 0 where
  completed denied failed : ToolStatus

unfoldable pub ToolStatus-discrete : Discrete ToolStatus
ToolStatus-discrete = hlevel

instance abbrev pub ToolStatus-eq : Eq ToolStatus
ToolStatus-eq = enum_eq ToolStatus-discrete

-- `any(capability in grant.capabilities for grant in scope.grants)`
abbrev pub has_capability : AuthorizationScope → Capability → Bool
has_capability scope capability =
    any (λ (grant : AuthorizationGrant). contains grant.capabilities capability) scope.grants

-- Every entry of `TOOL_MANIFEST` has this capability.
abbrev pub manifest_capability : ApprovedToolName → Capability
manifest_capability name = query_documents

-- `authorized_catalog`
unfoldable pub authorized_catalog : AuthorizationScope → List String → List ApprovedToolName
authorized_catalog scope permitted_tools =
    filter
      (λ (name : ApprovedToolName).
        contains permitted_tools (tool_value name)
        && has_capability scope (manifest_capability name))
      manifest_names

module _ (Arguments Evidence Proposal : Type 0) where
  -- The validated output of a tool.
  pub data Payload : Type 0 where
    tool_payload : List Evidence → Payload
    calculation_payload : List CalculationResult → Payload
    memory_search_payload : List MemoryToolItem → Payload
    memory_proposal_payload : Proposal → Payload

  pub record StructuredToolObservation : Type 0 where
    pub tool_name : Option ApprovedToolName
    pub status : ToolStatus
    pub reason_code : GatewayReasonCode
    pub retry_count : ℕ
    pub evidence : List Evidence
    pub calculations : List CalculationResult
    pub memories : List MemoryToolItem
    pub memory_proposal : Option Proposal

  -- How one invocation of an adapter ends, with the validation of its output; `raised` is any
  -- exception that has no clause of its own.
  pub data Attempt : Type 0 where
    returned : Payload → Attempt
    output_rejected : Attempt
    not_authorized : Attempt
    timed_out : Attempt
    adapter_error : GatewayReasonCode → (transient : Bool) → Attempt
    raised : Attempt

  -- `attempt n arguments` is the invocation number n of one call.
  pub record ApprovedToolAdapter : Type 0 where
    pub name : ApprovedToolName
    pub input_schema : String
    pub output_schema : String
    pub required_capability : Capability
    pub validate_input : Arguments → Option Arguments
    pub attempt : ℕ → Arguments → Attempt
