-- ===== src/Gateway/Construction.antt =====
-- mcp_gateway/gateway.py: `ApprovedToolGateway.__init__`, and what a gateway that is built holds.
-- UNAPPROVED_TOOL_NAMESPACE is for an adapter whose name is no `ApprovedToolName`, which the type
-- of the name rules out. The timeout is in milliseconds, 0 standing for all that is not positive.
use secure_portfolio_copilot.Base.{
  Bool-cases, Exists, List, List-eq, Option, Option-cases, Option-eq, String, String-eq, [],
  append-nil, append_assoc, arith, enum_beq_iff, eq_iff, if◌then◌else◌, inl, inr, is_some, leb, ltb,
  none, not, some, subst, sym, ℕ, ℕ-eq, ◌++◌, ◌<◌, ◌==◌, ◌||◌, ◌∙◌, ◌∷◌, ◌≡◌, ◌≤◌, ◌⊎◌,
}
use secure_portfolio_copilot.Policy.{Capability-eq, Capability-discrete}
use secure_portfolio_copilot.Gateway.{
  ApprovedToolName-discrete, ApprovedToolName, ApprovedToolName-eq, ApprovedToolAdapter,
  manifest_capability, search_authorized_documents, get_document_excerpt, query_financial_metrics,
  calculate_cagr, search_memory, propose_memory,
}
use secure_portfolio_copilot.Gateway.Execution.{lookup}

pub data GatewayConfigurationError : Type 0 where
  invalid_gateway_limits duplicate_tool_name input_schema_mismatch : GatewayConfigurationError
  output_schema_mismatch capability_mismatch : GatewayConfigurationError

-- The name of the input and of the output model that `TOOL_MANIFEST` has for a tool.
abbrev pub input_model : ApprovedToolName → String
input_model search_authorized_documents = "SearchAuthorizedDocumentsInput"
input_model get_document_excerpt = "GetDocumentExcerptInput"
input_model query_financial_metrics = "QueryFinancialMetricsInput"
input_model calculate_cagr = "CalculateCagrInput"
input_model search_memory = "SearchMemoryInput"
input_model propose_memory = "ProposeMemoryInput"
input_model _ = "CalculateFinancialMetricInput"

abbrev pub output_model : ApprovedToolName → String
output_model search_authorized_documents = "ToolPayload"
output_model get_document_excerpt = "ToolPayload"
output_model search_memory = "MemorySearchPayload"
output_model propose_memory = "MemoryProposalPayload"
output_model _ = "CalculationPayload"

-- `model_json_schema` of a model, by its name
module _ (schema : String → String) {Arguments Evidence Proposal : Type 0} where
  -- the checks of one adapter, against those that are registered
  unfoldable pub check_adapter :
      List (ApprovedToolAdapter Arguments Evidence Proposal)
      → ApprovedToolAdapter Arguments Evidence Proposal
      → Option GatewayConfigurationError
  check_adapter by_name adapter =
      if is_some (lookup by_name adapter.name)
      then some duplicate_tool_name
      else if not (adapter.input_schema == schema (input_model adapter.name))
      then some input_schema_mismatch
      else if not (adapter.output_schema == schema (output_model adapter.name))
      then some output_schema_mismatch
      else if not (adapter.required_capability == manifest_capability adapter.name)
      then some capability_mismatch
      else none

  -- the loop over the adapters
  unfoldable pub register :
      List (ApprovedToolAdapter Arguments Evidence Proposal)
      → List (ApprovedToolAdapter Arguments Evidence Proposal)
      → GatewayConfigurationError ⊎ List (ApprovedToolAdapter Arguments Evidence Proposal)
  unfolding check_adapter
  register by_name [] = inr by_name
  register by_name (adapter ∷ adapters) = elim (check_adapter by_name adapter) [
    | some code ↦ inl code
    | none ↦ register (by_name ++ adapter ∷ []) adapters
  ]

  -- `__init__`, which either raises or has the registered adapters
  unfoldable pub build :
      List (ApprovedToolAdapter Arguments Evidence Proposal)
      → ℕ
      → ℕ
      → GatewayConfigurationError ⊎ List (ApprovedToolAdapter Arguments Evidence Proposal)
  unfolding register
  build adapters timeout_ms max_transient_retries =
      if leb timeout_ms 0 || ltb 1 max_transient_retries
      then inl invalid_gateway_limits
      else register [] adapters

  -- What the constructor has checked of a registered adapter.
  pub record Conforms (adapter : ApprovedToolAdapter Arguments Evidence Proposal) : Type 0 where
    pub input : adapter.input_schema ≡ schema (input_model adapter.name)
    pub output : adapter.output_schema ≡ schema (output_model adapter.name)
    pub capability : adapter.required_capability ≡ manifest_capability adapter.name

  check_adapter-Conforms :
      (by_name : List (ApprovedToolAdapter Arguments Evidence Proposal))
      (adapter : ApprovedToolAdapter Arguments Evidence Proposal)
      → check_adapter by_name adapter ≡ none
      → (lookup by_name adapter.name ≡ none) × Conforms adapter
  unfolding check_adapter
  check_adapter-Conforms by_name adapter h =
      let e =
        enum_beq_iff Capability-discrete adapter.required_capability
          (manifest_capability adapter.name) in
      let i = eq_iff adapter.input_schema (schema (input_model adapter.name)) in
      let o = eq_iff adapter.output_schema (schema (output_model adapter.name)) in
      elim (Option-cases (lookup by_name adapter.name)) [
        | inr (x, p) ↦ absurd (ground (arith, p))
        | inl p ↦ (
          p,
          record {
            input = ground (arith, p, i);
            output = ground (arith, p, o);
            capability = ground (arith, p, e);
          },
        )
      ]

  -- Every adapter of the list is the one that is found under its name.
  abbrev pub Registered : List (ApprovedToolAdapter Arguments Evidence Proposal) → Type 0
  Registered by_name =
      (adapter : ApprovedToolAdapter Arguments Evidence Proposal)
      → Exists (λ x. x ≡ adapter) by_name
      → (lookup by_name adapter.name ≡ some adapter) × Conforms adapter

  lookup-append :
      (by_name : List (ApprovedToolAdapter Arguments Evidence Proposal))
      (adapter : ApprovedToolAdapter Arguments Evidence Proposal) (name : ApprovedToolName)
      → (found : ApprovedToolAdapter Arguments Evidence Proposal) → lookup by_name name ≡ some found
      → lookup (by_name ++ adapter ∷ []) name ≡ some found
  lookup-append [] adapter name found h = cc
  lookup-append (a ∷ by_name) adapter name found h = elim (Bool-cases (a.name == name)) [
    | inl e ↦ ground (arith, e)
    | inr e ↦ ground (arith, e, lookup-append by_name adapter name found)
  ]

  lookup-last :
      (by_name : List (ApprovedToolAdapter Arguments Evidence Proposal))
      (adapter : ApprovedToolAdapter Arguments Evidence Proposal)
      → lookup by_name adapter.name ≡ none
      → lookup (by_name ++ adapter ∷ []) adapter.name ≡ some adapter
  lookup-last [] adapter h =
      ground (arith, enum_beq_iff ApprovedToolName-discrete adapter.name adapter.name)
  lookup-last (a ∷ by_name) adapter h = elim (Bool-cases (a.name == adapter.name)) [
    | inl e ↦ absurd (ground (arith, e))
    | inr e ↦ ground (arith, e, lookup-last by_name adapter)
  ]

  Exists-snoc :
      (xs : List (ApprovedToolAdapter Arguments Evidence Proposal))
      (x y : ApprovedToolAdapter Arguments Evidence Proposal)
      → Exists (λ z. z ≡ y) (xs ++ x ∷ [])
      → Exists (λ z. z ≡ y) xs ⊎ (x ≡ y)
  Exists-snoc [] x y (inl e) = inr e
  Exists-snoc [] x y (inr m) = elim m [ ]
  Exists-snoc (z ∷ xs) x y (inl e) = inl (inl e)
  Exists-snoc (z ∷ xs) x y (inr m) = elim (Exists-snoc xs x y m) [
    | inl n ↦ inl (inr n)
    | inr e ↦ inr e
  ]

  Registered-append :
      (by_name : List (ApprovedToolAdapter Arguments Evidence Proposal))
      (adapter : ApprovedToolAdapter Arguments Evidence Proposal)
      → Registered by_name
      → lookup by_name adapter.name ≡ none
      → Conforms adapter
      → Registered (by_name ++ adapter ∷ [])
  Registered-append by_name adapter r fresh conforms other m =
      elim (Exists-snoc by_name adapter other m) [
        | inl n ↦
            let (found, c) = r other n in (lookup-append by_name adapter other.name other found, c)
        | inr e ↦
            subst
              (λ (x : ApprovedToolAdapter Arguments Evidence Proposal).
                (lookup (by_name ++ adapter ∷ []) x.name ≡ some x) × Conforms x)
              e (lookup-last by_name adapter fresh, conforms)
      ]

  register-Registered :
      (by_name adapters built : List (ApprovedToolAdapter Arguments Evidence Proposal))
      → Registered by_name
      → register by_name adapters ≡ inr built
      → (built ≡ by_name ++ adapters) × Registered built
  unfolding register
  register-Registered by_name [] built r h =
      let e : by_name ≡ built = ground (arith, h) in
      (sym e ∙ sym (append-nil by_name), subst Registered e r)
  register-Registered by_name (adapter ∷ adapters) built r h =
      elim (Option-cases (check_adapter by_name adapter)) [
        | inr (code, e) ↦ absurd (ground (arith, e))
        | inl e ↦
            let (fresh, conforms) = check_adapter-Conforms by_name adapter e in
            let (all_of, result) =
              register-Registered (by_name ++ adapter ∷ []) adapters built
                (Registered-append by_name adapter r fresh conforms) (ground (arith, e)) in
            (all_of ∙ append_assoc by_name (adapter ∷ []) adapters, result)
      ]

  -- A gateway that is built holds all the adapters that it was given, in their order. It has a
  -- positive timeout and at most one retry; each adapter is the only one found under its name, and
  -- its schemas and its capability are those of the manifest.
  pub build-Registered :
      (adapters built : List (ApprovedToolAdapter Arguments Evidence Proposal))
      (timeout_ms max_transient_retries : ℕ)
      → build adapters timeout_ms max_transient_retries ≡ inr built
      → (0 < timeout_ms) × (max_transient_retries ≤ 1) × (built ≡ adapters) × Registered built
  unfolding build
  build-Registered adapters built timeout_ms retries h =
      elim (Bool-cases (leb timeout_ms 0 || ltb 1 retries)) [
        | inl e ↦ absurd (ground (arith, e))
        | inr e ↦
            let (same, result) =
              register-Registered [] adapters built (λ a m. elim m [ ]) (ground (arith, e)) in
            (ground (arith, e), ground (arith, e), same, result)
      ]
