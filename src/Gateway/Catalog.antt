-- ===== src/Gateway/Catalog.antt =====
-- mcp_gateway/gateway.py: the catalog that the planner is shown, and what the gateway makes of it.
use secure_portfolio_copilot.Base.{
  Bool, Bool-cases, Exists, List, List-eq, Option-eq, String, String-eq, [], ap, arith, contains,
  enum_beq_iff, false, filter, inl, inr, refl, some, subst, true, ℕ, ℕ-eq, ◌&&◌, ◌+◌, ◌==◌, ◌∙◌,
  ◌∷◌, ◌≡◌,
}
use secure_portfolio_copilot.Policy.{AuthorizationScope}
use secure_portfolio_copilot.Gateway.{
  ApprovedToolName, ApprovedToolName-eq, ApprovedToolName-discrete, approved_tool_name, tool_value,
  manifest_names, search_authorized_documents, manifest_capability, authorized_catalog,
  has_capability, ApprovedToolAdapter,
}
use secure_portfolio_copilot.Gateway.Execution.{
  Outcome, lookup, execute, execute_named, execute_with,
}
use secure_portfolio_copilot.Gateway.Outcomes.{Admitted, invoke_from-Ends}
use secure_portfolio_copilot.Gateway.Construction.{build, build-Registered}

-- The values of the names are read back.
pub tool_value-approved :
    (name : ApprovedToolName) → approved_tool_name (tool_value name) ≡ some name
unfolding approved_tool_name tool_value
tool_value-approved search_authorized_documents = refl
tool_value-approved _ = refl

contains-filter :
    (p : ApprovedToolName → Bool) (xs : List ApprovedToolName) (name : ApprovedToolName)
    → contains (filter p xs) name ≡ true
    → p name ≡ true
contains-filter p [] name h = cc
contains-filter p (x ∷ xs) name h = elim (Bool-cases (p x)) [
  | inl e ↦ elim (Bool-cases (x == name)) [
    | inl s ↦ subst (λ n. p n ≡ true) ((enum_beq_iff ApprovedToolName-discrete x name).0 s) e
    | inr s ↦ contains-filter p xs name (ground (arith, e, s))
  ]
  | inr e ↦ contains-filter p xs name (ground (arith, e))
]

and-left : (a b : Bool) → (a && b) ≡ true → (a ≡ true) × (b ≡ true)
and-left true b h = (refl, h)
and-left false b h = cc

module _ {Arguments Evidence Proposal : Type 0} where
  lookup-Exists :
      (adapters : List (ApprovedToolAdapter Arguments Evidence Proposal)) (name : ApprovedToolName)
      (adapter : ApprovedToolAdapter Arguments Evidence Proposal)
      → lookup adapters name ≡ some adapter
      → Exists (λ x. x ≡ adapter) adapters
  lookup-Exists [] name adapter h = absurd cc
  lookup-Exists (a ∷ adapters) name adapter h = elim (Bool-cases (a.name == name)) [
    | inl e ↦ inl (ground (arith, e))
    | inr e ↦ inr (lookup-Exists adapters name adapter (ground (arith, e)))
  ]

  -- A tool of the catalog is never refused by a gateway that is built and has an adapter for it:
  -- where the adapter accepts the arguments, the call returns and is admitted.
  pub catalog-Admitted :
      (schema : String → String)
      (adapters built : List (ApprovedToolAdapter Arguments Evidence Proposal))
      (timeout_ms limit : ℕ) (name : ApprovedToolName)
      (adapter : ApprovedToolAdapter Arguments Evidence Proposal) (arguments validated : Arguments)
      (scope : AuthorizationScope) (permitted_tools : List String)
      → build schema adapters timeout_ms limit ≡ inr built
      → contains (authorized_catalog scope permitted_tools) name ≡ true
      → lookup built name ≡ some adapter
      → adapter.validate_input arguments ≡ some validated
      → (r : Outcome Arguments Evidence Proposal) × (execute built limit
            (tool_value name)
            arguments
            scope
            permitted_tools
          ≡ some r)
        × Admitted built limit (tool_value name) arguments scope permitted_tools r
  unfolding authorized_catalog execute execute_named execute_with
  catalog-Admitted schema adapters built timeout_ms limit name adapter arguments validated scope
        permitted_tools h c found accepted =
      let (_, _, _, registered) = build-Registered schema adapters built timeout_ms limit h in
      let (_, conforms) = registered adapter (lookup-Exists built name adapter found) in
      let (shortlisted, capable) =
        and-left (contains permitted_tools (tool_value name))
          (has_capability scope (manifest_capability name))
          (contains-filter
            (λ (n : ApprovedToolName).
              contains permitted_tools (tool_value n)
              && has_capability scope (manifest_capability n))
            manifest_names name c) in
      let able : has_capability scope adapter.required_capability ≡ true =
        ap (has_capability scope) conforms.capability ∙ capable in
      let (r, done, invoked) =
        invoke_from-Ends adapter name validated (limit + 1) 0 limit [] refl (omega arith)
          (omega arith) in
      (
        r,
        rw (tool_value-approved name) (rw shortlisted (rw found (rw able (rw accepted done)))),
        record {
          name = name;
          adapter = adapter;
          validated = validated;
          known = tool_value-approved name;
          shortlisted = shortlisted;
          found = found;
          capable = able;
          accepted = accepted;
          invoked = invoked;
        },
      )
