-- ===== src/Gateway/Execution.antt =====
-- mcp_gateway/gateway.py: `ApprovedToolGateway.execute`. The invocations of a call are kept in a
-- log, the latest first, which every step of the call hands on.
use secure_portfolio_copilot.Base.{
  Bool, List, List-eq, Option, Option-eq, String, String-eq, [], contains, false, find?,
  if◌then◌else◌, is_empty, is_some, length, ltb, none, not, some, suc, true, zero, ℕ, ℕ-eq, ◌&&◌,
  ◌+◌, ◌==◌, ◌∷◌,
}
use secure_portfolio_copilot.Policy.{AuthorizationScope}
use secure_portfolio_copilot.Agent.Loop.Types.{CalculationResult, MemoryToolItem}
use secure_portfolio_copilot.Gateway.{
  ToolStatus-eq, ApprovedToolName, ApprovedToolName-eq, approved_tool_name, tool_value,
  GatewayReasonCode, unknown_tool, tool_not_shortlisted, authorization_denied,
  input_schema_rejected, output_schema_rejected, tool_failed_safe, tool_completed, tool_timeout,
  ToolStatus, has_capability, Payload, tool_payload, calculation_payload, memory_search_payload,
  memory_proposal_payload, StructuredToolObservation, Attempt, returned, output_rejected,
  not_authorized, timed_out, adapter_error, raised, ApprovedToolAdapter,
}

-- the adapters that have been invoked, with what
abbrev pub Log : Type 0 → Type 0
Log Arguments = List (ApprovedToolName × Arguments)

abbrev pub Outcome : Type 0 → Type 0 → Type 0 → Type 0
Outcome Arguments Evidence Proposal =
    StructuredToolObservation Arguments Evidence Proposal × Log Arguments

module _ {Arguments Evidence Proposal : Type 0} where
  -- the four `isinstance` projections of `_observation`
  abbrev pub evidence_of : Option (Payload Arguments Evidence Proposal) → List Evidence
  evidence_of (some (tool_payload items)) = items
  evidence_of _ = []

  abbrev pub calculations_of : Option (Payload Arguments Evidence Proposal) → List CalculationResult
  calculations_of (some (calculation_payload items)) = items
  calculations_of _ = []

  abbrev pub memories_of : Option (Payload Arguments Evidence Proposal) → List MemoryToolItem
  memories_of (some (memory_search_payload items)) = items
  memories_of _ = []

  abbrev pub proposal_of : Option (Payload Arguments Evidence Proposal) → Option Proposal
  proposal_of (some (memory_proposal_payload proposal)) = some proposal
  proposal_of _ = none

  -- `_observation`
  abbrev pub observation :
      Option ApprovedToolName
      → ToolStatus
      → GatewayReasonCode
      → ℕ
      → Option (Payload Arguments Evidence Proposal)
      → StructuredToolObservation Arguments Evidence Proposal
  observation tool_name status reason_code retry_count payload = record {
    tool_name = tool_name;
    status = status;
    reason_code = reason_code;
    retry_count = retry_count;
    evidence = evidence_of payload;
    calculations = calculations_of payload;
    memories = memories_of payload;
    memory_proposal = proposal_of payload;
  }

  abbrev pub failure :
      ApprovedToolName → ℕ → GatewayReasonCode → Log Arguments → Outcome Arguments Evidence Proposal
  failure name retry_count code log =
      (observation (some name) ToolStatus.failed code retry_count none, log)

  -- the end of the body of `while True`; `again` is the loop after `retry_count += 1`
  abbrev pub settle_failure :
      ApprovedToolName
      → ℕ
      → ℕ
      → Option (Outcome Arguments Evidence Proposal)
      → GatewayReasonCode
      → Bool
      → Log Arguments
      → Option (Outcome Arguments Evidence Proposal)
  settle_failure name max_transient_retries retry_count again code transient log =
      if transient && ltb retry_count max_transient_retries
      then again
      else some (failure name retry_count code log)

  -- the body of `while True` after the invocation
  unfoldable pub settle_attempt :
      ApprovedToolName
      → ℕ
      → ℕ
      → Option (Outcome Arguments Evidence Proposal)
      → Attempt Arguments Evidence Proposal
      → Log Arguments
      → Option (Outcome Arguments Evidence Proposal)
  settle_attempt name max_transient_retries retry_count again (returned payload) log =
      some (
        observation (some name) ToolStatus.completed tool_completed retry_count (some payload),
        log,
      )
  settle_attempt name max_transient_retries retry_count again output_rejected log =
      some (failure name retry_count output_schema_rejected log)
  settle_attempt name max_transient_retries retry_count again not_authorized log =
      some (observation (some name) ToolStatus.denied authorization_denied retry_count none, log)
  settle_attempt name max_transient_retries retry_count again timed_out log =
      settle_failure name max_transient_retries retry_count again tool_timeout true log
  settle_attempt name max_transient_retries retry_count again (adapter_error code transient) log =
      settle_failure name max_transient_retries retry_count again code transient log
  settle_attempt name max_transient_retries retry_count again raised log =
      some (failure name retry_count tool_failed_safe log)

  -- `while True`, on fuel; `none` is a loop that goes on
  unfoldable pub invoke_from :
      ApprovedToolAdapter Arguments Evidence Proposal
      → ApprovedToolName
      → Arguments
      → ℕ
      → ℕ
      → ℕ
      → Log Arguments
      → Option (Outcome Arguments Evidence Proposal)
  unfolding settle_attempt
  invoke_from adapter name arguments max_transient_retries zero retry_count log = none
  invoke_from adapter name arguments max_transient_retries (suc fuel) retry_count log =
      let attempt = adapter.attempt (length log) arguments in
      let invoked = (adapter.name, arguments) ∷ log in
      let again =
        invoke_from adapter name arguments max_transient_retries fuel (retry_count + 1) invoked in
      settle_attempt name max_transient_retries retry_count again attempt invoked

  -- a denial before any invocation
  abbrev pub denial :
      Option ApprovedToolName
      → GatewayReasonCode
      → Log Arguments
      → Option (Outcome Arguments Evidence Proposal)
  denial name code log = some (observation name ToolStatus.denied code 0 none, log)

  -- from the look-up of the adapter on
  unfoldable pub execute_with :
      AuthorizationScope
      → Arguments
      → ℕ
      → ApprovedToolName
      → Log Arguments
      → Option (ApprovedToolAdapter Arguments Evidence Proposal)
      → Option (Outcome Arguments Evidence Proposal)
  unfolding invoke_from
  execute_with scope arguments max_transient_retries name log none =
      denial (some name) unknown_tool log
  execute_with scope arguments max_transient_retries name log (some adapter) =
      if not (has_capability scope adapter.required_capability)
      then denial (some name) authorization_denied log
      else elim (adapter.validate_input arguments) [
        | none ↦ denial (some name) input_schema_rejected log
        | some validated_input ↦
            invoke_from adapter name validated_input max_transient_retries
              (max_transient_retries + 1) 0 log
      ]

  abbrev pub lookup :
      List (ApprovedToolAdapter Arguments Evidence Proposal)
      → ApprovedToolName
      → Option (ApprovedToolAdapter Arguments Evidence Proposal)
  lookup adapters name =
      find? (λ (a : ApprovedToolAdapter Arguments Evidence Proposal). a.name == name) adapters

  -- from the test of the shortlist on
  unfoldable pub execute_named :
      List (ApprovedToolAdapter Arguments Evidence Proposal)
      → ℕ
      → Option ApprovedToolName
      → Arguments
      → AuthorizationScope
      → List String
      → Log Arguments
      → Option (Outcome Arguments Evidence Proposal)
  unfolding execute_with
  execute_named adapters max_transient_retries none arguments scope permitted_tools log =
      denial none unknown_tool log
  execute_named adapters max_transient_retries (some name) arguments scope permitted_tools log =
      if not (contains permitted_tools (tool_value name))
      then denial (some name) tool_not_shortlisted log
      else execute_with scope arguments max_transient_retries name log (lookup adapters name)

  -- `execute`, with a log of its own
  unfoldable pub execute :
      List (ApprovedToolAdapter Arguments Evidence Proposal)
      → ℕ
      → String
      → Arguments
      → AuthorizationScope
      → List String
      → Option (Outcome Arguments Evidence Proposal)
  unfolding execute_named
  execute adapters max_transient_retries tool_name arguments scope permitted_tools =
      execute_named adapters max_transient_retries (approved_tool_name tool_name) arguments scope
        permitted_tools []

  -- `StructuredToolObservation.enforce_payload_shape`: whether the validator accepts
  abbrev pub kinds : StructuredToolObservation Arguments Evidence Proposal → ℕ
  kinds o =
      (if is_empty o.evidence then 0 else 1)
      + ((if is_empty o.calculations then 0 else 1)
          + ((if is_empty o.memories then 0 else 1) + (if is_some o.memory_proposal then 1 else 0)))

  unfoldable pub enforce_payload_shape :
      StructuredToolObservation Arguments Evidence Proposal → Bool
  enforce_payload_shape o =
      if not (o.status == ToolStatus.completed) && ltb 0 (kinds o)
      then false
      else if ltb 1 (kinds o)
      then false
      else true
