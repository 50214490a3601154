-- ===== src/Agent/Loop/Finish.antt =====
-- agent/loop.py: the awaited model calls, `_finalize` and `_finalize_calculations`.
use secure_portfolio_copilot.Base.{
  List, List-eq, Option-eq, String, String-eq, [], if◌then◌else◌, is_empty, length, map, none, not,
  suc, zero, ℕ, ℕ-eq, ◌++◌, ◌+◌, ◌-◌, ◌==◌, ◌∷◌,
}
use secure_portfolio_copilot.Text.{Text, codes, collapse, join, decimal}
use secure_portfolio_copilot.Grounding.{
  GroundedEvidence, GroundedClaimData, GroundedCitationData, ValidatedAnswer, Checked, rejected,
  passed, citation, evidence_ids, validate_grounded_answer,
}
use secure_portfolio_copilot.Agent.Loop.Types.{
  Content, TerminalStatus, TraceStatus, CalculationMetric, CalculationResult, CalculationUnit,
  CalculationInputData, TrustedCalculationInput, MemoryToolItem, max_duration, model_error,
  tool_error, insufficient_authorized_evidence, citation_validation_failed, is_completed,
  finalization, percent, times, months, inr_crore, financial_metric, ebitda_margin, revenue_growth,
  net_profit_margin, debt_to_equity, cash_runway, cagr,
}
use secure_portfolio_copilot.Agent.Loop.Environment.{
  Environment, ModelAttempt, answered, model_timeout, model_failed, LlmGeneration,
}
use secure_portfolio_copilot.Agent.Loop.State.{
  Request, LoopState, Progress, exits, goes_on, ◌>>=◌, event, log, plain, failed_text,
  insufficient_text, terminate, Exit,
}

abbrev pub tick : LoopState → LoopState
tick state = record state { ticks = state.ticks + 1 }

-- `max_duration_seconds - (clock() - started)`, 0 where that is not positive
abbrev pub remaining_ms : Environment → Request → LoopState → ℕ
remaining_ms env request state =
    request.limits.max_duration_ms - (env.clock state.ticks - request.started)

-- `_within_budget` of a model's call
abbrev pub within_budget : {A : Type 0} → ℕ → (ℕ → ModelAttempt A) → ModelAttempt A
within_budget zero call = model_timeout
within_budget (suc left) call = call (suc left)

-- the `except` clauses round the model calls
unfoldable pub settle :
    {A : Type 0} → Request → LoopState → ModelAttempt A → Progress (A × LoopState)
settle request state (answered a) = goes_on (a, state)
settle request state model_timeout =
    terminate request state TerminalStatus.limit_reached max_duration (plain failed_text)
settle request state model_failed =
    terminate request state TerminalStatus.failed model_error (plain failed_text)

unfoldable pub awaited :
    {A : Type 0}
    → Environment
    → Request
    → LoopState
    → (ℕ → ModelAttempt A)
    → Progress (A × LoopState)
unfolding settle
awaited env request state call =
    settle request (tick state) (within_budget (remaining_ms env request state) call)

-- `f"{claim.text} [{', '.join(claim.citation_ids)}]"`
abbrev pub render_citations : List String → Text
render_citations ids = join (codes ", ") (map codes ids)

unfoldable pub render_claim : GroundedClaimData → Text
render_claim claim =
    claim.text ++ (codes " [" ++ (render_citations claim.citation_ids ++ codes "]"))

-- from `validate_grounded_answer` on
unfoldable pub finalize_checked :
    {A : Type 0} → Request → LoopState → LlmGeneration → Checked ValidatedAnswer → Progress A
unfolding render_claim
finalize_checked request state generation (rejected code) =
    terminate request state TerminalStatus.insufficient_evidence citation_validation_failed
      (plain insufficient_text)
finalize_checked request state generation (passed validated) =
    let ids = map (λ (c : GroundedCitationData). c.citation_id) validated.citations in
    let content : Content = record {
      answer = join (codes " ") (map render_claim validated.claims);
      claims = validated.claims;
      citations = validated.citations;
      limitations = validated.limitations;
      calculations = [];
      memory_proposal = none;
      input_tokens = generation.input_tokens;
      output_tokens = generation.output_tokens;
    } in
    terminate request
      (log (event finalization TraceStatus.completed "CITATIONS_VALIDATED" none 0 ids) state)
      TerminalStatus.completed is_completed content

-- `_finalize`
unfoldable pub finalize : {A : Type 0} → Environment → Request → LoopState → Progress A
unfolding finalize_checked
finalize env request state =
    let evidence = state.evidence_by_id in
    if is_empty evidence
    then terminate request state TerminalStatus.insufficient_evidence
        insufficient_authorized_evidence (plain insufficient_text)
    else do
      (generation, after) ←
          awaited env request
            (log
              (event finalization TraceStatus.started "FINALIZATION_STARTED" none 0
                (evidence_ids evidence))
              state)
            (env.generate request.query evidence)
      finalize_checked request after generation
          (validate_grounded_answer generation.answer evidence)

-- the dict of labels
unfoldable pub metric_label : CalculationMetric → Text → Text
metric_label financial_metric name = name
metric_label ebitda_margin name = codes "EBITDA margin"
metric_label revenue_growth name = codes "Revenue growth"
metric_label net_profit_margin name = codes "Net profit margin"
metric_label debt_to_equity name = codes "Debt-to-equity"
metric_label cash_runway name = codes "Stress-case cash runway"
metric_label cagr name = codes "Revenue CAGR"

unfoldable pub unit_suffix : CalculationUnit → Text
unit_suffix percent = codes "%"
unit_suffix times = codes " x"
unit_suffix months = codes " months"
unit_suffix inr_crore = codes " INR crore"

-- `zip(trusted_inputs, evidence, strict=True)`, after the lengths were compared
unfoldable pub input_data :
    List TrustedCalculationInput → List GroundedEvidence → List CalculationInputData
input_data (trusted ∷ inputs) (source ∷ sources) =
    record {
      name = trusted.name;
      period = trusted.period;
      value = trusted.value;
      unit = trusted.unit;
      citation_id = source.evidence_id;
    }
    ∷ input_data inputs sources
input_data _ _ = []

unfoldable pub claim_text : Environment → CalculationResult → Text → Text
unfolding metric_label unit_suffix
claim_text env calculation name =
    metric_label calculation.metric name
    ++ (codes " for "
        ++ (calculation.company_slug
            ++ (codes " in "
                ++ (calculation.period
                    ++ (codes " is "
                        ++ (env.fixed2 calculation.result
                            ++ (unit_suffix calculation.unit ++ codes ".")))))))

-- the rest of `_finalize_calculations`, on the one calculation and its first input's name
unfoldable pub finalize_calculation :
    {A : Type 0}
    → Environment
    → Request
    → LoopState
    → CalculationResult
    → Text
    → List GroundedEvidence
    → Progress A
unfolding input_data claim_text
finalize_calculation env request state calculation name evidence =
    let ids = evidence_ids evidence in
    let claim = claim_text env calculation name in
    let content : Content = record {
      answer = collapse (
          claim
          ++ (codes " ["
              ++ (render_citations ids
                  ++ (codes "] Formula: " ++ (calculation.formula ++ codes ".")))));
      claims = record { text = claim; citation_ids = ids } ∷ [];
      citations = map citation evidence;
      limitations = [];
      calculations =
          record {
            calculation_id = calculation.calculation_id;
            metric = calculation.metric;
            company_slug = calculation.company_slug;
            period = calculation.period;
            formula = calculation.formula;
            trusted_inputs = input_data calculation.trusted_inputs evidence;
            result = calculation.result;
            unit = calculation.unit;
            citation_ids = ids;
          }
          ∷ [];
      memory_proposal = none;
      input_tokens = none;
      output_tokens = none;
    } in
    terminate request
      (log
        (event finalization TraceStatus.completed "DETERMINISTIC_CALCULATION_VALIDATED" none 0 ids)
        state)
      TerminalStatus.completed is_completed content

-- `trusted_inputs[0]` raises where there are none; pydantic's `min_length=1` rules that out
unfoldable pub finalize_inputs :
    {A : Type 0}
    → Environment
    → Request
    → LoopState
    → CalculationResult
    → List TrustedCalculationInput
    → List GroundedEvidence
    → Progress A
unfolding finalize_calculation
finalize_inputs env request state calculation [] evidence = exits Exit.validation_error state
finalize_inputs env request state calculation (first ∷ inputs) evidence =
    finalize_calculation env request state calculation first.name evidence

-- `_finalize_calculations`
unfoldable pub finalize_calculations :
    {A : Type 0}
    → Environment
    → Request
    → LoopState
    → List CalculationResult
    → List GroundedEvidence
    → Progress A
unfolding finalize_inputs
finalize_calculations env request state (calculation ∷ []) evidence =
    if not (length evidence == length calculation.trusted_inputs)
    then terminate request state TerminalStatus.failed tool_error (plain failed_text)
    else finalize_inputs env request state calculation calculation.trusted_inputs evidence
finalize_calculations env request state _ evidence =
    terminate request state TerminalStatus.failed tool_error (plain failed_text)

-- The numbered summaries of the memory answer, from `index` on.
unfoldable pub render_summaries : ℕ → List MemoryToolItem → List Text
render_summaries index [] = []
render_summaries index (item ∷ items) =
    (decimal index ++ (codes ". " ++ item.summary)) ∷ render_summaries (index + 1) items

unfoldable pub memory_answer : List MemoryToolItem → Text
unfolding render_summaries
memory_answer [] = codes "I don’t have matching authorized private memory for that request."
memory_answer (item ∷ items) =
    codes "From your authorized private memory/history: "
    ++ (join (codes " ") (render_summaries 1 (item ∷ items))
        ++ codes " This is prior context, not current financial evidence.")
