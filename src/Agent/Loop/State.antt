-- ===== src/Agent/Loop/State.antt =====
-- agent/loop.py: the variables of `AgentLoop.run`, its exits, `_event` and `_terminal`.
use secure_portfolio_copilot.Base.{
  Bool, List, List-eq, Option, Option-eq, String, String-eq, [], any, contains, false,
  if◌then◌else◌, is_empty, none, not, some, true, ℕ, ℕ-eq, ◌&&◌, ◌++◌, ◌==◌, ◌||◌, ◌∷◌,
}
use secure_portfolio_copilot.Text.{Text, codes}
use secure_portfolio_copilot.Grounding.{GroundedEvidence}
use secure_portfolio_copilot.Agent.Models.{Action, Plan, DecisionResult}
use secure_portfolio_copilot.Agent.PlanState.{PlanState, PlanError}
use secure_portfolio_copilot.Agent.Loop.Types.{
  TerminalStatus, TerminalStatus-eq, StoppingReason, TraceEventType, TraceStatus, TraceEvent,
  GoalStatus, PerceptionSnapshot, SafeStepSnapshot, StepPolicy, RunPolicy, AgentSession,
  AgentRunOutcome, AgentLoopLimits, AgentControlMode, ApprovalRequired, ReconstructedStep, Content,
  is_completed, request_refused, clarification_required, insufficient_authorized_evidence,
  scope_denied, max_steps, max_retrieval_rewrites, max_replans, max_duration, tool_timeout,
  tool_error, model_error, malformed_action, plan_exhausted, citation_validation_failed, terminal,
  terminated, advanced, satisfied, not_evaluated, PerceptionIntent,
}

-- What a run is asked, and the loop's limits.
pub record Request : Type 0 where
  pub query : Text
  pub permitted_tools : List String
  pub agent_control_mode : AgentControlMode
  pub limits : AgentLoopLimits
  pub started : ℕ

-- `reconstructed_steps` are those that `reconstructed_index` has not passed; `evidence_by_id` are
-- the values of that dict in order; `ticks` counts the readings of the clock; `calls` are the
-- actions handed to the gateway, latest first.
pub record LoopState : Type 0 where
  pub session : AgentSession
  pub trace : List TraceEvent
  pub evidence_by_id : List GroundedEvidence
  pub step_count : ℕ
  pub replan_count : ℕ
  pub retry_count : ℕ
  pub retrieval_count : ℕ
  pub reconstructed_steps : List ReconstructedStep
  pub approved_action_hash : Option String
  pub ticks : ℕ
  pub calls : List Action

-- The variables that are there once the first decision is made.
pub record Turn : Type 0 where
  pub plan_state : PlanState
  pub decision : DecisionResult
  pub perception : PerceptionSnapshot

-- `plan_error` is a `PlanContractError` that escapes, `validation_error` a `ValidationError` of
-- pydantic or a `ValueError`.
pub data Exit : Type 0 where
  finished : AgentRunOutcome → Exit
  approval_required : ApprovalRequired → Exit
  reconstruction_mismatch : Exit
  plan_error : PlanError → Exit
  validation_error : Exit

-- A phase ends the run in a state, or hands its result on.
pub data Progress (A : Type 0) : Type 0 where
  exits : Exit → LoopState → Progress A
  goes_on : A → Progress A

infixl 10 ◌>>=◌
abbrev pub ◌>>=◌ : {A B : Type 0} → Progress A → (A → Progress B) → Progress B
exits exit state >>= next = exits exit state
goes_on a >>= next = next a

abbrev pub search_tool : String
search_tool = "portfolio.search_authorized_documents"

abbrev pub excerpt_tool : String
excerpt_tool = "portfolio.get_document_excerpt"

abbrev pub trace_safe_tool_names : List String
trace_safe_tool_names =
    search_tool ∷ excerpt_tool ∷ "portfolio.calculate_ebitda_margin"
    ∷ "portfolio.calculate_revenue_growth" ∷ "portfolio.calculate_net_profit_margin"
    ∷ "portfolio.query_financial_metrics" ∷ "portfolio.calculate_debt_to_equity"
    ∷ "portfolio.calculate_cash_runway" ∷ "portfolio.calculate_cagr" ∷ "portfolio.search_memory"
    ∷ "portfolio.propose_memory" ∷ []

unfoldable pub safe_name : Option String → Option String
safe_name none = none
safe_name (some name) = if contains trace_safe_tool_names name then some name else none

-- `_event`; a duration is never negative
unfoldable pub event :
    TraceEventType → TraceStatus → String → Option String → ℕ → List String → TraceEvent
unfolding safe_name
event event_type status reason_code action_name duration_ms evidence_ids = record {
  event_type = event_type;
  action_name = safe_name action_name;
  status = status;
  duration_ms = duration_ms;
  evidence_reference_ids = evidence_ids;
  reason_code = reason_code;
}

-- `trace.append(self._event(…))`
abbrev pub log : TraceEvent → LoopState → LoopState
log e state = record state { trace = state.trace ++ e ∷ [] }

-- `reason.value.upper()`
unfoldable pub reason_value : StoppingReason → String
reason_value is_completed = "COMPLETED"
reason_value request_refused = "REQUEST_REFUSED"
reason_value clarification_required = "CLARIFICATION_REQUIRED"
reason_value insufficient_authorized_evidence = "INSUFFICIENT_AUTHORIZED_EVIDENCE"
reason_value scope_denied = "SCOPE_DENIED"
reason_value max_steps = "MAX_STEPS"
reason_value max_retrieval_rewrites = "MAX_RETRIEVAL_REWRITES"
reason_value max_replans = "MAX_REPLANS"
reason_value max_duration = "DURATION"
reason_value tool_timeout = "TOOL_TIMEOUT"
reason_value tool_error = "TOOL_ERROR"
reason_value model_error = "MODEL_ERROR"
reason_value malformed_action = "MALFORMED_ACTION"
reason_value plan_exhausted = "PLAN_EXHAUSTED"
reason_value citation_validation_failed = "CITATION_VALIDATION_FAILED"

abbrev pub plain : Text → Content
plain answer = record {
  answer = answer;
  claims = [];
  citations = [];
  limitations = [];
  calculations = [];
  memory_proposal = none;
  input_tokens = none;
  output_tokens = none;
}

unfoldable pub insufficient_text : Text
insufficient_text = codes "I don't have sufficient authorized evidence to answer that question."

unfoldable pub refused_text : Text
refused_text = codes "I can't perform that request within your authorized scope."

unfoldable pub clarify_text : Text
clarify_text = codes "Please clarify the document question you want answered."

unfoldable pub failed_text : Text
failed_text = codes "The agent could not complete the request safely."

abbrev is_denied : SafeStepSnapshot → Bool
is_denied step = elim step.policy_decision [ StepPolicy.denied ↦ true | StepPolicy.allowed ↦ false ]

-- every step is either denied or allowed
unfoldable pub run_policy : List SafeStepSnapshot → RunPolicy
run_policy [] = not_evaluated
run_policy (step ∷ steps) =
    if any is_denied (step ∷ steps) then RunPolicy.denied else RunPolicy.allowed

abbrev is_advance : GoalStatus → Bool
is_advance advanced = true
is_advance satisfied = true
is_advance _ = false

abbrev advances : PerceptionSnapshot → Bool
advances p = is_advance p.local_goal_status || is_advance p.global_goal_status

-- over `perceptions[1:]`
unfoldable pub evidence_advances : List PerceptionSnapshot → Bool
evidence_advances [] = false
evidence_advances (first ∷ later) = any advances later

unfoldable pub first_intent : List PerceptionSnapshot → Option PerceptionIntent
first_intent [] = none
first_intent (p ∷ ps) = some p.intent

unfoldable pub last_version : List Plan → Option ℕ
last_version [] = none
last_version (plan ∷ []) = some plan.version
last_version (plan ∷ next ∷ plans) = last_version (next ∷ plans)

unfoldable pub outcome :
    Request → LoopState → TerminalStatus → StoppingReason → Content → AgentRunOutcome
outcome request state status reason content = record {
  terminal_status = status;
  stopping_reason = reason;
  answer = content.answer;
  claims = content.claims;
  citations = content.citations;
  limitations = content.limitations;
  calculations = content.calculations;
  memory_proposal = content.memory_proposal;
  step_count = state.step_count;
  replan_count = state.replan_count;
  retry_count = state.retry_count;
  trace = state.trace;
  selected_intent = first_intent state.session.perceptions;
  policy_decision = run_policy state.session.safe_steps;
  tool_shortlist = request.permitted_tools;
  plan_version = last_version state.session.plans;
  evidence_advanced_goal = evidence_advances state.session.perceptions;
  plan_versions = state.session.plans;
  safe_steps = state.session.safe_steps;
  safe_observations = state.session.safe_observations;
  input_tokens = content.input_tokens;
  output_tokens = content.output_tokens;
}

-- `_terminal`
unfoldable pub terminate :
    {A : Type 0} → Request → LoopState → TerminalStatus → StoppingReason → Content → Progress A
terminate request state status reason content =
    let trace_status =
      if status == TerminalStatus.completed then TraceStatus.completed else terminated in
    let ended = log (event terminal trace_status (reason_value reason) none 0 []) state in
    if not (status == TerminalStatus.completed)
      && (not (is_empty content.claims)
          || (not (is_empty content.citations) || not (is_empty content.calculations)))
    then exits validation_error state
    else exits (finished (outcome request ended status reason content)) ended
