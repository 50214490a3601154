-- ===== src/Agent/Loop/Environment.antt =====
-- agent/contracts.py and agent/approval_security.py: what the loop calls. The model providers, the
-- gateway's tools, the clock and the digest are not code of the loop, so they are parameters.
use secure_portfolio_copilot.Base.{
  List, List-eq, Option, Option-eq, String, String-eq, [], contains, if◌then◌else◌, ℕ, ℕ-eq, ◌∷◌,
}
use secure_portfolio_copilot.Text.{Text}
use secure_portfolio_copilot.Grounding.{GroundedEvidence, GroundedAnswerDraft}
use secure_portfolio_copilot.Agent.Models.{Action, Plan, CompletedStep, DecisionResult}
use secure_portfolio_copilot.Agent.PlanState.{Json, text, arguments, name_json, type_value}
use secure_portfolio_copilot.Agent.Loop.Types.{
  PerceptionSnapshot, RemainingBudgets, StructuredObservation, ApprovalRiskClass, low_read_only,
  always_require_approval,
}

-- How an awaited call of a model ends: with a value, by the timeout, or by `AgentModelError`.
pub data ModelAttempt (A : Type 0) : Type 0 where
  answered : A → ModelAttempt A
  model_timeout : ModelAttempt A
  model_failed : ModelAttempt A

-- How a gateway call ends; `tool_raised` is any other exception.
pub data ToolAttempt : Type 0 where
  observed : StructuredObservation → ToolAttempt
  tool_timed_out : ToolAttempt
  tool_raised : ToolAttempt

-- chat/contracts.py, as far as the loop reads it
pub record LlmGeneration : Type 0 where
  pub answer : GroundedAnswerDraft
  pub input_tokens : Option ℕ
  pub output_tokens : Option ℕ

-- Each call is given the milliseconds that `asyncio.timeout` leaves it. `clock n` is the n-th
-- reading of the clock, in milliseconds.
pub record Environment : Type 0 where
  pub clock : ℕ → ℕ
  pub digest : List (String × Json) → String
  pub fixed2 : ℕ → Text
  pub perceive_user_query : Text → ℕ → ModelAttempt PerceptionSnapshot
  pub perceive_step_result :
      Text
      → PerceptionSnapshot
      → Plan
      → List CompletedStep
      → StructuredObservation
      → RemainingBudgets
      → ℕ
      → ModelAttempt PerceptionSnapshot
  pub decide_initial : Text → PerceptionSnapshot → List String → ℕ → ModelAttempt DecisionResult
  pub decide_mid_session :
      Text
      → PerceptionSnapshot
      → Plan
      → List CompletedStep
      → List String
      → ℕ
      → ModelAttempt DecisionResult
  pub execute : Action → List String → ℕ → ToolAttempt
  pub generate : Text → List GroundedEvidence → ℕ → ModelAttempt LlmGeneration

-- approval_security.py: the payload's keys are sorted by `json.dumps`
unfoldable pub canonical_action_hash : Environment → Action → String
unfolding type_value
canonical_action_hash env action = env.digest (
    ("action_name", name_json action.action_name)
    ∷ ("action_type", text (type_value action.type))
    ∷ ("arguments", arguments action.arguments)
    ∷ [])

abbrev pub low_risk_tools : List String
low_risk_tools =
    "portfolio.search_authorized_documents" ∷ "portfolio.get_document_excerpt"
    ∷ "portfolio.calculate_ebitda_margin" ∷ "portfolio.calculate_revenue_growth"
    ∷ "portfolio.calculate_net_profit_margin" ∷ "portfolio.query_financial_metrics"
    ∷ "portfolio.calculate_debt_to_equity" ∷ "portfolio.calculate_cash_runway"
    ∷ "portfolio.calculate_cagr" ∷ "portfolio.search_memory" ∷ []

unfoldable pub classify_tool_risk : String → ApprovalRiskClass
classify_tool_risk tool_name =
    if contains low_risk_tools tool_name then low_read_only else always_require_approval
