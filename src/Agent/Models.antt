-- ===== src/Agent/Models.antt =====
-- backend/app/agent/models.py: actions, plans and decisions, with the validators that pydantic runs.
-- The patterns of names and the lengths of single texts are checked by pydantic and not read again.
use secure_portfolio_copilot.Base.{
  Bool, Eq, List, List-eq, Option, Option-eq, String, String-eq, [], contains, enum_eq, false,
  if◌then◌else◌, leb, length, none, not, some, suc, true, ℕ, ℕ-eq, ◌&&◌, ◌==◌, ◌∷◌,
}

pub data ActionType : Type 0 where
  tool_call finalize clarify refuse : ActionType

unfoldable pub ActionType-discrete : Discrete ActionType
ActionType-discrete = hlevel

instance abbrev pub ActionType-eq : Eq ActionType
ActionType-eq = enum_eq ActionType-discrete

pub data StepStatus : Type 0 where
  pending completed failed : StepStatus

unfoldable pub StepStatus-discrete : Discrete StepStatus
StepStatus-discrete = hlevel

instance abbrev pub StepStatus-eq : Eq StepStatus
StepStatus-eq = enum_eq StepStatus-discrete

-- mcp_gateway/contracts.py
pub data FinancialMetricName : Type 0 where
  revenue ebitda net_profit closing_cash bank_debt : FinancialMetricName

pub data MemoryMode : Type 0 where
  relevant latest_episode : MemoryMode

-- The union `ActionArguments`: the inputs of mcp_gateway/contracts.py, and `NoActionArguments`.
pub data ActionArguments : Type 0 where
  search_input : (query : String) (top_k : ℕ) → ActionArguments
  excerpt_input : (document_id chunk_id : ℕ) → ActionArguments
  metric_input : (company_slug reporting_period : String) → ActionArguments
  query_metrics_input :
      (company_slug reporting_period : String) → FinancialMetricName → ActionArguments
  cagr_input : (company_slug start_period end_period : String) → ActionArguments
  memory_search_input : (query : String) → MemoryMode → (top_k : ℕ) → ActionArguments
  memory_proposal_input : (content normalized_key : String) (explicit : Bool) → ActionArguments
  no_arguments : ActionArguments

pub record Action : Type 0 where
  pub type : ActionType
  pub action_name : Option String
  pub arguments : ActionArguments
  pub reason_code : String

-- `isinstance` tests; `QueryFinancialMetricsInput` is a subclass of `CalculateFinancialMetricInput`.
abbrev pub is_search : ActionArguments → Bool
is_search (search_input _ _) = true
is_search _ = false

abbrev pub is_excerpt : ActionArguments → Bool
is_excerpt (excerpt_input _ _) = true
is_excerpt _ = false

abbrev pub is_metric : ActionArguments → Bool
is_metric (metric_input _ _) = true
is_metric (query_metrics_input _ _ _) = true
is_metric _ = false

abbrev pub is_query_metrics : ActionArguments → Bool
is_query_metrics (query_metrics_input _ _ _) = true
is_query_metrics _ = false

abbrev pub is_cagr : ActionArguments → Bool
is_cagr (cagr_input _ _ _) = true
is_cagr _ = false

abbrev pub is_memory_search : ActionArguments → Bool
is_memory_search (memory_search_input _ _ _) = true
is_memory_search _ = false

abbrev pub is_memory_proposal : ActionArguments → Bool
is_memory_proposal (memory_proposal_input _ _ _) = true
is_memory_proposal _ = false

abbrev pub is_no_arguments : ActionArguments → Bool
is_no_arguments no_arguments = true
is_no_arguments _ = false

abbrev pub calculation_tools : List String
calculation_tools =
    "portfolio.calculate_ebitda_margin" ∷ "portfolio.calculate_revenue_growth"
    ∷ "portfolio.calculate_net_profit_margin" ∷ "portfolio.calculate_debt_to_equity"
    ∷ "portfolio.calculate_cash_runway" ∷ []

-- the checks of one tool's arguments in `Action.enforce_action_shape`
unfoldable pub tool_shape : String → ActionArguments → Bool
tool_shape name arguments =
    if (name == "portfolio.search_authorized_documents") && not (is_search arguments)
    then false
    else if (name == "portfolio.get_document_excerpt") && not (is_excerpt arguments)
    then false
    else if contains calculation_tools name && not (is_metric arguments)
    then false
    else if (name == "portfolio.query_financial_metrics") && not (is_query_metrics arguments)
    then false
    else if (name == "portfolio.calculate_cagr") && not (is_cagr arguments)
    then false
    else if (name == "portfolio.search_memory") && not (is_memory_search arguments)
    then false
    else if (name == "portfolio.propose_memory") && not (is_memory_proposal arguments)
    then false
    else true

unfoldable pub tool_action_shape : Option String → ActionArguments → Bool
tool_action_shape none _ = false
tool_action_shape (some name) arguments = tool_shape name arguments

abbrev pub is_none : Option String → Bool
is_none none = true
is_none (some _) = false

-- `Action.enforce_action_shape`: whether the validator accepts
pub enforce_action_shape : Action → Bool
enforce_action_shape action =
    if action.type == tool_call
    then tool_action_shape action.action_name action.arguments
    else is_none action.action_name && is_no_arguments action.arguments

pub record Step : Type 0 where
  pub step_index : ℕ
  pub action_type : ActionType
  pub action_name : Option String
  pub status : StepStatus
  pub reason_code : String

pub record Plan : Type 0 where
  pub version : ℕ
  pub plan_text : List String
  pub steps : List Step
  pub change_reason_code : String

-- `Plan.unique_ordered_steps`: the indices are `range(len(value))`
unfoldable pub ordered_from : ℕ → List Step → Bool
ordered_from n [] = true
ordered_from n (step ∷ steps) = (step.step_index == n) && ordered_from (suc n) steps

-- `Plan`, its field bounds and both of its validators
unfoldable pub validate_plan : Plan → Bool
unfolding ordered_from
validate_plan plan =
    leb 1 plan.version
    && (leb 1 (length plan.plan_text)
        && (leb (length plan.plan_text) 3
            && (leb 1 (length plan.steps)
                && (leb (length plan.steps) 3
                    && (ordered_from 0 plan.steps
                        && (length plan.plan_text == length plan.steps))))))

pub record DecisionResult : Type 0 where
  pub plan : Plan
  pub next_action : Action
  pub replan : Bool

pub record CompletedStep : Type 0 where
  pub plan_version : ℕ
  pub step_index : ℕ
  pub action_type : ActionType
  pub action_name : Option String
  pub status : StepStatus
  pub reason_code : String
