-- ===== src/Agent/Loop/Types.antt =====
-- agent/models.py, agent/loop.py, models/agent_runs.py and calculations/contracts.py: the data of
-- the loop. Random ids and the request id are left out, since nothing reads them. A Python float
-- stands as its 64-bit pattern, since the loop only hands it on.
use secure_portfolio_copilot.Base.{
  Bool, Eq, List, List-eq, Option, Option-eq, String, String-eq, enum_eq, ℕ, ℕ-eq,
}
use secure_portfolio_copilot.Text.{Text}
use secure_portfolio_copilot.Grounding.{GroundedEvidence, GroundedClaimData, GroundedCitationData}
use secure_portfolio_copilot.Agent.Models.{ActionArguments, Action, Plan, CompletedStep}

pub data TerminalStatus : Type 0 where
  completed refused needs_clarification insufficient_evidence limit_reached failed : TerminalStatus

unfoldable pub TerminalStatus-discrete : Discrete TerminalStatus
TerminalStatus-discrete = hlevel

instance abbrev pub TerminalStatus-eq : Eq TerminalStatus
TerminalStatus-eq = enum_eq TerminalStatus-discrete

pub data StoppingReason : Type 0 where
  is_completed request_refused clarification_required : StoppingReason
  insufficient_authorized_evidence scope_denied max_steps : StoppingReason
  max_retrieval_rewrites max_replans max_duration : StoppingReason
  tool_timeout tool_error model_error malformed_action : StoppingReason
  plan_exhausted citation_validation_failed : StoppingReason

pub data TraceEventType : Type 0 where
  perception policy decision gateway tool observation finalization terminal : TraceEventType

pub data TraceStatus : Type 0 where
  started completed denied timeout failed terminated : TraceStatus

pub record TraceEvent : Type 0 where
  pub event_type : TraceEventType
  pub action_name : Option String
  pub status : TraceStatus
  pub duration_ms : ℕ
  pub evidence_reference_ids : List String
  pub reason_code : String

pub data GoalStatus : Type 0 where
  pending advanced satisfied blocked : GoalStatus

pub data PerceptionIntent : Type 0 where
  financial_lookup legal_lookup cross_domain_analysis portfolio_comparison : PerceptionIntent
  calculation_required memory_recall memory_write clarification unsupported : PerceptionIntent

-- The fields of a perception that the loop itself reads; the rest goes from provider to provider.
pub record PerceptionSnapshot : Type 0 where
  pub intent : PerceptionIntent
  pub local_goal_status : GoalStatus
  pub global_goal_status : GoalStatus

pub record RemainingBudgets : Type 0 where
  pub tool_steps : ℕ
  pub retrieval_rewrites : ℕ
  pub replans : ℕ
  pub latest_tool_retries : ℕ
  pub duration_ms : ℕ

pub data ObservationStatus : Type 0 where
  success denied timeout error : ObservationStatus

unfoldable pub ObservationStatus-discrete : Discrete ObservationStatus
ObservationStatus-discrete = hlevel

instance abbrev pub ObservationStatus-eq : Eq ObservationStatus
ObservationStatus-eq = enum_eq ObservationStatus-discrete

-- calculations/contracts.py
pub data CalculationMetric : Type 0 where
  financial_metric ebitda_margin revenue_growth net_profit_margin : CalculationMetric
  debt_to_equity cash_runway cagr : CalculationMetric

pub data CalculationUnit : Type 0 where
  percent times months inr_crore : CalculationUnit

pub data InputUnit : Type 0 where
  crore crore_per_month : InputUnit

pub record TrustedCalculationInput : Type 0 where
  pub name : Text
  pub period : Text
  pub value : ℕ
  pub unit : InputUnit

pub record CalculationResult : Type 0 where
  pub calculation_id : ℕ
  pub metric : CalculationMetric
  pub company_slug : Text
  pub period : Text
  pub formula : Text
  pub trusted_inputs : List TrustedCalculationInput
  pub result : ℕ
  pub unit : CalculationUnit

pub record MemoryToolItem : Type 0 where
  pub memory_id : ℕ
  pub summary : Text

pub record StructuredObservation : Type 0 where
  pub tool_name : String
  pub status : ObservationStatus
  pub evidence : List GroundedEvidence
  pub calculations : List CalculationResult
  pub memory_context : List MemoryToolItem
  pub memory_notification : Option Text
  pub duration_ms : ℕ
  pub retry_count : ℕ
  pub reason_code : String

-- the literals of `SafeStepSnapshot.status` and `.policy_decision`
pub data SafeStatus : Type 0 where
  completed denied timeout failed : SafeStatus

pub data StepPolicy : Type 0 where
  allowed denied : StepPolicy

unfoldable pub SafeStatus-discrete : Discrete SafeStatus
SafeStatus-discrete = hlevel

instance abbrev pub SafeStatus-eq : Eq SafeStatus
SafeStatus-eq = enum_eq SafeStatus-discrete

unfoldable pub StepPolicy-discrete : Discrete StepPolicy
StepPolicy-discrete = hlevel

instance abbrev pub StepPolicy-eq : Eq StepPolicy
StepPolicy-eq = enum_eq StepPolicy-discrete

pub record SafeStepSnapshot : Type 0 where
  pub plan_version : ℕ
  pub plan_step_index : ℕ
  pub tool_name : String
  pub action_argument_hash : String
  pub status : SafeStatus
  pub policy_decision : StepPolicy
  pub reason_code : String
  pub duration_ms : ℕ

pub record SafeObservationSnapshot : Type 0 where
  pub status : ObservationStatus
  pub reason_code : String
  pub document_ids : List ℕ
  pub chunk_ids : List ℕ
  pub citation_ids : List String
  pub retry_count : ℕ
  pub duration_ms : ℕ

pub record AgentLoopLimits : Type 0 where
  pub max_steps : ℕ
  pub max_retrieval_rewrites : ℕ
  pub max_replans : ℕ
  pub max_duration_ms : ℕ

-- schemas/chat.py
pub record CalculationInputData : Type 0 where
  pub name : Text
  pub period : Text
  pub value : ℕ
  pub unit : InputUnit
  pub citation_id : String

pub record CalculationData : Type 0 where
  pub calculation_id : ℕ
  pub metric : CalculationMetric
  pub company_slug : Text
  pub period : Text
  pub formula : Text
  pub trusted_inputs : List CalculationInputData
  pub result : ℕ
  pub unit : CalculationUnit
  pub citation_ids : List String

pub data RunPolicy : Type 0 where
  not_evaluated allowed denied : RunPolicy

-- `AgentSession`, without what is fixed for the request
pub record AgentSession : Type 0 where
  pub perceptions : List PerceptionSnapshot
  pub plans : List Plan
  pub completed_steps : List CompletedStep
  pub observations : List StructuredObservation
  pub safe_steps : List SafeStepSnapshot
  pub safe_observations : List SafeObservationSnapshot

pub record AgentRunOutcome : Type 0 where
  pub terminal_status : TerminalStatus
  pub stopping_reason : StoppingReason
  pub answer : Text
  pub claims : List GroundedClaimData
  pub citations : List GroundedCitationData
  pub limitations : List Text
  pub calculations : List CalculationData
  pub memory_proposal : Option ActionArguments
  pub step_count : ℕ
  pub replan_count : ℕ
  pub retry_count : ℕ
  pub trace : List TraceEvent
  pub selected_intent : Option PerceptionIntent
  pub policy_decision : RunPolicy
  pub tool_shortlist : List String
  pub plan_version : Option ℕ
  pub evidence_advanced_goal : Bool
  pub plan_versions : List Plan
  pub safe_steps : List SafeStepSnapshot
  pub safe_observations : List SafeObservationSnapshot
  pub input_tokens : Option ℕ
  pub output_tokens : Option ℕ

-- The keyword arguments of `_terminal`.
pub record Content : Type 0 where
  pub answer : Text
  pub claims : List GroundedClaimData
  pub citations : List GroundedCitationData
  pub limitations : List Text
  pub calculations : List CalculationData
  pub memory_proposal : Option ActionArguments
  pub input_tokens : Option ℕ
  pub output_tokens : Option ℕ

-- models/agent_runs.py
pub data AgentControlMode : Type 0 where
  guided balanced autonomous : AgentControlMode

unfoldable pub AgentControlMode-discrete : Discrete AgentControlMode
AgentControlMode-discrete = hlevel

instance abbrev pub AgentControlMode-eq : Eq AgentControlMode
AgentControlMode-eq = enum_eq AgentControlMode-discrete

pub data ApprovalRiskClass : Type 0 where
  low_read_only sensitive expensive state_changing budget_expanding : ApprovalRiskClass
  always_require_approval : ApprovalRiskClass

unfoldable pub ApprovalRiskClass-discrete : Discrete ApprovalRiskClass
ApprovalRiskClass-discrete = hlevel

instance abbrev pub ApprovalRiskClass-eq : Eq ApprovalRiskClass
ApprovalRiskClass-eq = enum_eq ApprovalRiskClass-discrete

-- The exception by which the loop asks for an approval.
pub record ApprovalRequired : Type 0 where
  pub action : Action
  pub action_hash : String
  pub plan_version : ℕ
  pub proposed_step_number : ℕ
  pub plans : List Plan
  pub step_count : ℕ
  pub remaining_tools : ℕ
  pub risk_class : ApprovalRiskClass
  pub safe_steps : List SafeStepSnapshot
  pub safe_observations : List SafeObservationSnapshot

pub record ReconstructedStep : Type 0 where
  pub action_hash : String
  pub observation : StructuredObservation
