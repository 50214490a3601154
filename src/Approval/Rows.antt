-- ===== src/Approval/Rows.antt =====
-- models/agent_runs.py and models/chat.py: the rows, and the look-ups and updates by primary key.
-- A run holds the rows that refer to it, in the order in which the queries return them; a database
-- maps ids to rows. A UUID is a number, a time is in milliseconds, and columns that nothing here
-- reads are left out.
use secure_portfolio_copilot.Base.{
  Eq, List, List-eq, Option, Option-eq, String, String-eq, [], all, enum_eq, find?, if◌then◌else◌,
  map, none, some, ℕ, ℕ-eq, ◌==◌, ◌∷◌,
}
use secure_portfolio_copilot.Policy.{TrustedIdentity, AuthorizationScope, AuthorizationGrant}
use secure_portfolio_copilot.Lifecycle.RunState.{transition_run, AgentRunStatus, AgentRun}
use secure_portfolio_copilot.Text.{Text}
use secure_portfolio_copilot.Routing.{ResponseMode}
use secure_portfolio_copilot.Agent.Loop.Types.{
  ApprovalRiskClass, AgentControlMode, ObservationStatus, SafeStatus, StepPolicy,
}

pub data ApprovalStatus : Type 0 where
  pending approved rejected superseded expired cancelled consumed : ApprovalStatus

unfoldable pub ApprovalStatus-discrete : Discrete ApprovalStatus
ApprovalStatus-discrete = hlevel

instance abbrev pub ApprovalStatus-eq : Eq ApprovalStatus
ApprovalStatus-eq = enum_eq ApprovalStatus-discrete

pub record AgentApprovalRequest : Type 0 where
  pub id : ℕ
  pub plan_version : ℕ
  pub proposed_step_number : ℕ
  pub action_name : String
  pub tool_name : String
  pub action_argument_hash : String
  pub authorization_scope_fingerprint : String
  pub approval_risk_class : ApprovalRiskClass
  pub status : ApprovalStatus
  pub expires_at : ℕ
  pub resolved_at : Option ℕ
  pub consumed_at : Option ℕ
  pub resolver_user_id : Option ℕ

pub record AgentPlanVersion : Type 0 where
  pub version : ℕ
  pub change_reason_code : String
  pub planned_step_count : ℕ

pub record AgentObservationRecord : Type 0 where
  pub status : ObservationStatus
  pub safe_reason_code : String
  pub authorized_document_ids : List ℕ
  pub authorized_chunk_ids : List ℕ
  pub citation_ids : List String
  pub evidence_count : ℕ
  pub retry_count : ℕ
  pub duration_ms : ℕ

pub record AgentStep : Type 0 where
  pub step_number : ℕ
  pub plan_version : ℕ
  pub plan_step_index : ℕ
  pub tool_name : String
  pub action_argument_hash : String
  pub status : SafeStatus
  pub policy_decision : StepPolicy
  pub safe_reason_code : String
  pub duration_ms : ℕ
  pub observation : Option AgentObservationRecord

-- `lifecycle` are the columns that `transition_run` reads and writes.
pub record RunRow : Type 0 where
  pub id : ℕ
  pub conversation_id : ℕ
  pub tenant_id : ℕ
  pub user_id : ℕ
  pub response_mode : ResponseMode
  pub agent_control_mode : AgentControlMode
  pub lifecycle : AgentRun
  pub plan_version_count : ℕ
  pub step_count : ℕ
  pub observation_count : ℕ
  pub retry_count : ℕ
  pub duration_ms : ℕ
  pub initial_user_message_id : Option ℕ
  pub plan_versions : List AgentPlanVersion
  pub steps : List AgentStep
  pub approval_requests : List AgentApprovalRequest

pub data MessageRole : Type 0 where
  user assistant : MessageRole

unfoldable pub MessageRole-discrete : Discrete MessageRole
MessageRole-discrete = hlevel

instance abbrev pub MessageRole-eq : Eq MessageRole
MessageRole-eq = enum_eq MessageRole-discrete

pub record Message : Type 0 where
  pub conversation_id : ℕ
  pub user_id : ℕ
  pub role : MessageRole
  pub content : Text

pub record Database : Type 0 where
  pub runs : ℕ → Option RunRow
  pub messages : ℕ → Option Message

-- policies/models.py
pub record AuthorizationContext : Type 0 where
  pub identity : TrustedIdentity
  pub scope : AuthorizationScope

abbrev pub put_run : RunRow → Database → Database
put_run run db = record db { runs = λ id. if id == run.id then some run else db.runs id }

abbrev pub put_message : ℕ → Message → Database → Database
put_message id message db = record db {
  messages = λ i. if i == id then some message else db.messages i;
}

-- the approval of a run with an id
abbrev pub approval_of : ℕ → List AgentApprovalRequest → Option AgentApprovalRequest
approval_of id approvals = find? (λ (a : AgentApprovalRequest). a.id == id) approvals

-- an update of the row with its id
unfoldable pub put_approval :
    AgentApprovalRequest → List AgentApprovalRequest → List AgentApprovalRequest
put_approval row [] = []
put_approval row (a ∷ approvals) =
    let rest = put_approval row approvals in if a.id == row.id then row ∷ approvals else a ∷ rest

-- `resolve_home_tenant_id` of chat/scope_guard.py; `none` is the error 403
abbrev pub home_tenants : AuthorizationContext → List ℕ
home_tenants context = map (λ (g : AuthorizationGrant). g.home_tenant_id) context.scope.grants

unfoldable pub single : List ℕ → Option ℕ
single [] = none
single (id ∷ ids) = if all (λ other. other == id) ids then some id else none

abbrev pub resolve_home_tenant_id : AuthorizationContext → Option ℕ
resolve_home_tenant_id context = single (home_tenants context)

-- `transition_run` on the row of a run; `none` is an exception
unfoldable pub with_lifecycle : RunRow → Option AgentRun → Option RunRow
with_lifecycle run none = none
with_lifecycle run (some lifecycle) = some (record run { lifecycle = lifecycle })

abbrev pub move : RunRow → AgentRunStatus → String → ℕ → Option RunRow
move run target reason_code now =
    with_lifecycle run (transition_run run.lifecycle target reason_code now)
