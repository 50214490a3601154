-- ===== src/Approval/Service.antt =====
-- agent/approval_service.py: `AgentApprovalService`. An operation returns its reply and the
-- database after it, which is the one before where nothing is committed. The row lock is held to
-- the commit, so an operation is one step.
use secure_portfolio_copilot.Base.{
  Bool, List, List-eq, Option, Option-eq, String, String-eq, [], if◌then◌else◌, is_some, length,
  max, none, not, option_beq, some, ℕ, ℕ-eq, ◌&&◌, ◌+◌, ◌==◌, ◌∷◌,
}
use secure_portfolio_copilot.Approval.Rows.{
  ApprovalStatus, ApprovalStatus-eq, AgentObservationRecord, AgentApprovalRequest, RunRow,
  AuthorizationContext, AgentPlanVersion, AgentStep,
}
use secure_portfolio_copilot.Grounding.{GroundedEvidence}
use secure_portfolio_copilot.Text.{codes, starts_with, Text}
use secure_portfolio_copilot.Gateway.{approved_tool_name}
use secure_portfolio_copilot.Policy.{AuthorizationScope}
use secure_portfolio_copilot.Routing.{ResponseMode}
use secure_portfolio_copilot.Agent.Loop.Types.{
  ObservationStatus-eq, ObservationStatus, AgentControlMode, ReconstructedStep,
}
use secure_portfolio_copilot.Lifecycle.RunState.{AgentRunStatus-eq, AgentRunStatus}

-- What is not in the rows: the digest of a scope, `GetDocumentExcerptAdapter.invoke` (`none` where
-- it raises or returns another payload, and the evidence without its id), and the query for
-- authorized chunks.
pub record Services : Type 0 where
  pub scope_fingerprint : AuthorizationScope → String
  pub excerpt : AuthorizationScope → ℕ → ℕ → Option (List GroundedEvidence)
  pub authorized : AuthorizationScope → List ℕ → List (ℕ × ℕ)

-- `APIError`, and any other exception
pub data Reply (A : Type 0) : Type 0 where
  ok : A → Reply A
  api_error : (status_code : ℕ) (code : String) → Reply A
  raised : Reply A

-- The arguments of `AgentRunService.run`.
pub record RunnerCall : Type 0 where
  pub conversation_id : ℕ
  pub question : Text
  pub response_mode : ResponseMode
  pub agent_control_mode : AgentControlMode
  pub approved_action_hash : Option String
  pub resume_run : Option ℕ
  pub reconstructed_steps : List ReconstructedStep

-- the evidence of one excerpt, under its old citation id
abbrev pub cited_excerpt : String → Option (List GroundedEvidence) → Option GroundedEvidence
cited_excerpt citation_id (some (item ∷ [])) = some (record item { evidence_id = citation_id })
cited_excerpt citation_id _ = none

-- `zip(…, strict=True)` over the three columns, each excerpt being read again
unfoldable pub reread :
    Services → AuthorizationScope → List ℕ → List ℕ → List String → Option (List GroundedEvidence)
reread services scope [] [] [] = some []
reread services scope (document ∷ documents) (chunk ∷ chunks) (citation ∷ citations) =
    elim (cited_excerpt citation (services.excerpt scope document chunk)) [
      | none ↦ none
      | some item ↦ elim (reread services scope documents chunks citations) [
        | none ↦ none
        | some items ↦ some (item ∷ items)
      ]
    ]
reread services scope _ _ _ = none

abbrev pub replayed : AgentStep → AgentObservationRecord → List GroundedEvidence → ReconstructedStep
replayed step row evidence = record {
  action_hash = step.action_argument_hash;
  observation = record {
    tool_name = step.tool_name;
    status = ObservationStatus.success;
    evidence = evidence;
    calculations = [];
    memory_context = [];
    memory_notification = none;
    duration_ms = row.duration_ms;
    retry_count = row.retry_count;
    reason_code = row.safe_reason_code;
  };
}

-- one round of `_reconstruct_completed_steps`
unfoldable pub reconstruct_step :
    Services
    → AuthorizationScope
    → AgentStep
    → Option AgentObservationRecord
    → Option ReconstructedStep
unfolding reread
reconstruct_step services scope step none = none
reconstruct_step services scope step (some row) =
    if not (row.status == ObservationStatus.success)
    then none
    else if starts_with (codes "portfolio.calculate_") (codes step.tool_name)
    then none
    else elim (reread services scope row.authorized_document_ids row.authorized_chunk_ids
        row.citation_ids) [ none ↦ none | some evidence ↦ some (replayed step row evidence) ]

-- `_reconstruct_completed_steps`; `none` is an exception
unfoldable pub reconstruct_completed_steps :
    Services → AuthorizationScope → List AgentStep → Option (List ReconstructedStep)
unfolding reconstruct_step
reconstruct_completed_steps services scope [] = some []
reconstruct_completed_steps services scope (step ∷ steps) =
    elim (reconstruct_step services scope step step.observation) [
      | none ↦ none
      | some this ↦ elim (reconstruct_completed_steps services scope steps) [
        | none ↦ none
        | some rest ↦ some (this ∷ rest)
      ]
    ]

-- the condition on the run of every query
abbrev pub owned_by : AuthorizationContext → ℕ → RunRow → Bool
owned_by context tenant_id run =
    (run.tenant_id == tenant_id) && (run.user_id == context.identity.user_id)

unfoldable pub owned_run : AuthorizationContext → ℕ → Option RunRow → Option RunRow
owned_run context tenant_id none = none
owned_run context tenant_id (some run) = if owned_by context tenant_id run then some run else none

-- `func.max`
abbrev pub later_version : ℕ → Option ℕ → Option ℕ
later_version version none = some version
later_version version (some n) = some (max version n)

unfoldable pub latest_version : List AgentPlanVersion → Option ℕ
latest_version [] = none
latest_version (p ∷ plans) = later_version p.version (latest_version plans)

-- `_binding_is_current`
unfoldable pub binding_is_current : RunRow → AgentApprovalRequest → Bool
unfolding latest_version approved_tool_name
binding_is_current run approval =
    option_beq (some approval.plan_version) (latest_version run.plan_versions)
    && (option_beq (some run.plan_version_count) (latest_version run.plan_versions)
        && ((approval.proposed_step_number == length run.steps + 1)
            && ((approval.action_name == approval.tool_name)
                && is_some (approved_tool_name approval.tool_name))))

abbrev pub is_open : RunRow → AgentApprovalRequest → Bool
is_open run approval =
    (approval.status == ApprovalStatus.pending)
    && (run.lifecycle.status == AgentRunStatus.awaiting_approval)
