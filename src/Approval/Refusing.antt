-- ===== src/Approval/Refusing.antt =====
-- agent/approval_service.py: how `approve_once` refuses, and what the operations leave alone.
use secure_portfolio_copilot.Base.{List-eq, Option-eq, String-eq, some, ℕ, ℕ-eq, ◌≡◌, ◌⊎◌}
use secure_portfolio_copilot.Lifecycle.RunState.{AgentRunStatus}
use secure_portfolio_copilot.Approval.Service.{raised, api_error, ok, RunnerCall, Reply}
use secure_portfolio_copilot.Approval.Rows.{
  ApprovalStatus, approval_of, AgentApprovalRequest, RunRow, Database,
}

-- The run that awaited the approval has failed, and the approval is expired or cancelled.
pub record Failed (run_id approval_id : ℕ) (db later : Database) : Type 0 where
  pub run : RunRow
  pub next : RunRow
  pub approval : AgentApprovalRequest
  pub before : db.runs run_id ≡ some run
  pub waited : run.lifecycle.status ≡ AgentRunStatus.awaiting_approval
  pub after : later.runs run_id ≡ some next
  pub failed : next.lifecycle.status ≡ AgentRunStatus.failed
  pub found : approval_of approval_id next.approval_requests ≡ some approval
  pub ended :
      (approval.status ≡ ApprovalStatus.expired) ⊎ (approval.status ≡ ApprovalStatus.cancelled)

-- How a request for the use of an approval ends.
abbrev pub Replied : ℕ → ℕ → Database → Reply RunnerCall × Database → Type 0
Replied run_id approval_id db (ok call, later) = Unit
Replied run_id approval_id db (api_error status code, later) =
    (later ≡ db) ⊎ Failed run_id approval_id db later
Replied run_id approval_id db (raised, later) = ⊥
