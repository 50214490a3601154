-- ===== src/Approval/Consuming.antt =====
-- agent/approval_service.py: what `approve_once` does where it has an action carried out, and that
-- it does so once for an approval.
use secure_portfolio_copilot.Base.{
  List, List-eq, Option-eq, String-eq, ap, refl, some, true, ℕ, ℕ-eq, ◌==◌, ◌∙◌, ◌≡◌,
}
use secure_portfolio_copilot.Lifecycle.RunState.{AgentRun, AgentRunStatus, AgentRunStatus-discrete}
use secure_portfolio_copilot.Approval.Rows.{
  put_run, ApprovalStatus, MessageRole-eq, put_approval, MessageRole, Message, Database, RunRow,
  AgentApprovalRequest, AuthorizationContext,
}
use secure_portfolio_copilot.Approval.Service.{is_open, ok, Reply, RunnerCall, Services}
use secure_portfolio_copilot.Approval.Operations.{
  resume_message, resume_run, resumption, committed, commit_resolved, approve_locked, approve_once,
  consume, resolved, valid_message,
}
use secure_portfolio_copilot.Approval.Approving.{opened-waits, awaiting-moves, Guarded}
use secure_portfolio_copilot.Agent.Loop.Types.{ReconstructedStep}
use secure_portfolio_copilot.Approval.Resolving.{with_locked-Locked}

valid_message-valid :
    (context : AuthorizationContext) (m : Message)
    → (m.role == MessageRole.user) ≡ true
    → (m.user_id == context.identity.user_id) ≡ true
    → valid_message context (some m) ≡ some m
unfolding valid_message
valid_message-valid context m role sender = rw (role, sender) refl

-- the approval that is used
abbrev pub used : ℕ → AuthorizationContext → AgentApprovalRequest → AgentApprovalRequest
used now context a =
    record (resolved a ApprovalStatus.consumed now (some context.identity.user_id)) {
      consumed_at = some now;
    }

-- the run that goes on
abbrev pub resumed : ℕ → AuthorizationContext → RunRow → AgentApprovalRequest → AgentRun → RunRow
resumed now context run a lifecycle = record run {
  lifecycle = lifecycle;
  approval_requests = put_approval (used now context a) run.approval_requests;
}

module _ (services : Services) (context : AuthorizationContext) (run_id approval_id now : ℕ)
    (db : Database) (call : RunnerCall) where
  consume-Resumed :
      (run : RunRow) (a : AgentApprovalRequest) (message : Message) (steps : List ReconstructedStep)
      → is_open run a ≡ true
      → (lifecycle : AgentRun) × (lifecycle.status ≡ AgentRunStatus.running)
        × (consume services context db now run a message (some steps) ≡ (
          ok (resumption run a message steps),
          put_run (resumed now context run a lifecycle) db,
        ))
  unfolding consume commit_resolved committed AgentRunStatus-discrete
  consume-Resumed run a message steps opened =
      let (lifecycle, e, moves) =
        awaiting-moves run AgentRunStatus.running "APPROVAL_CONSUMED" now
          (opened-waits run a opened) refl in
      (lifecycle, moves, rw e refl)

  -- the reply and the database where the approval is used
  pub record Resumed (result : Reply RunnerCall × Database) : Type 0 where
    pub guarded : Guarded services context run_id approval_id now db call
    pub lifecycle : AgentRun
    pub moved : lifecycle.status ≡ AgentRunStatus.running
    pub written :
        result ≡ (ok call, put_run (resumed now context guarded.run guarded.approval lifecycle) db)

  pub Guarded-Resumed :
      Guarded services context run_id approval_id now db call
      → Resumed (approve_once services context run_id approval_id now db)
  unfolding approve_once approve_locked resume_run resume_message
  Guarded-Resumed h =
      let valid = valid_message-valid context h.message h.role h.sender in
      let (lifecycle, moved, result) =
        consume-Resumed h.run h.approval h.message h.steps h.opened in
      record {
        guarded = h;
        lifecycle = lifecycle;
        moved = moved;
        written =
            rw
              (
                with_locked-Locked db (approve_locked services context db now) context run_id
                    approval_id h.run h.approval h.locked,
                h.opened,
                h.in_time,
                h.bound,
                h.same_scope,
                h.asked,
                valid,
                h.reconstructed,
              )
              (result
                ∙ ap (λ c. (ok c, put_run (resumed now context h.run h.approval lifecycle) db))
                    h.called);
      }

  -- Where the guards let it through, the approval is used.
  pub Guarded-ok :
      Guarded services context run_id approval_id now db call
      → (approve_once services context run_id approval_id now db).0 ≡ ok call
  Guarded-ok h = ap (λ r. r.0) (Guarded-Resumed h).written
