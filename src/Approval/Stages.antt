-- ===== src/Approval/Stages.antt =====
-- agent/approval_service.py: the ways in which `approve_once` ends on its locked rows.
use secure_portfolio_copilot.Base.{
  Bool-cases, List, List-eq, Option, Option-eq, String, String-eq, inl, inr, leb, none, refl, some,
  true, ℕ, ℕ-eq, ◌==◌, ◌≡◌, ◌⊎◌,
}
use secure_portfolio_copilot.Approval.Service.{
  binding_is_current, is_open, RunnerCall, Reply, Services,
}
use secure_portfolio_copilot.Approval.Rows.{
  Message, ApprovalStatus, AgentApprovalRequest, RunRow, Database, AuthorizationContext,
}
use secure_portfolio_copilot.Approval.Operations.{
  valid_message, resume_run, message_of, unavailable, approve_locked, resume_message, consume,
  fail_approval,
}
use secure_portfolio_copilot.Agent.Loop.Types.{ReconstructedStep}

module _ (services : Services) (context : AuthorizationContext) (db : Database) (now : ℕ)
    (run : RunRow) (a : AgentApprovalRequest) (P : Reply RunnerCall × Database → Type 0)
    (failing : (status : ApprovalStatus) (resolver : Option ℕ) (reason_code code : String)
      → (status ≡ ApprovalStatus.expired) ⊎ (status ≡ ApprovalStatus.cancelled)
      → is_open run a ≡ true
      → P (fail_approval services context db now run a status resolver reason_code code))
    (consuming : (message : Message) (steps : List ReconstructedStep)
      → is_open run a ≡ true
      → P (consume services context db now run a message (some steps))) where
  consume-rule :
      (message : Message) (steps : Option (List ReconstructedStep))
      → is_open run a ≡ true
      → P (consume services context db now run a message steps)
  unfolding consume
  consume-rule message none opened = failing ApprovalStatus.cancelled _ _ _ (inr refl) opened
  consume-rule message (some steps) opened = consuming message steps opened

  resume_message-rule :
      (message : Option Message)
      → is_open run a ≡ true
      → P (resume_message services context db now run a message)
  unfolding resume_message
  resume_message-rule none opened = failing ApprovalStatus.cancelled _ _ _ (inr refl) opened
  resume_message-rule (some message) opened = consume-rule message _ opened

  resume_run-rule :
      (message : Option (Option Message))
      → is_open run a ≡ true
      → P (resume_run services context db now run a message)
  unfolding resume_run
  resume_run-rule none opened = failing ApprovalStatus.cancelled _ _ _ (inr refl) opened
  resume_run-rule (some message) opened = resume_message-rule (valid_message context message) opened

  -- What holds of a refusal, of every failure and of the use of an approval that is open holds of
  -- the operation.
  pub approve_locked-rule : P (unavailable, db) → P (approve_locked services context db now run a)
  unfolding approve_locked
  approve_locked-rule refused = elim (Bool-cases (is_open run a)) [
    | inr shut ↦ rw shut refused
    | inl opened ↦ rw opened (elim (Bool-cases (leb a.expires_at now)) [
      | inl e ↦ rw e (failing ApprovalStatus.expired _ _ _ (inl refl) opened)
      | inr e ↦ rw e (elim (Bool-cases (binding_is_current run a)) [
        | inr f ↦ rw f (failing ApprovalStatus.cancelled _ _ _ (inr refl) opened)
        | inl f ↦
            rw f
              (elim (Bool-cases
                (a.authorization_scope_fingerprint == services.scope_fingerprint context.scope)) [
                  | inr g ↦ rw g (failing ApprovalStatus.cancelled _ _ _ (inr refl) opened)
                  | inl g ↦
                      rw g (resume_run-rule (message_of db run.initial_user_message_id) opened)
                ])
      ])
    ])
  ]
