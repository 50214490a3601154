-- ===== src/Approval/Approving.antt =====
-- agent/approval_service.py: when `approve_once` has an action carried out.
use secure_portfolio_copilot.Base.{
  Bool-cases, List, List-eq, Option, Option-cases, Option-eq, String, String-eq, ap, arith,
  contains, enum_beq_iff, false, inl, inr, leb, none, refl, some, subst, sym, true, ℕ, ℕ-eq, ◌==◌,
  ◌≡◌,
}
use secure_portfolio_copilot.Lifecycle.RunState.{
  AgentRunStatus-eq, moved, allowed_transitions, AgentRun, AgentRunStatus, AgentRunStatus-discrete,
}
use secure_portfolio_copilot.Approval.Rows.{
  MessageRole-eq, MessageRole, Message, ApprovalStatus, move, Database, AgentApprovalRequest,
  AuthorizationContext, with_lifecycle, RunRow,
}
use secure_portfolio_copilot.Approval.Operations.{
  approve_once, resume_message, resume_run, resumption, message_of, fail_approval, consume,
  valid_message, approve_locked, committed, commit_resolved,
}
use secure_portfolio_copilot.Approval.Service.{
  reconstruct_completed_steps, binding_is_current, ok, Reply, RunnerCall, is_open, Services,
}
use secure_portfolio_copilot.Approval.Resolving.{with_locked-rule, Locked}
use secure_portfolio_copilot.Lifecycle.Histories.{transition_run-allowed}
use secure_portfolio_copilot.Agent.Loop.Types.{ReconstructedStep}

-- A run that awaits an approval can start to run, fail, or be cancelled.
pub awaiting-moves :
    (run : RunRow) (target : AgentRunStatus) (reason_code : String) (now : ℕ)
    → run.lifecycle.status ≡ AgentRunStatus.awaiting_approval
    → contains (allowed_transitions AgentRunStatus.awaiting_approval) target ≡ true
    → (lifecycle : AgentRun) × (move run target reason_code now
        ≡ some (record run { lifecycle = lifecycle }))
      × (lifecycle.status ≡ target)
unfolding with_lifecycle
awaiting-moves run target reason_code now waits allowed =
    let can = subst (λ s. contains (allowed_transitions s) target ≡ true) (sym waits) allowed in
    let went = transition_run-allowed run.lifecycle target reason_code now can in
    (moved run.lifecycle reason_code now target, rw went refl, refl)

pub opened-waits :
    (run : RunRow) (a : AgentApprovalRequest)
    → is_open run a ≡ true
    → run.lifecycle.status ≡ AgentRunStatus.awaiting_approval
opened-waits run a opened = ground (
  arith,
  enum_beq_iff AgentRunStatus-discrete run.lifecycle.status AgentRunStatus.awaiting_approval,
)

commit_resolved-ok :
    {A : Type 0} (db : Database) (run : RunRow) (row : AgentApprovalRequest)
    (target : AgentRunStatus) (reason_code : String) (now : ℕ) (reply : Reply A) (a : A)
    → (commit_resolved db run row target reason_code now reply).0 ≡ ok a
    → reply ≡ ok a
unfolding commit_resolved committed
commit_resolved-ok db run row target reason_code now reply a =
    elim (Option-cases (move run target reason_code now)) [
      | inl e ↦ rw e (λ h. cc)
      | inr (next, e) ↦ rw e (λ h. h)
    ]

-- The guards of `approve_once` in the order of the code, and the call that follows.
pub record Guarded (services : Services) (context : AuthorizationContext)
    (run_id approval_id now : ℕ) (db : Database) (call : RunnerCall) : Type 0 where
  pub run : RunRow
  pub approval : AgentApprovalRequest
  pub locked : Locked context run_id approval_id db run approval
  pub opened : is_open run approval ≡ true
  pub in_time : leb approval.expires_at now ≡ false
  pub bound : binding_is_current run approval ≡ true
  pub same_scope :
      (approval.authorization_scope_fingerprint == services.scope_fingerprint context.scope) ≡ true
  pub message : Message
  pub asked : message_of db run.initial_user_message_id ≡ some (some message)
  pub role : (message.role == MessageRole.user) ≡ true
  pub sender : (message.user_id == context.identity.user_id) ≡ true
  pub steps : List ReconstructedStep
  pub reconstructed : reconstruct_completed_steps services context.scope run.steps ≡ some steps
  pub called : resumption run approval message steps ≡ call

module _ (services : Services) (context : AuthorizationContext) (run_id approval_id now : ℕ)
    (db : Database) (call : RunnerCall) (run : RunRow) (a : AgentApprovalRequest) where
  valid_message-passed :
      (row : Option Message) (message : Message)
      → valid_message context row ≡ some message
      → (row ≡ some message)
        × ((message.role == MessageRole.user) ≡ true)
        × ((message.user_id == context.identity.user_id) ≡ true)
  unfolding valid_message
  valid_message-passed none message h = cc
  valid_message-passed (some m) message h = elim (Bool-cases (m.role == MessageRole.user)) [
    | inr e ↦ absurd (ground arith)
    | inl e ↦ elim (Bool-cases (m.user_id == context.identity.user_id)) [
      | inr f ↦ absurd (ground arith)
      | inl f ↦
          let same : m ≡ message = ground arith in
          (
            ap some same,
            subst (λ (x : Message). (x.role == MessageRole.user) ≡ true) same e,
            subst (λ (x : Message). (x.user_id == context.identity.user_id) ≡ true) same f,
          )
    ]
  ]

  consume-ok :
      (message : Message) (steps : Option (List ReconstructedStep))
      → (consume services context db now run a message steps).0 ≡ ok call
      → (new : List ReconstructedStep) × (steps ≡ some new) × (resumption run a message new ≡ call)
  unfolding consume
  consume-ok message none h =
      let wrong = commit_resolved-ok db run _ _ _ now _ call h in absurd (cc wrong)
  consume-ok message (some steps) h =
      let same = commit_resolved-ok db run _ _ _ now _ call h in (steps, refl, ground arith)

  resume_run-ok :
      (row : Option (Option Message))
      → (resume_run services context db now run a row).0 ≡ ok call
      → (message : Message) × (row ≡ some (some message))
        × ((message.role == MessageRole.user) ≡ true)
        × ((message.user_id == context.identity.user_id) ≡ true)
        × (steps : List ReconstructedStep) × (reconstruct_completed_steps services context.scope
              run.steps
            ≡ some steps)
        × (resumption run a message steps ≡ call)
  unfolding resume_run resume_message
  resume_run-ok none =
      λ h. let wrong = commit_resolved-ok db run _ _ _ now _ call h in absurd (cc wrong)
  resume_run-ok (some row) = elim (Option-cases (valid_message context row)) [
    | inl e ↦
        rw e (λ h. let wrong = commit_resolved-ok db run _ _ _ now _ call h in absurd (cc wrong))
    | inr (message, e) ↦ rw e (λ h.
        let (same, role, sender) = valid_message-passed row message e in
        let (steps, reconstructed, called) = consume-ok message _ h in
        (message, ap some same, role, sender, steps, reconstructed, called))
  ]

  fail-not-ok :
      (status : ApprovalStatus) (resolver : Option ℕ) (reason_code code : String)
      → (fail_approval services context db now run a status resolver reason_code code).0 ≡ ok call
      → ⊥
  fail-not-ok status resolver reason_code code h =
      let wrong = commit_resolved-ok db run _ _ _ now _ call h in cc wrong

  approve_locked-ok :
      Locked context run_id approval_id db run a
      → (approve_locked services context db now run a).0 ≡ ok call
      → Guarded services context run_id approval_id now db call
  unfolding approve_locked
  approve_locked-ok locked = elim (Bool-cases (is_open run a)) [
    | inr shut ↦ rw shut (λ h. absurd (cc h))
    | inl opened ↦ rw opened (elim (Bool-cases (leb a.expires_at now)) [
      | inl e ↦ rw e (λ h. absurd (fail-not-ok _ _ _ _ h))
      | inr in_time ↦ rw in_time (elim (Bool-cases (binding_is_current run a)) [
        | inr e ↦ rw e (λ h. absurd (fail-not-ok _ _ _ _ h))
        | inl bound ↦
            rw bound
              (elim (Bool-cases
                (a.authorization_scope_fingerprint == services.scope_fingerprint context.scope)) [
                  | inr e ↦ rw e (λ h. absurd (fail-not-ok _ _ _ _ h))
                  | inl same_scope ↦ rw same_scope (λ h.
                      let (message, asked, role, sender, steps, reconstructed, called) =
                        resume_run-ok _ h in
                      record {
                        run = run;
                        approval = a;
                        locked = locked;
                        opened = opened;
                        in_time = in_time;
                        bound = bound;
                        same_scope = same_scope;
                        message = message;
                        asked = asked;
                        role = role;
                        sender = sender;
                        steps = steps;
                        reconstructed = reconstructed;
                        called = called;
                      })
                ])
      ])
    ])
  ]

module _ (services : Services) (context : AuthorizationContext) (run_id approval_id now : ℕ)
    (db : Database) (call : RunnerCall) where
  pub approve_once-ok :
      (approve_once services context run_id approval_id now db).0 ≡ ok call
      → Guarded services context run_id approval_id now db call
  unfolding approve_once
  approve_once-ok =
      with_locked-rule db (approve_locked services context db now) context run_id approval_id
        (λ r. r.0 ≡ ok call → Guarded services context run_id approval_id now db call)
        (λ h. absurd (cc h)) (λ h. absurd (cc h))
        (λ run a locked.
          approve_locked-ok services context run_id approval_id now db call run a locked)
