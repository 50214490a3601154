-- ===== src/Approval/Isolation.antt =====
-- agent/approval_service.py: no operation touches a run that is not the caller's.
use secure_portfolio_copilot.Base.{
  Bool-cases, List, List-eq, Option, Option-cases, Option-eq, String, String-eq, arith, false, inl,
  inr, nat_eq_iff, none, refl, some, subst, true, ℕ, ℕ-eq, ◌==◌, ◌∙◌, ◌≡◌,
}
use secure_portfolio_copilot.Approval.Rows.{
  ApprovalStatus, move, AgentApprovalRequest, resolve_home_tenant_id, RunRow, Database,
  AuthorizationContext,
}
use secure_portfolio_copilot.Approval.Operations.{
  approve_locked, new_request, with_locked, consume, stop_owned, commit_resolved, change_request,
  resolve_locked, stop_run, stop, reject, approve_once, committed,
}
use secure_portfolio_copilot.Approval.Changes.{GoodRow, SoundDatabase}
use secure_portfolio_copilot.Approval.Service.{is_open, Services, owned_run, owned_by, Reply}
use secure_portfolio_copilot.Approval.Resolving.{
  owned_run-eq-some, with_locked-rule, move-cases, Locked,
}
use secure_portfolio_copilot.Text.{Text}
use secure_portfolio_copilot.Approval.Stages.{approve_locked-rule}
use secure_portfolio_copilot.Lifecycle.RunState.{AgentRunStatus-eq, AgentRunStatus}

-- A run that is not the caller's own in the caller's home tenant.
abbrev pub Foreign : AuthorizationContext → RunRow → Type 0
Foreign context run =
    (tenant_id : ℕ)
    → resolve_home_tenant_id context ≡ some tenant_id
    → owned_by context tenant_id run ≡ false

module _ (db : Database) (id : ℕ) (run : RunRow) (here : db.runs id ≡ some run) where
  -- The row is as it was.
  abbrev Untouched : Database → Type 0
  Untouched later = later.runs id ≡ some run

  committed-Untouched :
      {A : Type 0} (reply : Reply A) (approvals : List AgentApprovalRequest) (r : RunRow)
      (target : AgentRunStatus) (reason_code : String) (now : ℕ)
      → (id == r.id) ≡ false
      → Untouched (committed db reply approvals (move r target reason_code now)).1
  unfolding committed
  committed-Untouched reply approvals r target reason_code now apart =
      elim (move-cases r target reason_code now) [
        | inl e ↦ rw e here
        | inr (lifecycle, e, _, _) ↦ rw e (rw apart here)
      ]

  module _ (context : AuthorizationContext) (foreign : Foreign context run)
      (sound : SoundDatabase db) where
    own_apart :
        (tenant_id run_id : ℕ) (r : RunRow)
        → resolve_home_tenant_id context ≡ some tenant_id
        → db.runs run_id ≡ some r
        → owned_by context tenant_id r ≡ true
        → (id == r.id) ≡ false
    own_apart tenant_id run_id r home at owned = elim (Bool-cases (id == r.id)) [
      | inr e ↦ e
      | inl e ↦
          let good : GoodRow run_id (some r) = subst (GoodRow run_id) at (sound run_id) in
          let ids : id ≡ run_id = (nat_eq_iff id r.id).0 e ∙ good.0 in
          let row = subst (λ k. db.runs k ≡ some run) ids here in
          let same : run ≡ r = ground (arith, row, at) in
          absurd (
            cc (
              subst (λ x. owned_by context tenant_id x ≡ false) same (foreign tenant_id home),
              owned,
            ))
    ]

    Locked-apart :
        (run_id approval_id : ℕ) (r : RunRow) (a : AgentApprovalRequest)
        → Locked context run_id approval_id db r a
        → (id == r.id) ≡ false
    Locked-apart run_id approval_id r a locked =
        own_apart locked.tenant_id run_id r locked.home locked.here locked.owned

    approve-Untouched :
        (services : Services) (run_id approval_id now : ℕ)
        → Untouched (approve_once services context run_id approval_id now db).1
    unfolding approve_once commit_resolved consume
    approve-Untouched services run_id approval_id now =
        with_locked-rule db (approve_locked services context db now) context run_id approval_id
          (λ result. Untouched result.1) here here
          (λ r a locked.
            let apart = Locked-apart run_id approval_id r a locked in
            approve_locked-rule services context db now r a (λ result. Untouched result.1)
              (λ status resolver reason_code code _ _.
                committed-Untouched _ _ r AgentRunStatus.failed reason_code now apart)
              (λ message steps _. committed-Untouched _ _ r AgentRunStatus.running _ now apart)
              here)

    resolve-Untouched :
        {A : Type 0} (run_id approval_id now : ℕ) (status : ApprovalStatus) (reason_code : String)
        (answer : RunRow → A)
        → Untouched
            (with_locked context run_id approval_id db
              (resolve_locked context db now status reason_code answer)).1
    unfolding resolve_locked commit_resolved
    resolve-Untouched run_id approval_id now status reason_code answer =
        with_locked-rule db _ context run_id approval_id (λ result. Untouched result.1) here here
          (λ r a locked. elim (Bool-cases (is_open r a)) [
            | inr e ↦ rw e here
            | inl e ↦ rw e (
                committed-Untouched _ _ r AgentRunStatus.cancelled reason_code now
                  (Locked-apart run_id approval_id r a locked))
          ])

    stop_run-Untouched :
        (row : Option RunRow) (now : ℕ)
        → ((r : RunRow) → row ≡ some r → (id == r.id) ≡ false)
        → Untouched (stop_run context now db row).1
    unfolding stop_run
    stop_run-Untouched none now apart = here
    stop_run-Untouched (some r) now apart =
        elim (Bool-cases (r.lifecycle.status == AgentRunStatus.awaiting_approval)) [
          | inr e ↦ rw e here
          | inl e ↦
              rw e (
                committed-Untouched _ _ r AgentRunStatus.cancelled "RUN_STOPPED" now (apart r refl))
        ]

    stop-Untouched : (run_id now : ℕ) → Untouched (stop context run_id now db).1
    unfolding stop stop_owned
    stop-Untouched run_id now = elim (Option-cases (resolve_home_tenant_id context)) [
      | inl e ↦ rw e here
      | inr (tenant, e) ↦ rw e (
          stop_run-Untouched (owned_run context tenant (db.runs run_id)) now (λ r f.
            let (at, owned) = owned_run-eq-some context tenant (db.runs run_id) r f in
            own_apart tenant run_id r e at owned))
    ]

    -- Whatever run and approval a caller names, none of approving, rejecting, stopping and changing
    -- a request alters the row of a run that is not the caller's own in the caller's home tenant.
    pub isolation :
        (services : Services) (run_id approval_id now : ℕ) (content : Text)
        → ((approve_once services context run_id approval_id now db).1.runs id ≡ some run)
          × ((reject context run_id approval_id now db).1.runs id ≡ some run)
          × ((stop context run_id now db).1.runs id ≡ some run)
          × ((change_request context run_id approval_id content now db).1.runs id ≡ some run)
    unfolding reject change_request
    isolation services run_id approval_id now content = (
      approve-Untouched services run_id approval_id now,
      resolve-Untouched run_id approval_id now ApprovalStatus.rejected _ (λ (r : RunRow). r.id),
      stop-Untouched run_id now,
      resolve-Untouched run_id approval_id now ApprovalStatus.superseded _ (new_request content),
    )
