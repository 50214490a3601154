-- ===== src/Approval/Resolved.antt =====
-- agent/approval_service.py: every operation of the service keeps a sound database sound, and
-- keeps what is resolved.
use secure_portfolio_copilot.Base.{
  Bool-cases, List, List-eq, Option, Option-cases, Option-eq, String, String-eq, ap, arith,
  enum_beq_iff, false, inl, inr, none, refl, some, subst, sym, true, ℕ, ℕ-eq, ◌==◌, ◌∙◌, ◌≡◌, ◌⊎◌,
}
use secure_portfolio_copilot.Lifecycle.RunState.{
  AgentRunStatus-eq, AgentRunStatus, AgentRunStatus-discrete,
}
use secure_portfolio_copilot.Approval.Rows.{
  resolve_home_tenant_id, Message, ApprovalStatus-eq, approval_of, AuthorizationContext, RunRow,
  ApprovalStatus, ApprovalStatus-discrete, AgentApprovalRequest, Database,
}
use secure_portfolio_copilot.Approval.Changes.{
  Evolves-refl, waiting, SoundRun, Evolves, GoodRow, SoundDatabase,
}
use secure_portfolio_copilot.Approval.Operations.{
  fail_approval, stop_owned, stop, new_request, pending_of, resolve_locked, stop_run,
  change_request, reject, commit_resolved, consume, resolved, approve_locked, approve_once,
}
use secure_portfolio_copilot.Approval.Resolving.{
  owned_run-eq-some, commit_resolved-Evolves, with_locked-rule, approval_of-id, Locked,
}
use secure_portfolio_copilot.Approval.Service.{owned_run, Reply, is_open, Services}
use secure_portfolio_copilot.Agent.Loop.Types.{ReconstructedStep}
use secure_portfolio_copilot.Text.{Text}
use secure_portfolio_copilot.Approval.Stages.{approve_locked-rule}
use secure_portfolio_copilot.Approval.Ledger.{
  pending_of-found, pending_of-none, Stamped-found, Stamped, is_pending,
}

-- A pending approval that gets another status but CONSUMED.
resolved-Stamped :
    (a : AgentApprovalRequest) (status : ApprovalStatus) (now : ℕ) (resolver : Option ℕ)
    → is_pending a ≡ true
    → Stamped a
    → is_pending (resolved a status now resolver) ≡ false
    → (status == ApprovalStatus.consumed) ≡ false
    → Stamped (resolved a status now resolver)
unfolding ApprovalStatus-discrete
resolved-Stamped a status now resolver was stamp over unused = record {
  settled = ground arith;
  used =
      let at : a.status ≡ ApprovalStatus.pending =
        ground (arith, enum_beq_iff ApprovalStatus-discrete a.status ApprovalStatus.pending) in
      stamp.used ∙ (ap (λ s. s == ApprovalStatus.consumed) at ∙ sym unused);
}

consumed-Stamped :
    (a : AgentApprovalRequest) (now : ℕ) (resolver : Option ℕ)
    → Stamped (record (resolved a ApprovalStatus.consumed now resolver) { consumed_at = some now })
unfolding ApprovalStatus-discrete
consumed-Stamped a now resolver = record { settled = refl; used = refl }

module _ (db : Database) (sound : SoundDatabase db) (run : RunRow) (a : AgentApprovalRequest)
    (here : db.runs run.id ≡ some run) (found : approval_of a.id run.approval_requests ≡ some a)
    (opened : is_open run a ≡ true) where
  still_pending : is_pending a ≡ true
  still_pending = ground arith

  run-Sound : SoundRun run
  run-Sound =
      let good : GoodRow run.id (some run) = subst (GoodRow run.id) here (sound run.id) in good.1

  pub commit-Evolves :
      {A : Type 0} (status : ApprovalStatus) (now : ℕ) (resolver : Option ℕ)
      (target : AgentRunStatus) (reason_code : String) (reply : Reply A)
      → is_pending (resolved a status now resolver) ≡ false
      → (status == ApprovalStatus.consumed) ≡ false
      → waiting target ≡ 0
      → Evolves db
          (commit_resolved db run (resolved a status now resolver) target reason_code now reply).1
  commit-Evolves status now resolver target reason_code reply over unused after =
      commit_resolved-Evolves db run a (resolved a status now resolver) target reason_code now reply
        here found opened over
        (resolved-Stamped a status now resolver still_pending
          (Stamped-found a.id run.approval_requests a run-Sound.stamped found) over unused)
        after

  module _ (services : Services) (context : AuthorizationContext) (now : ℕ) where
    pub fail-Evolves :
        (status : ApprovalStatus) (resolver : Option ℕ) (reason_code code : String)
        → (status ≡ ApprovalStatus.expired) ⊎ (status ≡ ApprovalStatus.cancelled)
        → Evolves db
            (fail_approval services context db now run a status resolver reason_code code).1
    unfolding ApprovalStatus-discrete
    fail-Evolves status resolver reason_code code (inl e) = rw e (
        commit-Evolves ApprovalStatus.expired now resolver AgentRunStatus.failed _ _ refl refl refl)
    fail-Evolves status resolver reason_code code (inr e) = rw e (
        commit-Evolves ApprovalStatus.cancelled now resolver AgentRunStatus.failed _ _ refl refl
          refl)

    pub consume-Evolves :
        (message : Message) (steps : List ReconstructedStep)
        → Evolves db (consume services context db now run a message (some steps)).1
    unfolding consume ApprovalStatus-discrete
    consume-Evolves message steps =
        commit_resolved-Evolves db run a _ AgentRunStatus.running _ now _ here found opened refl
          (consumed-Stamped a now _) refl

module _ (db : Database) (sound : SoundDatabase db) (context : AuthorizationContext) (now : ℕ) where
  -- the key of the row that is found
  located :
      (run_id approval_id : ℕ) (run : RunRow) (a : AgentApprovalRequest)
      → Locked context run_id approval_id db run a
      → (db.runs run.id ≡ some run) × (approval_of a.id run.approval_requests ≡ some a)
  located run_id approval_id run a locked =
      let good : GoodRow run_id (some run) = subst (GoodRow run_id) locked.here (sound run_id) in
      let ids = approval_of-id approval_id run.approval_requests a locked.found in
      (
        subst (λ id. db.runs id ≡ some run) (sym good.0) locked.here,
        subst (λ id. approval_of id run.approval_requests ≡ some a) (sym ids) locked.found,
      )

  approve_locked-Evolves :
      (services : Services) (run : RunRow) (a : AgentApprovalRequest)
      → db.runs run.id ≡ some run
      → approval_of a.id run.approval_requests ≡ some a
      → Evolves db (approve_locked services context db now run a).1
  approve_locked-Evolves services run a here found =
      approve_locked-rule services context db now run a (λ r. Evolves db r.1)
        (λ status resolver reason_code code which opened.
          fail-Evolves db sound run a here found opened services context now status resolver
            reason_code code which)
        (λ message steps opened.
          consume-Evolves db sound run a here found opened services context now message steps)
        (Evolves-refl db)

  pub approve_once-Evolves :
      (services : Services) (run_id approval_id : ℕ)
      → Evolves db (approve_once services context run_id approval_id now db).1
  unfolding approve_once
  approve_once-Evolves services run_id approval_id =
      with_locked-rule db (approve_locked services context db now) context run_id approval_id
        (λ r. Evolves db r.1) (Evolves-refl db) (Evolves-refl db)
        (λ run a locked.
          let (here, found) = located run_id approval_id run a locked in
          approve_locked-Evolves services run a here found)

  resolve_locked-Evolves :
      {A : Type 0} (status : ApprovalStatus) (reason_code : String) (answer : RunRow → A)
      (run : RunRow) (a : AgentApprovalRequest)
      → db.runs run.id ≡ some run
      → approval_of a.id run.approval_requests ≡ some a
      → (status == ApprovalStatus.pending) ≡ false
      → (status == ApprovalStatus.consumed) ≡ false
      → Evolves db (resolve_locked context db now status reason_code answer run a).1
  unfolding resolve_locked
  resolve_locked-Evolves status reason_code answer run a here found over unused =
      elim (Bool-cases (is_open run a)) [
        | inr shut ↦ rw shut (Evolves-refl db)
        | inl opened ↦ rw opened (
            commit-Evolves db sound run a here found opened status now _ AgentRunStatus.cancelled _
              _ over unused refl)
      ]

  pub reject-Evolves :
      (run_id approval_id : ℕ) → Evolves db (reject context run_id approval_id now db).1
  unfolding reject ApprovalStatus-discrete
  reject-Evolves run_id approval_id =
      with_locked-rule db _ context run_id approval_id (λ r. Evolves db r.1) (Evolves-refl db)
        (Evolves-refl db)
        (λ run a locked.
          let (here, found) = located run_id approval_id run a locked in
          resolve_locked-Evolves ApprovalStatus.rejected _ (λ (r : RunRow). r.id) run a here found
            refl refl)

  pub change_request-Evolves :
      (run_id approval_id : ℕ) (content : Text)
      → Evolves db (change_request context run_id approval_id content now db).1
  unfolding change_request ApprovalStatus-discrete
  change_request-Evolves run_id approval_id content =
      with_locked-rule db _ context run_id approval_id (λ r. Evolves db r.1) (Evolves-refl db)
        (Evolves-refl db)
        (λ run a locked.
          let (here, found) = located run_id approval_id run a locked in
          resolve_locked-Evolves ApprovalStatus.superseded _ (new_request content) run a here found
            refl refl)

  stop_run-Evolves :
      (run : RunRow) → db.runs run.id ≡ some run → Evolves db (stop_run context now db (some run)).1
  unfolding stop_run commit_resolved ApprovalStatus-discrete
  stop_run-Evolves run here =
      elim (Bool-cases (run.lifecycle.status == AgentRunStatus.awaiting_approval)) [
        | inr e ↦ rw e (Evolves-refl db)
        | inl e ↦ rw e (elim (Option-cases (pending_of run.approval_requests)) [
          | inl g ↦
              let good : GoodRow run.id (some run) = subst (GoodRow run.id) here (sound run.id) in
              let was : run.lifecycle.status ≡ AgentRunStatus.awaiting_approval =
                (enum_beq_iff AgentRunStatus-discrete run.lifecycle.status
                    AgentRunStatus.awaiting_approval).0
                  e in
              absurd (
                omega
                  (arith, good.1.matched, pending_of-none run.approval_requests g, ap waiting was))
          | inr (a, g) ↦
              let good : GoodRow run.id (some run) = subst (GoodRow run.id) here (sound run.id) in
              let (found, now_pending) =
                pending_of-found run.approval_requests a good.1.distinct g in
              rw g (
                commit-Evolves db sound run a here found (ground (arith, now_pending, e))
                  ApprovalStatus.cancelled now _ AgentRunStatus.cancelled _ _ refl refl refl)
        ])
      ]

  stop_owned-Evolves :
      (run_id : ℕ) (row : Option RunRow)
      → ((run : RunRow) → row ≡ some run → db.runs run.id ≡ some run)
      → Evolves db (stop_run context now db row).1
  unfolding stop_run
  stop_owned-Evolves run_id none h = Evolves-refl db
  stop_owned-Evolves run_id (some run) h = stop_run-Evolves run (h run refl)

  pub stop-Evolves : (run_id : ℕ) → Evolves db (stop context run_id now db).1
  unfolding stop stop_owned
  stop-Evolves run_id = elim (Option-cases (resolve_home_tenant_id context)) [
    | inl e ↦ rw e (Evolves-refl db)
    | inr (tenant, e) ↦ rw e (
        stop_owned-Evolves run_id (owned_run context tenant (db.runs run_id)) (λ run f.
          let here = (owned_run-eq-some context tenant (db.runs run_id) run f).0 in
          let good : GoodRow run_id (some run) = subst (GoodRow run_id) here (sound run_id) in
          subst (λ id. db.runs id ≡ some run) (sym good.0) here))
  ]
