-- ===== src/Approval/Resolving.antt =====
-- agent/approval_service.py: what its operations keep of the database.
use secure_portfolio_copilot.Base.{
  Bool, Bool-cases, List, List-eq, Option, Option-cases, Option-eq, String, String-eq, [], ap,
  arith, enum_beq_iff, false, if◌then◌else◌, inl, inr, nat_eq_iff, none, refl, some, subst, true, ℕ,
  ℕ-eq, ◌==◌, ◌∙◌, ◌∷◌, ◌≡◌, ◌⊎◌,
}
use secure_portfolio_copilot.Approval.Ledger.{Stamped, is_pending}
use secure_portfolio_copilot.Approval.Service.{is_open, Reply, owned_by, owned_run}
use secure_portfolio_copilot.Approval.Rows.{
  move, with_lifecycle, put_approval, resolve_home_tenant_id, Database, AuthorizationContext,
  RunRow, approval_of, AgentApprovalRequest,
}
use secure_portfolio_copilot.Approval.Operations.{
  committed, with_approval, not_found, forbidden, with_run, with_tenant, with_locked,
  commit_resolved,
}
use secure_portfolio_copilot.Approval.Changes.{
  resolve-Change, put_run-Evolves, transition_run-moves, Evolves-refl, Evolves, waiting,
}
use secure_portfolio_copilot.Lifecycle.Histories.{Timed}
use secure_portfolio_copilot.Lifecycle.RunState.{
  transition_run, AgentRun, AgentRunStatus, AgentRunStatus-discrete,
}

if-both : {A : Type 0} (P : A → Type 0) (b : Bool) (x y : A) → P x → P y → P (if b then x else y)
if-both P true x y h k = h
if-both P false x y h k = k

pub approval_of-id :
    (id : ℕ) (approvals : List AgentApprovalRequest) (a : AgentApprovalRequest)
    → approval_of id approvals ≡ some a
    → a.id ≡ id
approval_of-id id [] a found = cc
approval_of-id id (b ∷ approvals) a found = elim (Bool-cases (b.id == id)) [
  | inl e ↦
      let here : b ≡ a = ground arith in
      subst (λ (c : AgentApprovalRequest). c.id ≡ id) here (ground (arith, nat_eq_iff b.id id))
  | inr e ↦ approval_of-id id approvals a (ground arith)
]

pub owned_run-eq-some :
    (context : AuthorizationContext) (tenant_id : ℕ) (row : Option RunRow) (run : RunRow)
    → owned_run context tenant_id row ≡ some run
    → (row ≡ some run) × (owned_by context tenant_id run ≡ true)
unfolding owned_run
owned_run-eq-some context tenant_id none run h = cc
owned_run-eq-some context tenant_id (some r) run h =
    elim (Bool-cases (owned_by context tenant_id r)) [
      | inl e ↦
          let here : r ≡ run = ground arith in
          (ap some here, subst (λ x. owned_by context tenant_id x ≡ true) here e)
      | inr e ↦ absurd (ground arith)
    ]

-- The rows that `_locked_owned` finds: the caller has one home tenant, and the run is the caller's.
pub record Locked (context : AuthorizationContext) (run_id approval_id : ℕ) (db : Database)
    (run : RunRow) (approval : AgentApprovalRequest) : Type 0 where
  pub tenant_id : ℕ
  pub home : resolve_home_tenant_id context ≡ some tenant_id
  pub here : db.runs run_id ≡ some run
  pub owned : owned_by context tenant_id run ≡ true
  pub found : approval_of approval_id run.approval_requests ≡ some approval

module _ {A : Type 0} (db : Database) (next : RunRow → AgentApprovalRequest → Reply A × Database)
    (context : AuthorizationContext) (run_id approval_id : ℕ) where
  -- What holds of the refusals and of `next` on the rows holds of the operation.
  pub with_locked-rule :
      (P : Reply A × Database → Type 0)
      → P (forbidden, db)
      → P (not_found, db)
      → ((run : RunRow) (approval : AgentApprovalRequest)
          → Locked context run_id approval_id db run approval
          → P (next run approval))
      → P (with_locked context run_id approval_id db next)
  unfolding with_locked with_tenant with_run with_approval
  with_locked-rule P no_tenant no_row on = elim (Option-cases (resolve_home_tenant_id context)) [
    | inl e ↦ rw e no_tenant
    | inr (tenant, e) ↦ rw e (elim (Option-cases (owned_run context tenant (db.runs run_id))) [
      | inl f ↦ rw f no_row
      | inr (run, f) ↦ rw f (elim (Option-cases (approval_of approval_id run.approval_requests)) [
        | inl g ↦ rw g no_row
        | inr (approval, g) ↦
            let (here, owned) = owned_run-eq-some context tenant (db.runs run_id) run f in
            rw g (
              on run approval
                (record { tenant_id = tenant; home = e; here = here; owned = owned; found = g }))
      ])
    ])
  ]

  -- Where there are such rows, the operation is `next` on them.
  pub with_locked-Locked :
      (run : RunRow) (approval : AgentApprovalRequest)
      → Locked context run_id approval_id db run approval
      → with_locked context run_id approval_id db next ≡ next run approval
  unfolding with_locked with_tenant with_run with_approval owned_run
  with_locked-Locked run approval locked =
      rw (locked.home, locked.here, locked.owned, locked.found) refl

-- A run that moves keeps all but what a transition writes.
pub move-cases :
    (run : RunRow) (target : AgentRunStatus) (reason_code : String) (now : ℕ)
    → (move run target reason_code now ≡ none)
      ⊎ ((lifecycle : AgentRun) × (move run target reason_code now
            ≡ some (record run { lifecycle = lifecycle }))
          × (lifecycle.status ≡ target)
          × (Timed run.lifecycle → Timed lifecycle))
unfolding with_lifecycle
move-cases run target reason_code now =
    elim (Option-cases (transition_run run.lifecycle target reason_code now)) [
      | inl e ↦ inl (rw e refl)
      | inr (lifecycle, e) ↦
          let (moves, timed) =
            transition_run-moves run.lifecycle lifecycle target reason_code now e in
          inr (lifecycle, rw e refl, moves, timed)
    ]

-- A resolution that is committed.
pub commit_resolved-Evolves :
    {A : Type 0} (db : Database) (run : RunRow) (a row : AgentApprovalRequest)
    (target : AgentRunStatus) (reason_code : String) (now : ℕ) (reply : Reply A)
    → db.runs run.id ≡ some run
    → approval_of row.id run.approval_requests ≡ some a
    → is_open run a ≡ true
    → is_pending row ≡ false
    → Stamped row
    → waiting target ≡ 0
    → Evolves db (commit_resolved db run row target reason_code now reply).1
unfolding commit_resolved committed
commit_resolved-Evolves db run a row target reason_code now reply here found opened over stamp
      after =
    elim (move-cases run target reason_code now) [
      | inl e ↦ rw e (Evolves-refl db)
      | inr (lifecycle, e, moves, timed) ↦
          let was : run.lifecycle.status ≡ AgentRunStatus.awaiting_approval = ground (
            arith,
            enum_beq_iff AgentRunStatus-discrete run.lifecycle.status
                AgentRunStatus.awaiting_approval,
          ) in
          rw e (
            put_run-Evolves db run
              (record run {
                lifecycle = lifecycle;
                approval_requests = put_approval row run.approval_requests;
              })
              here
              (resolve-Change run _ refl a row found (ground arith) over stamp refl (ap waiting was)
                (ap waiting moves ∙ after) timed))
    ]
