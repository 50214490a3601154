-- ===== src/Approval/Sequences.antt =====
-- agent/approval_service.py and agent/service.py: what holds along every sequence of requests.
use secure_portfolio_copilot.Base.{
  Bool, Bool-cases, List, List-eq, Option, Option-cases, Option-eq, String-eq, [], arith, false,
  inl, inr, none, refl, some, subst, sym, true, ℕ, ℕ-eq, ◌&&◌, ◌∷◌, ◌≡◌,
}
use secure_portfolio_copilot.Lifecycle.RunState.{AgentRunStatus, AgentRunStatus-discrete}
use secure_portfolio_copilot.Approval.Rows.{
  resolve_home_tenant_id, approval_of, AgentApprovalRequest, AuthorizationContext, RunRow, Database,
}
use secure_portfolio_copilot.Approval.Runner.{
  submitted, commit_run, Submission, start_owned, started, start_run, start_new,
}
use secure_portfolio_copilot.Approval.Recorder.{create_run}
use secure_portfolio_copilot.Approval.Service.{Services}
use secure_portfolio_copilot.Approval.Commands.{
  changing, stopping, rejecting, approving, settling, submitting, perform, perform_all, Command,
}
use secure_portfolio_copilot.Routing.{ResponseMode}
use secure_portfolio_copilot.Agent.Loop.Types.{AgentControlMode}
use secure_portfolio_copilot.Approval.Changes.{
  GoodRow, Evolves-trans, put_new-Evolves, Change-refl, Evolves-refl, Evolves, Evolves-Sound,
  Change, NextRow, waiting, SoundDatabase, SoundRun,
}
use secure_portfolio_copilot.Approval.Settled.{move_on-Change}
use secure_portfolio_copilot.Gateway.{has_capability}
use secure_portfolio_copilot.Policy.{query_documents}
use secure_portfolio_copilot.Approval.Pausing.{settle_run-Evolves}
use secure_portfolio_copilot.Approval.Resolved.{
  change_request-Evolves, stop-Evolves, reject-Evolves, approve_once-Evolves,
}
use secure_portfolio_copilot.Approval.Ledger.{is_pending}

-- The start of a run.
new-Sound :
    (run_id conversation_id tenant_id user_id : ℕ) (mode : ResponseMode)
    (control : AgentControlMode)
    → SoundRun (create_run run_id conversation_id tenant_id user_id mode control)
unfolding create_run AgentRunStatus-discrete
new-Sound run_id conversation_id tenant_id user_id mode control = record {
  distinct = tt;
  stamped = tt;
  matched = refl;
  timed = record { completed = refl; started = λ e. elim e [ inl p ↦ cc | inr p ↦ cc ] };
}

started-Change :
    (allowed : Bool) (now : ℕ) (run next : RunRow)
    → waiting run.lifecycle.status ≡ 0
    → started allowed now run ≡ some next
    → Change run next
unfolding started
started-Change false now run next idle h =
    let same : run ≡ next = ground arith in subst (Change run) same (Change-refl run)
started-Change true now run next idle h =
    move_on-Change run run next AgentRunStatus.running _ now
      (record { same_id = refl; same_approvals = refl; same_lifecycle = refl }) idle refl h

commit_new-Evolves :
    (db : Database) (new : RunRow) (next : Option RunRow)
    → db.runs new.id ≡ none
    → SoundRun new
    → ((r : RunRow) → next ≡ some r → Change new r)
    → Evolves db (commit_run db next)
commit_new-Evolves db new none free sound change = Evolves-refl db
commit_new-Evolves db new (some r) free sound change =
    let step = change r refl in
    put_new-Evolves db r (subst (λ id. db.runs id ≡ none) (sym step.same_id) free)
      (step.sound sound)

start_new-Evolves :
    (context : AuthorizationContext) (tenant_id : ℕ) (s : Submission) (now : ℕ) (db : Database)
    (row : Option RunRow)
    → db.runs s.run_id ≡ row
    → Evolves db (start_new context tenant_id s now db row)
unfolding start_new create_run
start_new-Evolves context tenant_id s now db (some taken) free = Evolves-refl db
start_new-Evolves context tenant_id s now db none free =
    commit_new-Evolves db (submitted context tenant_id s) _ free (new-Sound _ _ _ _ _ _)
      (λ r. started-Change s.scope_allowed now _ r refl)

start_run-Evolves :
    (context : AuthorizationContext) (s : Submission) (now : ℕ) (db : Database)
    → Evolves db (start_run context s now db)
unfolding start_run start_owned
start_run-Evolves context s now db = elim (Option-cases (resolve_home_tenant_id context)) [
  | inl e ↦ rw e (Evolves-refl db)
  | inr (tenant, e) ↦ rw e (elim (Bool-cases s.conversation_found) [
    | inr f ↦ rw f (Evolves-refl db)
    | inl f ↦ rw f (elim (Bool-cases (has_capability context.scope query_documents)) [
      | inr g ↦ rw g (Evolves-refl db)
      | inl g ↦ rw g (elim (Bool-cases (s.scope_allowed && s.upgrade_required)) [
        | inl h ↦ rw h (Evolves-refl db)
        | inr h ↦ rw h (start_new-Evolves context tenant s now db (db.runs s.run_id) refl)
      ])
    ])
  ])
]

pub kept_row :
    (id approval_id : ℕ) (run : RunRow) (a : AgentApprovalRequest) (before after : Option RunRow)
    → NextRow id before after
    → before ≡ some run
    → approval_of approval_id run.approval_requests ≡ some a
    → is_pending a ≡ false
    → (later : RunRow) × (after ≡ some later)
      × (approval_of approval_id later.approval_requests ≡ some a)
kept_row id approval_id run a none after f e found settled = absurd (cc e)
kept_row id approval_id run a (some r) none f e found settled = absurd f
kept_row id approval_id run a (some r) (some later) f e found settled =
    let same : run ≡ r = ground arith in
    let at =
      subst (λ (x : RunRow). approval_of approval_id x.approval_requests ≡ some a) same found in
    (later, refl, f.kept approval_id a at settled)

-- Every request.
module _ (services : Services) where
  pub perform-Evolves :
      (c : Command) (db : Database) → SoundDatabase db → Evolves db (perform services c db)
  unfolding perform
  perform-Evolves (submitting context s now) db sound = start_run-Evolves context s now db
  perform-Evolves (settling context run_id s) db sound =
      settle_run-Evolves services context s db (db.runs run_id) (λ run e.
        let good : GoodRow run_id (some run) = subst (GoodRow run_id) e (sound run_id) in
        subst (λ id. db.runs id ≡ some run) (sym good.0) e)
  perform-Evolves (approving context run_id approval_id now) db sound =
      approve_once-Evolves db sound context now services run_id approval_id
  perform-Evolves (rejecting context run_id approval_id now) db sound =
      reject-Evolves db sound context now run_id approval_id
  perform-Evolves (stopping context run_id now) db sound = stop-Evolves db sound context now run_id
  perform-Evolves (changing context run_id approval_id now content) db sound =
      change_request-Evolves db sound context now run_id approval_id content

  perform_all-Evolves :
      (commands : List Command) (db : Database)
      → SoundDatabase db
      → Evolves db (perform_all services commands db)
  unfolding perform_all
  perform_all-Evolves [] db sound = Evolves-refl db
  perform_all-Evolves (c ∷ commands) db sound =
      let first = perform-Evolves c db sound in
      let next = Evolves-Sound db (perform services c db) first sound in
      Evolves-trans db (perform services c db)
        (perform_all services commands (perform services c db)) first
        (perform_all-Evolves commands (perform services c db) next)

  -- A sound database stays sound under every sequence of requests: each run awaits an approval
  -- exactly if one of its approvals is pending, and then one only; its approvals have different
  -- ids; an approval has a time of resolution exactly if it is not pending, and a time of
  -- consumption exactly if it is consumed; and the run's times agree with its status.
  pub perform_all-Sound :
      (commands : List Command) (db : Database)
      → SoundDatabase db
      → SoundDatabase (perform_all services commands db)
  perform_all-Sound commands db sound =
      Evolves-Sound db (perform_all services commands db) (perform_all-Evolves commands db sound)
        sound

  -- What is resolved stays: an approval that is not pending is the same row after every sequence
  -- of requests to a sound database.
  pub resolved_final :
      (commands : List Command) (db : Database) (run_id approval_id : ℕ) (run : RunRow)
      (a : AgentApprovalRequest)
      → SoundDatabase db
      → db.runs run_id ≡ some run
      → approval_of approval_id run.approval_requests ≡ some a
      → is_pending a ≡ false
      → (later : RunRow) × ((perform_all services commands db).runs run_id ≡ some later)
        × (approval_of approval_id later.approval_requests ≡ some a)
  resolved_final commands db run_id approval_id run a sound here found settled =
      kept_row run_id approval_id run a _ _ (perform_all-Evolves commands db sound run_id) here
        found settled
