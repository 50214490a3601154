-- ===== src/Approval/Settled.antt =====
-- agent/service.py: what the start and the end of a run keep of the database.
use secure_portfolio_copilot.Base.{
  Bool-cases, List-eq, Option, Option-cases, Option-eq, String, String-eq, [], ap, arith, contains,
  inl, inr, min, none, refl, some, subst, sym, true, ℕ, ℕ-eq, ◌∙◌, ◌∷◌, ◌≡◌,
}
use secure_portfolio_copilot.Lifecycle.RunState.{
  AgentRunStatus-eq, AgentRunStatus, AgentRunStatus-discrete,
}
use secure_portfolio_copilot.Approval.Commands.{
  with_message, settle_outcome, is_working, Settlement, commit_message, commit_settled, mark,
  first_message,
}
use secure_portfolio_copilot.Approval.Rows.{Database, move, AuthorizationContext, RunRow}
use secure_portfolio_copilot.Approval.Changes.{
  Evolves-refl, put_run-Evolves, Evolves, move-Change, Change, waiting,
}
use secure_portfolio_copilot.Approval.Service.{Services}
use secure_portfolio_copilot.Approval.Recorder.{RunHistory}
use secure_portfolio_copilot.Approval.Resolving.{move-cases}
use secure_portfolio_copilot.Approval.Runner.{
  history_of, completed_run, concluded, marked, terminal_status, mark_run_terminal,
}
use secure_portfolio_copilot.Lifecycle.Histories.{Timed}
use secure_portfolio_copilot.Agent.Loop.Types.{AgentRunOutcome, TerminalStatus}
use secure_portfolio_copilot.Approval.Recording.{persist-Recorded, Recorded}

pub working_waits :
    (s : AgentRunStatus)
    → contains (AgentRunStatus.created ∷ AgentRunStatus.running ∷ []) s ≡ true
    → waiting s ≡ 0
unfolding AgentRunStatus-discrete
working_waits AgentRunStatus.awaiting_approval h = cc
working_waits _ h = refl

terminal_waits : (t : TerminalStatus) → waiting (terminal_status t) ≡ 0
unfolding terminal_status
terminal_waits TerminalStatus.completed = refl
terminal_waits TerminalStatus.refused = refl
terminal_waits TerminalStatus.needs_clarification = refl
terminal_waits TerminalStatus.insufficient_evidence = refl
terminal_waits TerminalStatus.limit_reached = refl
terminal_waits TerminalStatus.failed = refl

-- A row with the same id, approvals, status and times.
pub record Follows (run next : RunRow) : Type 0 where
  pub same_id : next.id ≡ run.id
  pub same_approvals : next.approval_requests ≡ run.approval_requests
  pub same_lifecycle : next.lifecycle ≡ run.lifecycle

pub Follows-trans : (a b c : RunRow) → Follows a b → Follows b c → Follows a c
Follows-trans a b c f g = record {
  same_id = g.same_id ∙ f.same_id;
  same_approvals = g.same_approvals ∙ f.same_approvals;
  same_lifecycle = g.same_lifecycle ∙ f.same_lifecycle;
}

pub first_message-Follows :
    (id : ℕ) (run : RunRow) (old : Option ℕ) → Follows run (first_message id run old)
unfolding first_message
first_message-Follows id run none = record {
  same_id = refl;
  same_approvals = refl;
  same_lifecycle = refl;
}
first_message-Follows id run (some old) = record {
  same_id = refl;
  same_approvals = refl;
  same_lifecycle = refl;
}

pub Recorded-Follows :
    (run : RunRow) (history : RunHistory) (next : RunRow)
    → Recorded run history next
    → Follows run next
Recorded-Follows run history next r =
    subst (Follows run) r.written
      (record { same_id = refl; same_approvals = refl; same_lifecycle = refl })

-- A run that is not waiting ends.
pub move_on-Change :
    (run mid next : RunRow) (target : AgentRunStatus) (reason_code : String) (now : ℕ)
    → Follows run mid
    → waiting run.lifecycle.status ≡ 0
    → waiting target ≡ 0
    → move mid target reason_code now ≡ some next
    → Change run next
move_on-Change run mid next target reason_code now follows idle after h =
    elim (move-cases mid target reason_code now) [
      | inl e ↦ absurd (cc (h, e))
      | inr (lifecycle, e, moves, timed) ↦
          let same : record mid { lifecycle = lifecycle } ≡ next = ground (arith, h, e) in
          subst (Change run) same (
            move-Change run (record mid { lifecycle = lifecycle }) follows.same_id
              follows.same_approvals (ap waiting moves ∙ (after ∙ sym idle))
              (λ t. timed (subst Timed (sym follows.same_lifecycle) t)))
    ]

module _ (services : Services) (context : AuthorizationContext) (db : Database) (run : RunRow)
    (here : db.runs run.id ≡ some run) where
  pub mark-Evolves :
      (s : Settlement) (status : AgentRunStatus) (reason_code : String)
      → waiting status ≡ 0
      → Evolves db (mark run s status reason_code db)
  unfolding mark mark_run_terminal marked
  mark-Evolves s status reason_code after = rw here (elim (Bool-cases (is_working run)) [
    | inr e ↦ rw e (Evolves-refl db)
    | inl e ↦
        let timed_run = record run { duration_ms = min 120000 s.duration_ms } in
        rw e (elim (Option-cases (move timed_run status reason_code s.now)) [
          | inl f ↦ rw f (Evolves-refl db)
          | inr (next, f) ↦ rw f (
              put_run-Evolves db run next here (
                move_on-Change run timed_run next status reason_code s.now
                  (record { same_id = refl; same_approvals = refl; same_lifecycle = refl })
                  (working_waits run.lifecycle.status e) after f))
        ])
  ])

  pub commit_settled-Evolves :
      (s : Settlement) (before : Option ℕ) (otherwise : Database) (next : Option RunRow)
      → ((r : RunRow) → next ≡ some r → Change run r)
      → Evolves db otherwise
      → Evolves db (commit_settled context s before db otherwise next)
  unfolding commit_settled commit_message
  commit_settled-Evolves s before otherwise none change other = other
  commit_settled-Evolves s none otherwise (some r) change other =
      put_run-Evolves db run r here (change r refl)
  commit_settled-Evolves s (some old) otherwise (some r) change other =
      put_run-Evolves db run r here (change r refl)

  concluded-Change :
      (outcome : AgentRunOutcome) (now : ℕ) (before : RunRow) (history : RunHistory)
      (mid : Option RunRow) (next : RunRow)
      → Follows run before
      → ((r : RunRow) → mid ≡ some r → Recorded before history r)
      → waiting run.lifecycle.status ≡ 0
      → concluded outcome now mid ≡ some next
      → Change run next
  unfolding concluded
  concluded-Change outcome now before history none next follows written idle h = cc
  concluded-Change outcome now before history (some mid) next follows written idle h =
      move_on-Change run mid next (terminal_status outcome.terminal_status) _ now
        (Follows-trans run before mid follows
          (Recorded-Follows before history mid (written mid refl)))
        idle (terminal_waits outcome.terminal_status) h

  pub settle_outcome-Evolves :
      (s : Settlement) (outcome : AgentRunOutcome)
      → waiting run.lifecycle.status ≡ 0
      → Evolves db (settle_outcome services context s outcome run db)
  unfolding settle_outcome completed_run
  settle_outcome-Evolves s outcome idle =
      let asked = with_message s.message_id run in
      let before = record asked { duration_ms = min 120000 s.duration_ms } in
      commit_settled-Evolves s run.initial_user_message_id _ _
        (λ next h.
          concluded-Change outcome s.now before (history_of outcome) _ next
            (Follows-trans run asked before
              (first_message-Follows s.message_id run run.initial_user_message_id)
              (record { same_id = refl; same_approvals = refl; same_lifecycle = refl }))
            (λ r. persist-Recorded services.authorized before context.scope (history_of outcome) r)
            idle h)
        (mark-Evolves s AgentRunStatus.failed "PERSISTENCE_VALIDATION_FAILED" refl)
