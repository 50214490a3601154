-- ===== src/Approval/Pausing.antt =====
-- agent/service.py: a run that pauses for an approval, and all ends of a run.
use secure_portfolio_copilot.Base.{
  Bool-cases, List, List-eq, Option, Option-cases, Option-eq, String, String-eq, [], ap, append-nil,
  arith, inl, inr, length, max, none, refl, some, subst, sym, ℕ, ℕ-eq, ◌++◌, ◌∙◌, ◌∷◌, ◌≡◌,
}
use secure_portfolio_copilot.Lifecycle.RunState.{AgentRun, AgentRunStatus}
use secure_portfolio_copilot.Agent.Loop.State.{Exit}
use secure_portfolio_copilot.Approval.Service.{Services}
use secure_portfolio_copilot.Approval.Runner.{
  missing_plans, checkpointed, pending_approval, awaiting, paused, create_pending_approval,
}
use secure_portfolio_copilot.Policy.{AuthorizationScope}
use secure_portfolio_copilot.Agent.Loop.Types.{ApprovalRequired}
use secure_portfolio_copilot.Approval.Rows.{
  AgentPlanVersion, Database, move, ApprovalStatus-discrete, AuthorizationContext, approval_of,
  RunRow,
}
use secure_portfolio_copilot.Lifecycle.Histories.{Timed}
use secure_portfolio_copilot.Approval.Persist.{checkpoint, persist_checkpoint_history}
use secure_portfolio_copilot.Approval.Resolving.{move-cases}
use secure_portfolio_copilot.Approval.Settled.{
  first_message-Follows, settle_outcome-Evolves, working_waits, commit_settled-Evolves,
  mark-Evolves, Follows-trans, Follows, Recorded-Follows,
}
use secure_portfolio_copilot.Approval.Commands.{
  crashed, client_cancelled, began, left, Ending, is_working, settle_end, settle_pause, Settlement,
  settle_run,
}
use secure_portfolio_copilot.Approval.Changes.{pause-Change, Change, Evolves-refl, waiting, Evolves}
use secure_portfolio_copilot.Approval.Planned.{missing_plans-recorded}
use secure_portfolio_copilot.Approval.Recording.{persist-Recorded, Recorded}

-- The approval that a pause adds to the approvals of a run.
abbrev pub added :
    Services → AuthorizationScope → ℕ → ApprovalRequired → String → ℕ → RunRow → RunRow
added services scope id request tool_name now run = record run {
  plan_version_count = max run.plan_version_count (length request.plans);
  approval_requests =
      run.approval_requests ++ pending_approval services scope id request tool_name now ∷ [];
}

-- The same with the plans that are missing, as `create_pending_approval` inserts them.
abbrev inserted :
    Services → AuthorizationScope → ℕ → ApprovalRequired → String → ℕ → RunRow → RunRow
inserted services scope id request tool_name now run =
    record (added services scope id request tool_name now run) {
      plan_versions = run.plan_versions ++ missing_plans run.plan_versions request.plans;
    }

-- Where no plan is missing, none is inserted.
inserted-added :
    (services : Services) (scope : AuthorizationScope) (id : ℕ) (request : ApprovalRequired)
    (tool_name : String) (now : ℕ) (run : RunRow)
    → missing_plans run.plan_versions request.plans ≡ []
    → inserted services scope id request tool_name now run
      ≡ added services scope id request tool_name now run
inserted-added services scope id request tool_name now run none_missing =
    ap
      (λ (plans : List AgentPlanVersion).
        record (added services scope id request tool_name now run) { plan_versions = plans })
      (ap (λ (new : List AgentPlanVersion). run.plan_versions ++ new) none_missing
        ∙ append-nil run.plan_versions)

create-added :
    (services : Services) (scope : AuthorizationScope) (id : ℕ) (request : ApprovalRequired)
    (tool_name : String) (now : ℕ) (run next : RunRow)
    → create_pending_approval services scope id request tool_name now run ≡ some next
    → (approval_of id run.approval_requests ≡ none)
      × (inserted services scope id request tool_name now run ≡ next)
unfolding create_pending_approval
create-added services scope id request tool_name now run next h =
    elim (Option-cases (approval_of id run.approval_requests)) [
      | inl e ↦ (e, ground (arith, e))
      | inr (a, e) ↦ absurd (ground (arith, e))
    ]

-- What a pause does, from the row that it begins with to the row that it commits.
pub record Paused (services : Services) (scope : AuthorizationScope) (id : ℕ)
    (request : ApprovalRequired) (tool_name : String) (now : ℕ) (run next : RunRow) : Type 0 where
  pub mid : RunRow
  pub lifecycle : AgentRun
  pub recorded :
      Recorded run (checkpoint request.plans request.safe_steps request.safe_observations) mid
  pub fresh : approval_of id mid.approval_requests ≡ none
  pub moved : lifecycle.status ≡ AgentRunStatus.awaiting_approval
  pub timed : Timed run.lifecycle → Timed lifecycle
  pub written :
      record (added services scope id request tool_name now mid) { lifecycle = lifecycle } ≡ next

module _ (services : Services) (scope : AuthorizationScope) (id : ℕ) (request : ApprovalRequired)
    (tool_name : String) (now : ℕ) (run : RunRow) where
  created-Paused :
      (mid new next : RunRow)
      → Recorded run (checkpoint request.plans request.safe_steps request.safe_observations) mid
      → approval_of id mid.approval_requests ≡ none
      → added services scope id request tool_name now mid ≡ new
      → move new AgentRunStatus.awaiting_approval "USER_APPROVAL_REQUIRED" now ≡ some next
      → Paused services scope id request tool_name now run next
  created-Paused mid new next recorded fresh same h =
      let start = added services scope id request tool_name now mid in
      let went : move start AgentRunStatus.awaiting_approval "USER_APPROVAL_REQUIRED" now
          ≡ some next =
        subst
          (λ r. move r AgentRunStatus.awaiting_approval "USER_APPROVAL_REQUIRED" now ≡ some next)
          (sym same) h in
      elim (move-cases start AgentRunStatus.awaiting_approval "USER_APPROVAL_REQUIRED" now) [
        | inl f ↦ absurd (cc (went, f))
        | inr (lifecycle, f, moves, timed) ↦ record {
          mid = mid;
          lifecycle = lifecycle;
          recorded = recorded;
          fresh = fresh;
          moved = moves;
          timed =
              λ t. timed (subst Timed (sym (Recorded-Follows run _ mid recorded).same_lifecycle) t);
          written = ground (arith, went, f);
        }
      ]

  checkpointed-Paused :
      (mid : Option RunRow) (next : RunRow)
      → persist_checkpoint_history services.authorized run scope request.plans request.safe_steps
          request.safe_observations
        ≡ mid
      → awaiting now (checkpointed services scope id request tool_name now mid) ≡ some next
      → Paused services scope id request tool_name now run next
  unfolding awaiting checkpointed
  checkpointed-Paused none next persisted h = cc
  checkpointed-Paused (some mid) next persisted h =
      let recorded = persist-Recorded services.authorized run scope _ mid persisted in
      elim (Option-cases (create_pending_approval services scope id request tool_name now mid)) [
        | inl e ↦
            let stuck : awaiting now none ≡ some next =
              subst (λ o. awaiting now o ≡ some next) e h in
            absurd (cc stuck)
        | inr (new, e) ↦
            let (fresh, same) = create-added services scope id request tool_name now mid new e in
            let none_missing =
              subst (λ (x : RunRow). missing_plans x.plan_versions request.plans ≡ [])
                recorded.written
                (missing_plans-recorded request.plans (some run.plan_versions) recorded.plans
                  recorded.planned) in
            let unchanged =
              inserted-added services scope id request tool_name now mid none_missing in
            created-Paused mid new next recorded fresh (sym unchanged ∙ same)
              (subst (λ o. awaiting now o ≡ some next) e h)
      ]

  pub paused-Paused :
      (next : RunRow)
      → paused services scope id request tool_name now run ≡ some next
      → Paused services scope id request tool_name now run next
  unfolding paused
  paused-Paused next h = checkpointed-Paused _ next refl h

Paused-Change :
    (services : Services) (scope : AuthorizationScope) (id : ℕ) (request : ApprovalRequired)
    (tool_name : String) (now : ℕ) (run before next : RunRow)
    → Follows run before
    → waiting run.lifecycle.status ≡ 0
    → Paused services scope id request tool_name now before next
    → Change run next
unfolding ApprovalStatus-discrete
Paused-Change services scope id request tool_name now run before next follows idle p =
    let all = Follows-trans run before p.mid follows (Recorded-Follows before _ p.mid p.recorded) in
    subst (Change run) p.written (
      pause-Change run
        (record (added services scope id request tool_name now p.mid) { lifecycle = p.lifecycle })
        all.same_id (pending_approval services scope id request tool_name now)
        (ap (λ rows. rows ++ pending_approval services scope id request tool_name now ∷ [])
          all.same_approvals)
        (subst (λ rows. approval_of id rows ≡ none) all.same_approvals p.fresh) refl
        (record { settled = refl; used = refl }) idle (ap waiting p.moved)
        (λ t. p.timed (subst Timed (sym follows.same_lifecycle) t)))

module _ (services : Services) (context : AuthorizationContext) (db : Database) (run : RunRow)
    (here : db.runs run.id ≡ some run) (idle : waiting run.lifecycle.status ≡ 0) where
  settle_pause-Evolves :
      (s : Settlement) (request : ApprovalRequired) (name : Option String)
      → Evolves db (settle_pause services context s request name run db)
  unfolding settle_pause
  settle_pause-Evolves s request none =
      mark-Evolves services context db run here s AgentRunStatus.failed _ refl
  settle_pause-Evolves s request (some name) =
      commit_settled-Evolves services context db run here s run.initial_user_message_id db _
        (λ next h.
          Paused-Change services context.scope s.approval_id request name s.now run _ next
            (first_message-Follows s.message_id run run.initial_user_message_id) idle
            (paused-Paused services context.scope s.approval_id request name s.now _ next h))
        (Evolves-refl db)

  settle_end-Evolves :
      (s : Settlement) (ending : Ending) → Evolves db (settle_end services context s ending run db)
  unfolding settle_end
  settle_end-Evolves s (left (Exit.finished outcome)) =
      settle_outcome-Evolves services context db run here s outcome idle
  settle_end-Evolves s (left (Exit.approval_required request)) =
      settle_pause-Evolves s request request.action.action_name
  settle_end-Evolves s (left Exit.reconstruction_mismatch) =
      mark-Evolves services context db run here s AgentRunStatus.failed _ refl
  settle_end-Evolves s (left (Exit.plan_error e)) =
      mark-Evolves services context db run here s AgentRunStatus.failed _ refl
  settle_end-Evolves s (left Exit.validation_error) =
      mark-Evolves services context db run here s AgentRunStatus.failed _ refl
  settle_end-Evolves s client_cancelled =
      mark-Evolves services context db run here s AgentRunStatus.cancelled _ refl
  settle_end-Evolves s crashed =
      mark-Evolves services context db run here s AgentRunStatus.failed _ refl

-- The end of a run.
pub settle_run-Evolves :
    (services : Services) (context : AuthorizationContext) (s : Settlement) (db : Database)
    (row : Option RunRow)
    → ((run : RunRow) → row ≡ some run → db.runs run.id ≡ some run)
    → Evolves db (settle_run services context s db row)
unfolding settle_run
settle_run-Evolves services context s db none at = Evolves-refl db
settle_run-Evolves services context s db (some run) at = elim (Bool-cases (is_working run)) [
  | inr e ↦ rw e (Evolves-refl db)
  | inl e ↦ rw e (
      settle_end-Evolves services context db run (at run refl)
        (working_waits run.lifecycle.status e) s (began db s run.initial_user_message_id))
]
