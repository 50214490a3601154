-- ===== src/Approval/Current.antt =====
-- agent/approval_service.py and agent/service.py: an approval that has just been asked for can be
-- used.
use secure_portfolio_copilot.Base.{
  All, Bool, Bool-cases, List, List-eq, Option, Option-cases, Option-eq, String, String-eq, [], all,
  ap, arith, enum_beq_iff, eq_iff, false, inl, inr, is_empty, is_some, length, max, nat_eq_iff,
  none, option_beq_iff, refl, some, subst, suc, sym, true, ℕ, ℕ-eq, ◌++◌, ◌+◌, ◌<◌, ◌==◌, ◌∙◌, ◌∷◌,
  ◌≡◌, ◌≤◌, ◌⊎◌,
}
use secure_portfolio_copilot.Lifecycle.RunState.{AgentRunStatus, AgentRunStatus-discrete}
use secure_portfolio_copilot.Approval.Ledger.{approval_of-append_new}
use secure_portfolio_copilot.Approval.Recorder.{
  plan_row, contiguous_from, plan_record, record_plan, record_plans,
}
use secure_portfolio_copilot.Approval.Service.{
  ok, reconstruct_completed_steps, binding_is_current, Services, latest_version,
}
use secure_portfolio_copilot.Approval.Rows.{
  MessageRole-discrete, MessageRole, resolve_home_tenant_id, Message, Database,
  AuthorizationContext, ApprovalStatus-discrete, approval_of, RunRow, AgentPlanVersion,
}
use secure_portfolio_copilot.Agent.Models.{Plan}
use secure_portfolio_copilot.Agent.Loop.Types.{ReconstructedStep, ApprovalRequired}
use secure_portfolio_copilot.Policy.{AuthorizationScope}
use secure_portfolio_copilot.Gateway.{approved_tool_name}
use secure_portfolio_copilot.Approval.Pausing.{paused-Paused, Paused}
use secure_portfolio_copilot.Approval.Reading.{Recorded-ShowsAll, length-ShowsAll, and-both}
use secure_portfolio_copilot.Approval.Runner.{approval_lifetime, paused, pending_approval}
use secure_portfolio_copilot.Approval.Operations.{message_of, resumption, approve_once}
use secure_portfolio_copilot.Approval.Approving.{Guarded}
use secure_portfolio_copilot.Approval.Binding.{and-all}
use secure_portfolio_copilot.Approval.Consuming.{Guarded-ok}

-- No recorded plan is later than a version.
abbrev pub UpTo : ℕ → List AgentPlanVersion → Type 0
UpTo n rows = All (λ (r : AgentPlanVersion). r.version ≤ n) rows

abbrev pub has_version : ℕ → List AgentPlanVersion → Bool
has_version n rows = is_some (plan_record n rows)

UpTo-append :
    (n : ℕ) (rows : List AgentPlanVersion) (r : AgentPlanVersion)
    → UpTo n rows
    → r.version ≤ n
    → UpTo n (rows ++ r ∷ [])
UpTo-append n [] r h k = (k, tt)
UpTo-append n (x ∷ rows) r (h, hs) k = (h, UpTo-append n rows r hs k)

has_version-append :
    (rows : List AgentPlanVersion) (r : AgentPlanVersion)
    → has_version r.version (rows ++ r ∷ []) ≡ true
has_version-append [] r = ground (arith, nat_eq_iff r.version r.version)
has_version-append (x ∷ rows) r = ground (arith, has_version-append rows r)

-- One plan is recorded.
record_plan-has :
    (n : ℕ) (rows out : List AgentPlanVersion) (plan : Plan)
    → UpTo n rows
    → plan.version ≤ n
    → record_plan rows plan (plan_record plan.version rows) ≡ some out
    → UpTo n out × (has_version plan.version out ≡ true)
unfolding record_plan
record_plan-has n rows out plan upto bound h = elim (Option-cases (plan_record plan.version rows)) [
  | inl e ↦
      let new : rows ++ plan_row plan ∷ [] ≡ out = ground (arith, h, e) in
      subst (λ o. UpTo n o × (has_version plan.version o ≡ true)) new
        (UpTo-append n rows (plan_row plan) upto bound, has_version-append rows (plan_row plan))
  | inr (r, e) ↦
      let same : rows ≡ out = ground (arith, h, e) in
      subst (λ o. UpTo n o × (has_version plan.version o ≡ true)) same (upto, rw e refl)
]

-- All plans are recorded: the last version is there, and none is later.
record_plans-has :
    (n m : ℕ) (plans : List Plan) (rows : Option (List AgentPlanVersion))
    (out : List AgentPlanVersion)
    → ((r : List AgentPlanVersion) → rows ≡ some r → UpTo n r × (has_version m r ≡ true))
    → contiguous_from (suc m) plans ≡ true
    → n ≡ m + length plans
    → record_plans rows plans ≡ some out
    → UpTo n out × (has_version n out ≡ true)
unfolding record_plans contiguous_from
record_plans-has n m plans none out inv order count h = cc
record_plans-has n m [] (some rows) out inv order count h =
    let same : rows ≡ out = ground arith in
    let last : m ≡ n = omega (arith, count) in
    let (upto, has) = inv rows refl in
    subst (λ o. UpTo n o × (has_version n o ≡ true)) same
      (upto, subst (λ k. has_version k rows ≡ true) last has)
record_plans-has n m (plan ∷ plans) (some rows) out inv order count h =
    let version : plan.version ≡ suc m =
      (nat_eq_iff plan.version (suc m)).0 (ground (arith, order)) in
    record_plans-has n (suc m) plans _ out
      (λ r e.
        let (upto, has) =
          record_plan-has n rows r plan (inv rows refl).0 (omega (arith, version, count)) e in
        (upto, subst (λ k. has_version k r ≡ true) version has))
      (ground (arith, order)) (omega (arith, count)) h

latest_version-cases :
    (n : ℕ) (rows : List AgentPlanVersion)
    → UpTo n rows
    → (latest_version rows ≡ none) ⊎ ((k : ℕ) × (latest_version rows ≡ some k) × (k ≤ n))
unfolding latest_version
latest_version-cases n [] upto = inl refl
latest_version-cases n (r ∷ rows) (bound, upto) = elim (latest_version-cases n rows upto) [
  | inl e ↦ inr (r.version, rw e refl, bound)
  | inr (k, e, le) ↦ inr (max r.version k, rw e refl, omega (arith, bound, le))
]

latest_version-has :
    (n : ℕ) (rows : List AgentPlanVersion)
    → UpTo n rows
    → has_version n rows ≡ true
    → latest_version rows ≡ some n
unfolding latest_version
latest_version-has n [] upto has = cc
latest_version-has n (r ∷ rows) (bound, upto) has = elim (Bool-cases (r.version == n)) [
  | inl e ↦
      let here : r.version ≡ n = (nat_eq_iff r.version n).0 e in
      elim (latest_version-cases n rows upto) [
        | inl f ↦ rw f (ap some here)
        | inr (k, f, le) ↦ rw f (ap some (omega (arith, here, le)))
      ]
  | inr e ↦
      let rest = latest_version-has n rows upto (ground (arith, e)) in
      rw rest (ap some (omega (arith, bound)))
]

-- All plans of a history, from version 1 on.
latest-recorded :
    (plan : Plan) (plans : List Plan) (rows out : List AgentPlanVersion)
    → contiguous_from 1 (plan ∷ plans) ≡ true
    → UpTo (length (plan ∷ plans)) rows
    → record_plans (some rows) (plan ∷ plans) ≡ some out
    → latest_version out ≡ some (length (plan ∷ plans))
unfolding record_plans contiguous_from
latest-recorded plan plans rows out order upto h =
    let n = length (plan ∷ plans) in
    let version : plan.version ≡ 1 = (nat_eq_iff plan.version 1).0 (ground (arith, order)) in
    let (bound, has) =
      record_plans-has n 1 plans _ out
        (λ r e.
          let (all, found) = record_plan-has n rows r plan upto (omega (arith, version)) e in
          (all, subst (λ k. has_version k r ≡ true) version found))
        (ground (arith, order)) (omega arith) h in
    latest_version-has n out bound has

-- What the loop says of the approval that it asks for.
pub record Consistent (request : ApprovalRequired) (tool_name : String) : Type 0 where
  pub planned : is_empty request.plans ≡ false
  pub plan_version : request.plan_version ≡ length request.plans
  pub step : request.proposed_step_number ≡ length request.safe_steps + 1
  pub known : is_some (approved_tool_name tool_name) ≡ true

module _ (services : Services) (scope : AuthorizationScope) (id : ℕ) (request : ApprovalRequired)
    (tool_name : String) (now : ℕ) where
  latest-Paused :
      (plans : List Plan) (run next : RunRow)
      → request.plans ≡ plans
      → is_empty plans ≡ false
      → UpTo (length plans) run.plan_versions
      → Paused services scope id request tool_name now run next
      → (latest_version next.plan_versions ≡ some (length plans))
        × (next.plan_version_count ≡ length plans)
  latest-Paused [] run next same planned upto p = cc
  latest-Paused (plan ∷ plans) run next same planned upto p =
      let r = p.recorded in
      let (order, _) = and-both (contiguous_from 1 request.plans) _ r.fits in
      (
        ap (λ (x : RunRow). latest_version x.plan_versions) (sym p.written)
            ∙ (ap (λ (x : RunRow). latest_version x.plan_versions) (sym r.written)
                ∙ latest-recorded plan plans run.plan_versions r.plans
                    (subst (λ ps. contiguous_from 1 ps ≡ true) same order) upto
                    (subst (λ ps. record_plans (some run.plan_versions) ps ≡ some r.plans) same
                      r.planned)),
        ap (λ (x : RunRow). x.plan_version_count) (sym p.written)
            ∙ (ap (λ (x : RunRow). max x.plan_version_count (length request.plans)) (sym r.written)
                ∙ omega (arith, ap (λ (ps : List Plan). length ps) same)),
      )

  steps-Paused :
      (run next : RunRow)
      → Paused services scope id request tool_name now run next
      → length next.steps ≡ length request.safe_steps
  steps-Paused run next p =
      ap (λ (x : RunRow). length x.steps) (sym p.written)
      ∙ length-ShowsAll 1 p.mid.steps request.safe_steps request.safe_observations
          (Recorded-ShowsAll run _ p.mid p.recorded)

  found-Paused :
      (run next : RunRow)
      → Paused services scope id request tool_name now run next
      → approval_of id next.approval_requests
        ≡ some (pending_approval services scope id request tool_name now)
  found-Paused run next p =
      ap (λ (x : RunRow). approval_of id x.approval_requests) (sym p.written)
      ∙ approval_of-append_new (pending_approval services scope id request tool_name now)
          p.mid.approval_requests p.fresh

  current-Paused :
      (run next : RunRow)
      → Consistent request tool_name
      → UpTo (length request.plans) run.plan_versions
      → Paused services scope id request tool_name now run next
      → binding_is_current next (pending_approval services scope id request tool_name now) ≡ true
  unfolding binding_is_current
  current-Paused run next consistent upto p =
      let (latest, count) = latest-Paused request.plans run next refl consistent.planned upto p in
      let steps = steps-Paused run next p in
      and-all
        ((option_beq_iff (some request.plan_version) (latest_version next.plan_versions)).1
          (ap some consistent.plan_version ∙ sym latest))
        (and-all
          ((option_beq_iff (some next.plan_version_count) (latest_version next.plan_versions)).1
            (ap some count ∙ sym latest))
          (and-all
            ((nat_eq_iff request.proposed_step_number (length next.steps + 1)).1
              (omega (arith, consistent.step, steps)))
            (and-all ((eq_iff tool_name tool_name).1 refl) consistent.known)))

  -- A run that pauses for an approval can be resumed: once the pause is committed, the run's owner
  -- has the action carried out by one approval within the approval's lifetime, as long as the
  -- scope is the same, the run's first message is the owner's and the completed steps can be read
  -- again. The request is one whose plan is the last of its plans, whose step is the one after the
  -- completed steps and whose tool is approved, and no plan of the run is later than its plans.
  pub pause_then_approve :
      (context : AuthorizationContext) (db : Database) (run next : RunRow) (later : ℕ)
      (message_id : ℕ) (message : Message) (steps : List ReconstructedStep)
      → Consistent request tool_name
      → UpTo (length request.plans) run.plan_versions
      → paused services scope id request tool_name now run ≡ some next
      → db.runs next.id ≡ some next
      → resolve_home_tenant_id context ≡ some next.tenant_id
      → next.user_id ≡ context.identity.user_id
      → context.scope ≡ scope
      → later < now + approval_lifetime
      → next.initial_user_message_id ≡ some message_id
      → db.messages message_id ≡ some message
      → message.role ≡ MessageRole.user
      → message.user_id ≡ context.identity.user_id
      → reconstruct_completed_steps services scope next.steps ≡ some steps
      → (approve_once services context next.id id later db).0
        ≡ ok (
            resumption next
              (pending_approval services scope id request tool_name now)
              message
              steps)
  unfolding ApprovalStatus-discrete
  pause_then_approve context db run next later message_id message steps consistent upto h here home
        owner same_scope in_time asked kept role sender reconstructed =
      let p = paused-Paused services scope id request tool_name now run next h in
      let waits : next.lifecycle.status ≡ AgentRunStatus.awaiting_approval =
        ap (λ (x : RunRow). x.lifecycle.status) (sym p.written) ∙ p.moved in
      let call =
        resumption next (pending_approval services scope id request tool_name now) message steps in
      let can : Guarded services context next.id id later db call = record {
        run = next;
        approval = pending_approval services scope id request tool_name now;
        locked = record {
          tenant_id = next.tenant_id;
          home = home;
          here = here;
          owned =
              and-all ((nat_eq_iff next.tenant_id next.tenant_id).1 refl)
                ((nat_eq_iff next.user_id context.identity.user_id).1 owner);
          found = found-Paused run next p;
        };
        opened =
            (enum_beq_iff AgentRunStatus-discrete next.lifecycle.status
                AgentRunStatus.awaiting_approval).1
              waits;
        in_time = ground (arith, in_time);
        bound = current-Paused run next consistent upto p;
        same_scope = (eq_iff _ _).1 (ap services.scope_fingerprint (sym same_scope));
        message = message;
        asked = ap (message_of db) asked ∙ ap some kept;
        role = (enum_beq_iff MessageRole-discrete message.role MessageRole.user).1 role;
        sender = (nat_eq_iff message.user_id context.identity.user_id).1 sender;
        steps = steps;
        reconstructed =
            ap (λ s. reconstruct_completed_steps services s next.steps) same_scope ∙ reconstructed;
        called = refl;
      } in
      Guarded-ok services context next.id id later db call can
