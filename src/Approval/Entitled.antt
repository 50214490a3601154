-- ===== src/Approval/Entitled.antt =====
-- agent/approval_service.py: the conditions under which `approve_once` uses an approval, written on
-- the rows alone.
use secure_portfolio_copilot.Base.{
  All, Bool-cases, List, List-eq, Option, Option-eq, String, String-eq, [], ap, arith, enum_beq_iff,
  eq_iff, false, find?, inl, inr, is_empty, is_some, length, map, nat_eq_iff, none, option_beq_iff,
  refl, some, subst, sym, true, ℕ, ℕ-eq, ◌+◌, ◌<◌, ◌==◌, ◌↔◌, ◌∙◌, ◌∷◌, ◌≡◌,
}
use secure_portfolio_copilot.Gateway.{
  manifest_names, tool_value, ApprovedToolName, approved_tool_name,
}
use secure_portfolio_copilot.Approval.Rows.{
  MessageRole-discrete, ApprovalStatus-discrete, home_tenants, MessageRole, ApprovalStatus,
  approval_of, AgentApprovalRequest, RunRow, Message, AuthorizationContext, Database,
}
use secure_portfolio_copilot.Approval.Service.{
  latest_version, binding_is_current, ok, RunnerCall, Services,
}
use secure_portfolio_copilot.Approval.Operations.{approve_once, message_of}
use secure_portfolio_copilot.Approval.Approving.{opened-waits, approve_once-ok, Guarded}
use secure_portfolio_copilot.Approval.Consuming.{Guarded-ok}
use secure_portfolio_copilot.Policy.{AuthorizationGrant}
use secure_portfolio_copilot.Lifecycle.RunState.{AgentRunStatus-discrete, AgentRunStatus}
use secure_portfolio_copilot.Approval.Binding.{
  and-all, and_iff, Newest-latest_version, latest_version-Newest, single_iff, Newest,
}
use secure_portfolio_copilot.Agent.Loop.Types.{ReconstructedStep}
use secure_portfolio_copilot.Approval.Replaying.{
  ReplaysAll-reconstruct, reconstruct-ReplaysAll, ReplaysAll,
}
use secure_portfolio_copilot.Gateway.Catalog.{tool_value-approved}

-- What has to hold for an approval to be used, and the call that follows.
pub record Entitled (services : Services) (context : AuthorizationContext)
    (run_id approval_id now : ℕ) (db : Database) (call : RunnerCall) : Type 0 where
  pub run : RunRow
  pub approval : AgentApprovalRequest
  pub here : db.runs run_id ≡ some run
  pub found : approval_of approval_id run.approval_requests ≡ some approval
  pub granted : is_empty context.scope.grants ≡ false
  pub home :
      All
        (λ (id : ℕ). id ≡ run.tenant_id)
        (map (λ (g : AuthorizationGrant). g.home_tenant_id) context.scope.grants)
  pub owner : run.user_id ≡ context.identity.user_id
  pub is_pending : approval.status ≡ ApprovalStatus.pending
  pub awaits : run.lifecycle.status ≡ AgentRunStatus.awaiting_approval
  pub in_time : now < approval.expires_at
  pub newest : Newest approval.plan_version run.plan_versions
  pub plans_counted : run.plan_version_count ≡ approval.plan_version
  pub next_step : approval.proposed_step_number ≡ length run.steps + 1
  pub action_named : approval.action_name ≡ approval.tool_name
  pub tool : ApprovedToolName
  pub tool_named : tool_value tool ≡ approval.tool_name
  pub same_scope :
      approval.authorization_scope_fingerprint ≡ services.scope_fingerprint context.scope
  pub message_id : ℕ
  pub asked : run.initial_user_message_id ≡ some message_id
  pub message : Message
  pub stored : db.messages message_id ≡ some message
  pub role : message.role ≡ MessageRole.user
  pub sender : message.user_id ≡ context.identity.user_id
  pub steps : List ReconstructedStep
  pub replayed : ReplaysAll services context.scope run.steps steps
  pub called : call ≡ record {
    conversation_id = run.conversation_id;
    question = message.content;
    response_mode = run.response_mode;
    agent_control_mode = run.agent_control_mode;
    approved_action_hash = some approval.action_argument_hash;
    resume_run = some run.id;
    reconstructed_steps = steps;
  }

is_empty-map :
    (grants : List AuthorizationGrant)
    → is_empty grants ≡ false
    → is_empty (map (λ (g : AuthorizationGrant). g.home_tenant_id) grants) ≡ false
is_empty-map [] h = cc
is_empty-map (g ∷ grants) h = refl

find-value :
    (names : List ApprovedToolName) (s : String) (name : ApprovedToolName)
    → find? (λ (n : ApprovedToolName). tool_value n == s) names ≡ some name
    → tool_value name ≡ s
find-value [] s name h = cc
find-value (n ∷ names) s name h = elim (Bool-cases (tool_value n == s)) [
  | inl e ↦
      let same : n ≡ name = ground (arith, h, e) in
      subst (λ m. tool_value m ≡ s) same ((eq_iff (tool_value n) s).0 e)
  | inr e ↦ find-value names s name (ground (arith, h, e))
]

approved-value :
    (s : String) (name : ApprovedToolName) → approved_tool_name s ≡ some name → tool_value name ≡ s
unfolding approved_tool_name
approved-value s name h = find-value manifest_names s name h

message_of-some :
    (db : Database) (id : Option ℕ) (message : Message)
    → message_of db id ≡ some (some message)
    → (n : ℕ) × (id ≡ some n) × (db.messages n ≡ some message)
message_of-some db none message h = absurd (cc h)
message_of-some db (some n) message h = (n, refl, ground arith)

-- `_binding_is_current`, condition by condition
binding_iff :
    (run : RunRow) (a : AgentApprovalRequest)
    → (binding_is_current run a ≡ true) ↔ (
        (latest_version run.plan_versions ≡ some a.plan_version)
        × (latest_version run.plan_versions ≡ some run.plan_version_count)
        × (a.proposed_step_number ≡ length run.steps + 1)
        × (a.action_name ≡ a.tool_name)
        × (is_some (approved_tool_name a.tool_name) ≡ true))
unfolding binding_is_current
binding_iff run a =
    let latest = latest_version run.plan_versions in
    let own = option_beq_iff (some a.plan_version) latest in
    let counted = option_beq_iff (some run.plan_version_count) latest in
    let step = nat_eq_iff a.proposed_step_number (length run.steps + 1) in
    let names = eq_iff a.action_name a.tool_name in
    (
      λ h.
          let (a₁, h₁) = (and_iff _ _).0 h in
          let (a₂, h₂) = (and_iff _ _).0 h₁ in
          let (a₃, h₃) = (and_iff _ _).0 h₂ in
          let (a₄, h₄) = (and_iff _ _).0 h₃ in
          (sym (own.0 a₁), sym (counted.0 a₂), step.0 a₃, names.0 a₄, h₄),
      λ (a₁, a₂, a₃, a₄, h).
          and-all (own.1 (sym a₁))
            (and-all (counted.1 (sym a₂)) (and-all (step.1 a₃) (and-all (names.1 a₄) h))),
    )

is_some-some : {A : Type 0} (x : Option A) → is_some x ≡ true → (a : A) × (x ≡ some a)
is_some-some none h = absurd (cc h)
is_some-some (some a) h = (a, refl)

module _ (services : Services) (context : AuthorizationContext) (run_id approval_id now : ℕ)
    (db : Database) (call : RunnerCall) where
  Guarded-Entitled :
      Guarded services context run_id approval_id now db call
      → Entitled services context run_id approval_id now db call
  Guarded-Entitled h =
      let locked = h.locked in
      let (some_grant, same_home) =
        (single_iff (home_tenants context) locked.tenant_id).0 locked.home in
      let here : locked.tenant_id ≡ h.run.tenant_id = ground (arith, locked.owned) in
      let (newest, counted, next_step, named, approved) =
        (binding_iff h.run h.approval).0 h.bound in
      let (tool, known) = is_some-some (approved_tool_name h.approval.tool_name) approved in
      let (message_id, asked, stored) =
        message_of-some db h.run.initial_user_message_id h.message h.asked in
      record {
        run = h.run;
        approval = h.approval;
        here = locked.here;
        found = locked.found;
        granted = ground (arith, some_grant);
        home = subst (λ t. All (λ id. id ≡ t) (home_tenants context)) here same_home;
        owner = ground (arith, locked.owned);
        is_pending =
            (enum_beq_iff ApprovalStatus-discrete h.approval.status ApprovalStatus.pending).0
              (ground (arith, h.opened));
        awaits = opened-waits h.run h.approval h.opened;
        in_time = ground (arith, h.in_time);
        newest = Newest-latest_version h.approval.plan_version h.run.plan_versions newest;
        plans_counted = ground (arith, newest, counted);
        next_step = next_step;
        action_named = named;
        tool = tool;
        tool_named = approved-value h.approval.tool_name tool known;
        same_scope = (eq_iff _ _).0 h.same_scope;
        message_id = message_id;
        asked = asked;
        message = h.message;
        stored = stored;
        role = (enum_beq_iff MessageRole-discrete h.message.role MessageRole.user).0 h.role;
        sender = (nat_eq_iff h.message.user_id context.identity.user_id).0 h.sender;
        steps = h.steps;
        replayed =
            reconstruct-ReplaysAll services context.scope h.run.steps h.steps h.reconstructed;
        called = sym h.called;
      }

  Entitled-Guarded :
      Entitled services context run_id approval_id now db call
      → Guarded services context run_id approval_id now db call
  Entitled-Guarded h =
      let latest = latest_version-Newest h.approval.plan_version h.run.plan_versions h.newest in
      let known : approved_tool_name h.approval.tool_name ≡ some h.tool =
        subst (λ s. approved_tool_name s ≡ some h.tool) h.tool_named (tool_value-approved h.tool) in
      record {
        run = h.run;
        approval = h.approval;
        locked = record {
          tenant_id = h.run.tenant_id;
          home =
              (single_iff (home_tenants context) h.run.tenant_id).1
                (is_empty-map context.scope.grants h.granted, h.home);
          here = h.here;
          owned =
              and-all ((nat_eq_iff h.run.tenant_id h.run.tenant_id).1 refl)
                ((nat_eq_iff h.run.user_id context.identity.user_id).1 h.owner);
          found = h.found;
        };
        opened =
            and-all
              ((enum_beq_iff ApprovalStatus-discrete h.approval.status ApprovalStatus.pending).1
                h.is_pending)
              ((enum_beq_iff AgentRunStatus-discrete h.run.lifecycle.status
                  AgentRunStatus.awaiting_approval).1
                h.awaits);
        in_time = ground (arith, h.in_time);
        bound = (binding_iff h.run h.approval).1 (
          latest,
          latest ∙ ap some (sym h.plans_counted),
          h.next_step,
          h.action_named,
          ap is_some known,
        );
        same_scope = (eq_iff _ _).1 h.same_scope;
        message = h.message;
        asked = ap (message_of db) h.asked ∙ ap some h.stored;
        role = (enum_beq_iff MessageRole-discrete h.message.role MessageRole.user).1 h.role;
        sender = (nat_eq_iff h.message.user_id context.identity.user_id).1 h.sender;
        steps = h.steps;
        reconstructed =
            ReplaysAll-reconstruct services context.scope h.run.steps h.steps h.replayed;
        called = sym h.called;
      }

  -- An approval is used, with the call of the runner that it is for, exactly if: the caller has
  -- grants, all of one home tenant, and the run is the caller's own there; the approval is one of
  -- the run's, is pending and has not expired, and the run awaits an approval; its plan version is
  -- the newest that is stored and the one that the run counts, its step is the next one, and its
  -- action is an approved tool; the caller's scope has the fingerprint that was stored; the run's
  -- first message is a user's and the caller's; and every stored step was a success of a tool that
  -- does not calculate, whose excerpts can each be read again. The call then has the hash of the
  -- approved action, the run's own question, modes and conversation, and the steps that were read.
  pub approve_once_iff :
      ((approve_once services context run_id approval_id now db).0 ≡ ok call)
      ↔ Entitled services context run_id approval_id now db call
  approve_once_iff = (
    λ h. Guarded-Entitled (approve_once-ok services context run_id approval_id now db call h),
    λ h. Guarded-ok services context run_id approval_id now db call (Entitled-Guarded h),
  )
