-- ===== src/Agent/Loop/Spending.antt =====
-- agent/loop.py: what a call of the gateway costs, in calls and in approvals.
use secure_portfolio_copilot.Base.{
  Bool-cases, List-eq, Option, Option-eq, String, String-eq, ap, arith, contains, enum_beq_iff,
  false, filter, if◌then◌else◌, inl, inr, length, none, not, option_beq_iff, refl, some, true, ℕ-eq,
  ◌&&◌, ◌+◌, ◌<◌, ◌==◌, ◌∷◌, ◌≡◌, ◌≤◌, ◌⊎◌,
}
use secure_portfolio_copilot.Agent.Models.{Action, tool_call}
use secure_portfolio_copilot.Agent.PlanState.{PlanState, action_fingerprint}
use secure_portfolio_copilot.Agent.Loop.Types.{
  always_require_approval, always_require_approval, always_require_approval,
  always_require_approval, always_require_approval, always_require_approval,
  always_require_approval, always_require_approval, always_require_approval,
  always_require_approval, always_require_approval, always_require_approval,
  always_require_approval, always_require_approval, always_require_approval,
  always_require_approval, always_require_approval, always_require_approval,
  always_require_approval, always_require_approval, always_require_approval,
  always_require_approval, always_require_approval, always_require_approval,
  always_require_approval, ApprovalRiskClass-eq, AgentControlMode-discrete,
  ApprovalRiskClass-discrete, guided, always_require_approval, AgentControlMode, ApprovalRiskClass,
}
use secure_portfolio_copilot.Agent.Loop.Environment.{
  classify_tool_risk, Environment, canonical_action_hash,
}
use secure_portfolio_copilot.Agent.Loop.State.{Request}
use secure_portfolio_copilot.Agent.Loop.Act.{must_pause}
use secure_portfolio_copilot.Agent.Loop.Sound.{Ledger, Sound, Ready, needs_approval, open_approval}

-- A hash that is neither absent nor this action's is a mismatch, so a call that does not pause is
-- either free of approval or the approved one.
pub gate :
    (mode : AgentControlMode) (risk : ApprovalRiskClass) (hash : String) (held : Option String)
    → (not (held == none) && not (held == some hash)) ≡ false
    → must_pause mode risk hash held ≡ false
    → ((held ≡ none) × (must_pause mode risk hash none ≡ false)) ⊎ (held ≡ some hash)
gate mode risk hash none e f = inl (refl, f)
gate mode risk hash (some h) e f = inr (ground (arith, option_beq_iff (some h) (some hash)))

-- Where the code pauses, the tool's own risk or the mode asks for it, and no approval is held.
pub pause-risky :
    (mode : AgentControlMode) (risk : ApprovalRiskClass) (hash : String) (held : Option String)
    → must_pause mode risk hash held ≡ true
    → (risk ≡ always_require_approval) ⊎ (mode ≡ guided)
unfolding must_pause
pause-risky mode risk hash held f = elim (Bool-cases (risk == always_require_approval)) [
  | inl e ↦ inl ((enum_beq_iff ApprovalRiskClass-discrete risk always_require_approval).0 e)
  | inr e ↦ inr ((enum_beq_iff AgentControlMode-discrete mode guided).0 (ground (arith, e, f)))
]

pub pause-unapproved :
    (mode : AgentControlMode) (risk : ApprovalRiskClass) (hash : String) (held : Option String)
    → (not (held == none) && not (held == some hash)) ≡ false
    → must_pause mode risk hash held ≡ true
    → held ≡ none
unfolding must_pause
pause-unapproved mode risk hash none e f = refl
pause-unapproved mode risk hash (some h) e f = ground arith

-- the hash that is left after the call
pub rest-none :
    (hash : String) (held : Option String)
    → (not (held == none) && not (held == some hash)) ≡ false
    → (if held == some hash then none else held) ≡ none
rest-none hash none e = ground arith
rest-none hash (some h) e = ground arith

module _ (env : Environment) (request : Request) (approved : Option String) where
  -- A tool call that the guards have let through, and whose fingerprint is new.
  pub record Passed (plan_state : PlanState) (l : Ledger) (a : Action) (name : String)
      : Type 0 where
    pub ready : Ready env request approved plan_state l
    pub typed : a.type ≡ tool_call
    pub named : a.action_name ≡ some name
    pub permitted : contains request.permitted_tools name ≡ true
    pub below : l.step_count < request.limits.max_steps
    pub fresh :
        contains plan_state.executed_action_fingerprints (action_fingerprint env.digest a) ≡ false

  -- The ledger after a step, which either was replayed or has called the gateway.
  pub record Acted (l : Ledger) (a : Action) (m : Ledger) : Type 0 where
    pub sound : Sound env request approved m
    pub unmoved :
        (m.step_count ≡ l.step_count)
        × (m.retrieval_count ≡ l.retrieval_count)
        × (m.replan_count ≡ l.replan_count)
        × (m.evidence ≡ l.evidence)
        × (m.observations ≡ l.observations)
    pub calls : (m.calls ≡ l.calls) ⊎ (m.calls ≡ a ∷ l.calls)

  -- what the approval depends on, once the name is known
  pub needs_approval-named :
      (a : Action) (name : String)
      → a.action_name ≡ some name
      → needs_approval env request a
        ≡ must_pause request.agent_control_mode
            (classify_tool_risk name)
            (canonical_action_hash env a)
            none
  needs_approval-named a name h =
      ap
        (λ (o : Option String). elim o [
          | none ↦ false
          | some n ↦
              must_pause request.agent_control_mode (classify_tool_risk n)
                (canonical_action_hash env a) none
        ])
        h

  abbrev pub spend : Ledger → Ledger
  spend l = record l { approved = none }

  abbrev pub charge : Ledger → Action → Ledger
  charge l a = record (spend l) { calls = a ∷ l.calls }

  pub spend-Sound :
      (l : Ledger) → Sound env request approved l → Sound env request approved (spend l)
  spend-Sound l s = record {
    steps = s.steps;
    retrievals = s.retrievals;
    replans = s.replans;
    called = s.called;
    cleared = s.cleared;
    single = omega (arith, s.single);
    held = inl refl;
    distinct = s.distinct;
    backed = s.backed;
  }

  -- The call takes the approval where it needs one.
  charge-single :
      (l : Ledger) (a : Action) (hash : String)
      → (needs_approval env request a ≡ false) ⊎ (l.approved ≡ some hash)
      → length (filter (needs_approval env request) l.calls) + open_approval env request l.approved
        ≤ 1
      → length (filter (needs_approval env request) (a ∷ l.calls)) + 0 ≤ 1
  charge-single l a hash (inl e) h = ground arith
  charge-single l a hash (inr e) h = ground arith

  pub charge-Sound :
      (plan_state : PlanState) (l : Ledger) (a : Action) (name : String)
      → Passed plan_state l a name
      → ((l.approved ≡ none) × (needs_approval env request a ≡ false))
        ⊎ (l.approved ≡ some (canonical_action_hash env a))
      → Sound env request approved (charge l a)
  charge-Sound plan_state l a name p way =
      let s = p.ready.sound in
      let hash = canonical_action_hash env a in
      record {
        steps = s.steps;
        retrievals = s.retrievals;
        replans = s.replans;
        called = omega (arith, p.ready.called, p.below);
        cleared = (
          record {
            typed = p.typed;
            permitted = (name, p.named, p.permitted);
            consented = elim way [
              | inl w ↦ inl w.1
              | inr w ↦ elim s.held [ inl h ↦ absurd (cc (h, w)) | inr h ↦ inr (cc (h, w)) ]
            ];
          },
          s.cleared,
        );
        single = charge-single l a hash (elim way [ inl w ↦ inl w.1 | inr w ↦ inr w ]) s.single;
        held = inl refl;
        distinct = (
          ground (arith, p.ready.executed (action_fingerprint env.digest a), p.fresh),
          s.distinct,
        );
        backed = s.backed;
      }
