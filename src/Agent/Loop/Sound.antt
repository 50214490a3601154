-- ===== src/Agent/Loop/Sound.antt =====
-- agent/loop.py: what is kept from the start of a run to its end, and the logic of its phases.
use secure_portfolio_copilot.Base.{
  All, Bool, Exists, List, List-eq, Option, Option-eq, String, String-eq, [], contains, false,
  filter, length, map, none, some, true, ℕ, ℕ-eq, ◌+◌, ◌≡◌, ◌≤◌, ◌⊎◌,
}
use secure_portfolio_copilot.Agent.Models.{Action, tool_call}
use secure_portfolio_copilot.Agent.PlanState.{PlanState, action_fingerprint}
use secure_portfolio_copilot.Agent.PlanState.Invariant.{Distinct}
use secure_portfolio_copilot.Grounding.{GroundedEvidence, GroundedCitationData, citation}
use secure_portfolio_copilot.Agent.Loop.Types.{
  guided, always_require_approval, StructuredObservation, TerminalStatus, AgentRunOutcome,
  ApprovalRequired,
}
use secure_portfolio_copilot.Agent.Loop.Environment.{
  Environment, canonical_action_hash, classify_tool_risk,
}
use secure_portfolio_copilot.Agent.Loop.State.{
  Request, LoopState, Progress, exits, goes_on, ◌>>=◌, Exit,
}
use secure_portfolio_copilot.Agent.Loop.Act.{must_pause}

-- The part of a state that is neither trace, session nor clock, with the session's observations.
pub record Ledger : Type 0 where
  pub step_count : ℕ
  pub replan_count : ℕ
  pub retrieval_count : ℕ
  pub approved : Option String
  pub calls : List Action
  pub evidence : List GroundedEvidence
  pub observations : List StructuredObservation

abbrev pub ledger : LoopState → Ledger
ledger s = record {
  step_count = s.step_count;
  replan_count = s.replan_count;
  retrieval_count = s.retrieval_count;
  approved = s.approved_action_hash;
  calls = s.calls;
  evidence = s.evidence_by_id;
  observations = s.session.observations;
}

-- A citation of an item of one of the observations.
abbrev pub Sourced : List StructuredObservation → GroundedCitationData → Type 0
Sourced observations c =
    Exists (λ (o : StructuredObservation). Exists (λ item. citation item ≡ c) o.evidence)
      observations

-- How a phase ends: in `P` where it ends the run, and in `Q` where it goes on.
abbrev pub Ends : {A : Type 0} → (Exit → LoopState → Type 0) → (A → Type 0) → Progress A → Type 0
Ends P Q (exits e s) = P e s
Ends P Q (goes_on a) = Q a

pub Ends-bind :
    {A B : Type 0} (P : Exit → LoopState → Type 0) (Q : A → Type 0) (R : B → Type 0)
    (m : Progress A) (next : A → Progress B)
    → Ends P Q m
    → ((a : A) → Q a → Ends P R (next a))
    → Ends P R (m >>= next)
Ends-bind P Q R (exits e s) next h k = h
Ends-bind P Q R (goes_on a) next h k = k a h

pub Ends-weaken :
    {A : Type 0} (P : Exit → LoopState → Type 0) (Q R : A → Type 0) (m : Progress A)
    → Ends P Q m
    → ((a : A) → Q a → R a)
    → Ends P R m
Ends-weaken P Q R (exits e s) h k = h
Ends-weaken P Q R (goes_on a) h k = k a h

module _ (env : Environment) (request : Request) where
  -- whether a call of the tool pauses when nothing is approved
  abbrev pub needs_approval : Action → Bool
  needs_approval a = elim a.action_name [
    | none ↦ false
    | some name ↦
        must_pause request.agent_control_mode (classify_tool_risk name)
          (canonical_action_hash env a) none
  ]

  -- A call that the loop may make, `approved` being the hash that the run was given.
  pub record Clear (approved : Option String) (a : Action) : Type 0 where
    pub typed : a.type ≡ tool_call
    pub permitted :
        (name : String) × (a.action_name ≡ some name)
        × (contains request.permitted_tools name ≡ true)
    pub consented : (needs_approval a ≡ false) ⊎ (approved ≡ some (canonical_action_hash env a))

  abbrev pub fingerprints : List Action → List String
  fingerprints calls = map (action_fingerprint env.digest) calls

  abbrev pub open_approval : Option String → ℕ
  open_approval none = 0
  open_approval (some hash) = 1

  pub record Sound (approved : Option String) (l : Ledger) : Type 0 where
    pub steps : l.step_count ≤ request.limits.max_steps
    pub retrievals : l.retrieval_count ≤ 1 + request.limits.max_retrieval_rewrites
    pub replans : l.replan_count ≤ 1 + request.limits.max_replans
    pub called : length l.calls ≤ request.limits.max_steps
    pub cleared : All (Clear approved) l.calls
    pub single : length (filter needs_approval l.calls) + open_approval l.approved ≤ 1
    pub held : (l.approved ≡ none) ⊎ (l.approved ≡ approved)
    pub distinct : Distinct (fingerprints l.calls)
    pub backed : All (λ item. Sourced l.observations (citation item)) l.evidence

  -- At the head of the loop the plan state knows every call as executed.
  pub record Ready (approved : Option String) (plan_state : PlanState) (l : Ledger) : Type 0 where
    pub sound : Sound approved l
    pub replans : l.replan_count ≤ request.limits.max_replans
    pub called : length l.calls ≤ l.step_count
    pub executed :
        (f : String)
        → contains (fingerprints l.calls) f ≡ true
        → contains plan_state.executed_action_fingerprints f ≡ true

  -- An outcome carries claims, citations and calculations only where it is completed, its
  -- citations are of observed evidence, and it reports the counters.
  pub record Reported (l : Ledger) (o : AgentRunOutcome) : Type 0 where
    pub guarded :
        (o.terminal_status ≡ TerminalStatus.completed)
        ⊎ ((o.claims ≡ []) × (o.citations ≡ []) × (o.calculations ≡ []))
    pub sourced : All (Sourced l.observations) o.citations
    pub step_count : o.step_count ≡ l.step_count
    pub replan_count : o.replan_count ≡ l.replan_count

  -- A pause is for a call of a tool that needs an approval by its own risk or by the mode, while no
  -- approval is held, and counts the steps that are left.
  pub record Asked (l : Ledger) (a : ApprovalRequired) : Type 0 where
    pub name : String
    pub named : a.action.action_name ≡ some name
    pub classified : a.risk_class ≡ classify_tool_risk name
    pub risky :
        (classify_tool_risk name ≡ always_require_approval) ⊎ (request.agent_control_mode ≡ guided)
    pub unapproved : l.approved ≡ none
    pub paused :
        must_pause request.agent_control_mode (classify_tool_risk name) a.action_hash l.approved
        ≡ true
    pub hashed : a.action_hash ≡ canonical_action_hash env a.action
    pub remaining : a.remaining_tools + a.step_count ≡ request.limits.max_steps
    pub step_count : a.step_count ≡ l.step_count

  abbrev pub Fine : Ledger → Exit → Type 0
  Fine l (Exit.finished o) = Reported l o
  Fine l (Exit.approval_required a) = Asked l a
  Fine l Exit.reconstruction_mismatch = Unit
  Fine l (Exit.plan_error e) = ⊥
  Fine l Exit.validation_error = Unit

  -- How a run ends.
  abbrev pub Closed : Option String → Exit → LoopState → Type 0
  Closed approved e s = Sound approved (ledger s) × Fine (ledger s) e
