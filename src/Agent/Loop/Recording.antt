-- ===== src/Agent/Loop/Recording.antt =====
-- agent/loop.py: what holds of a round once its observation is there.
use secure_portfolio_copilot.Base.{
  All, Bool-cases, Exists, Exists-in, List, List-eq, Option, Option-eq, String, String-eq, [], ap,
  arith, inl, inr, length, not, option_beq_iff, refl, some, ℕ, ℕ-eq, ◌&&◌, ◌++◌, ◌+◌, ◌==◌, ◌∷◌,
  ◌≡◌, ◌⊎◌,
}
use secure_portfolio_copilot.Agent.Models.{Action, Step}
use secure_portfolio_copilot.Agent.PlanState.{
  ok, validate_next_action, complete_next, PlanState, completed_state,
}
use secure_portfolio_copilot.Grounding.{GroundedEvidence, citation}
use secure_portfolio_copilot.Agent.Loop.Types.{
  TerminalStatus, StoppingReason, StructuredObservation, ObservationStatus,
}
use secure_portfolio_copilot.Agent.Loop.Environment.{Environment}
use secure_portfolio_copilot.Agent.Loop.State.{
  Turn, Request, LoopState, failed_text, refused_text, search_tool,
}
use secure_portfolio_copilot.Agent.PlanState.Invariant.{complete_next-accepted}
use secure_portfolio_copilot.Agent.Loop.Observe.{
  safe_observation_fits, safe_observation_fits, snapshotted, traced, safe_policy, safe_status,
  advance_plan, record_observation, put_evidence, put_all, settle_status, with_observation,
}
use secure_portfolio_copilot.Agent.Loop.Sound.{
  Ends-bind, Ledger, ledger, Sourced, Ends, Sound, Ready, Closed,
}
use secure_portfolio_copilot.Agent.Loop.Ending.{plain-Closed}
use secure_portfolio_copilot.Agent.Loop.Choosing.{Admitted}
use secure_portfolio_copilot.Agent.Loop.Act.{safe_step_fits, safe_step}
use secure_portfolio_copilot.Agent.Loop.Spending.{Passed, Acted}

Exists-append :
    (P : StructuredObservation → Type 0) (xs ys : List StructuredObservation)
    → Exists P xs
    → Exists P (xs ++ ys)
Exists-append P [] ys m = elim m [ ]
Exists-append P (x ∷ xs) ys (inl e) = inl e
Exists-append P (x ∷ xs) ys (inr m) = inr (Exists-append P xs ys m)

Exists-last :
    (xs : List StructuredObservation) (o : StructuredObservation)
    → Exists (λ x. x ≡ o) (xs ++ o ∷ [])
Exists-last [] o = inl refl
Exists-last (x ∷ xs) o = inr (Exists-last xs o)

abbrev Backed : List StructuredObservation → List GroundedEvidence → Type 0
Backed observations evidence = All (λ item. Sourced observations (citation item)) evidence

Backed-append :
    (xs ys : List StructuredObservation) (evidence : List GroundedEvidence)
    → Backed xs evidence
    → Backed (xs ++ ys) evidence
Backed-append xs ys [] h = tt
Backed-append xs ys (item ∷ items) h = (
  Exists-append (λ (o : StructuredObservation). Exists (λ i. citation i ≡ citation item) o.evidence)
      xs ys h.0,
  Backed-append xs ys items h.1,
)

put_evidence-Backed :
    (observations : List StructuredObservation) (known : List GroundedEvidence)
    (item : GroundedEvidence)
    → Backed observations known
    → Sourced observations (citation item)
    → Backed observations (put_evidence known item)
unfolding put_evidence
put_evidence-Backed observations [] item h s = (s, tt)
put_evidence-Backed observations (e ∷ es) item h s =
    elim (Bool-cases (e.evidence_id == item.evidence_id)) [
      | inl q ↦ rw q (s, h.1)
      | inr q ↦ rw q (h.0, put_evidence-Backed observations es item h.1 s)
    ]

put_all-Backed :
    (observations : List StructuredObservation) (known items : List GroundedEvidence)
    → Backed observations known
    → Backed observations items
    → Backed observations (put_all known items)
unfolding put_all
put_all-Backed observations known [] h k = h
put_all-Backed observations known (item ∷ items) h k =
    put_all-Backed observations (put_evidence known item) items
      (put_evidence-Backed observations known item h k.0) k.1

-- The evidence of an observation is backed by it.
own-Backed :
    (o : StructuredObservation) (observations : List StructuredObservation)
    (evidence : List GroundedEvidence)
    → Exists (λ x. x ≡ o) observations
    → ((item : GroundedEvidence)
        → Exists (λ i. i ≡ item) evidence
        → Exists (λ i. i ≡ item) o.evidence)
    → Backed observations evidence
own-Backed o observations [] m sub = tt
own-Backed o observations (item ∷ items) m sub = (
  Exists-in (λ (x : StructuredObservation). Exists (λ i. citation i ≡ citation item) x.evidence)
      observations o m
      (Exists-in (λ i. citation i ≡ citation item) o.evidence item (sub item (inl refl)) refl),
  own-Backed o observations items m (λ i n. sub i (inr n)),
)

module _ (env : Environment) (request : Request) (approved : Option String) where
  -- The counters after a step stay within the limits that the guards have tested.
  with_observation-Sound :
      (s : LoopState) (l : Ledger) (a : Action) (name : String) (o : StructuredObservation)
      → Acted env request approved l a (ledger s)
      → Admitted request l a.action_name name
      → Sound env request approved (ledger (with_observation s a o))
  with_observation-Sound s l a name o acted admitted =
      let sound = acted.sound in
      record {
        steps = omega (arith, acted.unmoved.0, admitted.below);
        retrievals = elim (Bool-cases (a.action_name == some search_tool)) [
          | inl e ↦ rw e (
              omega (
                arith,
                acted.unmoved.1,
                admitted.searches ((option_beq_iff a.action_name (some search_tool)).0 e),
              ))
          | inr e ↦ rw e sound.retrievals
        ];
        replans = sound.replans;
        called = sound.called;
        cleared = sound.cleared;
        single = sound.single;
        held = sound.held;
        distinct = sound.distinct;
        backed = Backed-append s.session.observations (o ∷ []) s.evidence_by_id sound.backed;
      }

  evidence-Sound :
      (l : Ledger) (o : StructuredObservation)
      → Sound env request approved l
      → Exists (λ x. x ≡ o) l.observations
      → Sound env request approved (record l { evidence = put_all l.evidence o.evidence })
  evidence-Sound l o sound m = record {
    steps = sound.steps;
    retrievals = sound.retrievals;
    replans = sound.replans;
    called = sound.called;
    cleared = sound.cleared;
    single = sound.single;
    held = sound.held;
    distinct = sound.distinct;
    backed =
        put_all-Backed l.observations l.evidence o.evidence sound.backed
          (own-Backed o l.observations o.evidence m (λ i n. n));
  }

  settle_status-Closed :
      (s : LoopState) (status : ObservationStatus)
      → Sound env request approved (ledger s)
      → Ends (Closed env request approved) (λ t. t ≡ s) (settle_status request s status)
  unfolding settle_status
  settle_status-Closed s ObservationStatus.success sound = refl
  settle_status-Closed s ObservationStatus.denied sound =
      plain-Closed env request approved (λ (t : LoopState). t ≡ s) s sound TerminalStatus.refused
        StoppingReason.scope_denied refused_text
  settle_status-Closed s ObservationStatus.timeout sound =
      plain-Closed env request approved (λ (t : LoopState). t ≡ s) s sound TerminalStatus.failed
        StoppingReason.tool_timeout failed_text
  settle_status-Closed s ObservationStatus.error sound =
      plain-Closed env request approved (λ (t : LoopState). t ≡ s) s sound TerminalStatus.failed
        StoppingReason.tool_error failed_text

  -- The state of a round whose step is completed.
  pub record Recorded (l : Ledger) (o : StructuredObservation) (r : PlanState × LoopState)
      : Type 0 where
    pub ready : Ready env request approved r.0 (ledger r.1)
    pub step_count : r.1.step_count ≡ 1 + l.step_count
    pub kept : Exists (λ x. x ≡ o) r.1.session.observations

  -- What the completed plan step makes of the ledger.
  completed-Ready :
      (plan_state : PlanState) (l m : Ledger) (a : Action) (name : String) (step : Step)
      → Passed env request approved plan_state l a name
      → m.replan_count ≡ l.replan_count
      → (m.calls ≡ l.calls) ⊎ (m.calls ≡ a ∷ l.calls)
      → Sound env request approved m
      → m.step_count ≡ 1 + l.step_count
      → Ready env request approved (completed_state env.digest plan_state a step) m
  completed-Ready plan_state l m a name step p replans calls sound counted = record {
    sound = sound;
    replans = omega (arith, replans, p.ready.replans);
    called = elim calls [
      | inl e ↦ omega (arith, ap length e, p.ready.called, counted)
      | inr e ↦ omega (arith, ap length e, p.ready.called, counted)
    ];
    executed = λ f h. elim calls [
      | inl e ↦ ground (arith, e, p.ready.executed f)
      | inr e ↦ ground (arith, e, p.ready.executed f)
    ];
  }

  pub record_observation-Closed :
      (s : LoopState) (l : Ledger) (turn : Turn) (step : Step) (name : String) (tool_started : ℕ)
      (o : StructuredObservation)
      → Passed env request approved turn.plan_state l turn.decision.next_action name
      → Admitted request l turn.decision.next_action.action_name name
      → Acted env request approved l turn.decision.next_action (ledger s)
      → validate_next_action env.digest turn.plan_state turn.decision.next_action ≡ ok step
      → Ends
          (Closed env request approved)
          (Recorded l o)
          (record_observation env request s turn step name tool_started o)
  unfolding record_observation advance_plan
  record_observation-Closed s l turn step name tool_started o p admitted acted valid =
      let action = turn.decision.next_action in
      let closed = Closed env request approved in
      let current = with_observation s action o in
      let snapshot =
        safe_step env current turn step name (safe_status o.status) (safe_policy o.status)
          o.reason_code tool_started in
      let recorded = traced (snapshotted current snapshot o) action o snapshot.duration_ms in
      let sound = with_observation-Sound s l action name o acted admitted in
      let kept = Exists-last s.session.observations o in
      let known = put_all s.evidence_by_id o.evidence in
      let full = evidence-Sound (ledger current) o sound kept in
      elim (Bool-cases (not (safe_step_fits snapshot && safe_observation_fits o))) [
        | inl e ↦ rw e (sound, tt)
        | inr e ↦ rw e (
            Ends-bind closed (λ t. t ≡ recorded) (Recorded l o)
              (settle_status request recorded o.status)
              (λ settled.
                advance_plan
                  (record settled { evidence_by_id = put_all settled.evidence_by_id o.evidence })
                  (complete_next env.digest turn.plan_state action))
              (settle_status-Closed recorded o.status sound)
              (λ (t : LoopState) same. rw same (
                rw (complete_next-accepted env.digest turn.plan_state action step valid) (record {
                  ready =
                      completed-Ready turn.plan_state l
                        (ledger (record recorded { evidence_by_id = known })) action name step p
                        acted.unmoved.2 acted.calls full (omega (arith, acted.unmoved.0));
                  step_count = omega (arith, acted.unmoved.0);
                  kept = kept;
                }))))
      ]
