-- ===== src/Agent/Loop/Acting.antt =====
-- agent/loop.py: what holds of a round up to the observation of its step.
use secure_portfolio_copilot.Base.{
  Bool-cases, List, List-eq, Option, Option-eq, String, String-eq, [], ap, arith, if◌then◌else◌,
  inl, inr, none, not, refl, some, subst, suc, sym, zero, ℕ, ℕ-eq, ◌&&◌, ◌++◌, ◌==◌, ◌∙◌, ◌∷◌, ◌≡◌,
}
use secure_portfolio_copilot.Agent.Models.{Step}
use secure_portfolio_copilot.Agent.PlanState.{PlanState}
use secure_portfolio_copilot.Agent.Loop.Types.{
  ReconstructedStep, TerminalStatus, StoppingReason, StructuredObservation, SafeStatus, TraceStatus,
  StepPolicy,
}
use secure_portfolio_copilot.Agent.Loop.Environment.{
  classify_tool_risk, ToolAttempt, Environment, canonical_action_hash, observed, tool_timed_out,
  tool_raised,
}
use secure_portfolio_copilot.Agent.Loop.State.{Request, LoopState, Turn, log, failed_text}
use secure_portfolio_copilot.Agent.Loop.Finish.{remaining_ms, tick}
use secure_portfolio_copilot.Agent.Loop.Act.{
  act, settle_call, replay, obtain, must_pause, call_tool, fail_tool, safe_step, safe_step_fits,
}
use secure_portfolio_copilot.Agent.Loop.Sound.{Ledger, ledger, Ends, Sound, Closed}
use secure_portfolio_copilot.Agent.Loop.Ending.{plain-Closed}
use secure_portfolio_copilot.Agent.Loop.Spending.{
  pause-unapproved, pause-risky, gate, rest-none, needs_approval-named, Passed, Acted, spend,
  charge, spend-Sound, charge-Sound,
}

module _ (env : Environment) (request : Request) (approved : Option String) where
  module _ (turn : Turn) (step : Step) (name : String) where
    abbrev Observed : LoopState → StructuredObservation × LoopState → Type 0
    Observed s r = Acted env request approved (ledger s) turn.decision.next_action (ledger r.1)

    fail_tool-Closed :
        (Q : StructuredObservation × LoopState → Type 0) (s : LoopState) (tool_started : ℕ)
        (status : SafeStatus) (trace_status : TraceStatus) (code : String) (reason : StoppingReason)
        → Sound env request approved (ledger s)
        → Ends
            (Closed env request approved)
            Q
            (fail_tool env request s turn step name tool_started status trace_status code reason)
    unfolding fail_tool
    fail_tool-Closed Q s tool_started status trace_status code reason sound =
        let snapshot = safe_step env s turn step name status StepPolicy.allowed code tool_started in
        let timed = tick s in
        let kept = record timed {
          session = record timed.session { safe_steps = timed.session.safe_steps ++ snapshot ∷ [] };
        } in
        elim (Bool-cases (
          safe_step_fits
            (safe_step env s turn step name status StepPolicy.allowed code tool_started))) [
              | inl e ↦ rw e (
                  plain-Closed env request approved Q (log _ kept) sound TerminalStatus.failed
                    reason failed_text)
              | inr e ↦ rw e (sound, tt)
            ]

    settle_call-Closed :
        (Q : StructuredObservation × LoopState → Type 0) (s : LoopState) (tool_started : ℕ)
        (attempt : ToolAttempt)
        → Sound env request approved (ledger s)
        → ((o : StructuredObservation) → Q (o, s))
        → Ends
            (Closed env request approved)
            Q
            (settle_call env request s turn step name tool_started attempt)
    unfolding settle_call
    settle_call-Closed Q s tool_started (observed o) sound k = k o
    settle_call-Closed Q s tool_started tool_timed_out sound k =
        fail_tool-Closed Q s tool_started SafeStatus.timeout TraceStatus.timeout "TOOL_TIMEOUT"
          StoppingReason.tool_timeout sound
    settle_call-Closed Q s tool_started tool_raised sound k =
        fail_tool-Closed Q s tool_started SafeStatus.failed TraceStatus.failed "TOOL_ERROR"
          StoppingReason.tool_error sound

    call_tool-Closed :
        (l : Ledger) (s : LoopState) (tool_started left : ℕ)
        → Sound env request approved l
        → ledger s ≡ spend env request approved l
        → Sound env request approved (charge env request approved l turn.decision.next_action)
        → Ends
            (Closed env request approved)
            (λ (r : StructuredObservation × LoopState).
              Acted env request approved l turn.decision.next_action (ledger r.1))
            (call_tool env request s turn step name tool_started left)
    unfolding call_tool
    call_tool-Closed l s tool_started zero sound e charged =
        settle_call-Closed
          (λ (r : StructuredObservation × LoopState).
            Acted env request approved l turn.decision.next_action (ledger r.1))
          s tool_started tool_timed_out
          (subst (Sound env request approved) (sym e) (spend-Sound env request approved l sound))
          (λ o. subst (Acted env request approved l turn.decision.next_action) (sym e) (record {
            sound = spend-Sound env request approved l sound;
            unmoved = (refl, refl, refl, refl, refl);
            calls = inl refl;
          }))
    call_tool-Closed l s tool_started (suc left) sound e charged =
        let action = turn.decision.next_action in
        let called = record s { calls = action ∷ s.calls } in
        let same : ledger called ≡ charge env request approved l action =
          ap (λ (m : Ledger). record m { calls = action ∷ m.calls }) e in
        let sound' = subst (Sound env request approved) (sym same) charged in
        settle_call-Closed
          (λ (r : StructuredObservation × LoopState).
            Acted env request approved l action (ledger r.1))
          called tool_started (env.execute action request.permitted_tools (suc left)) sound'
          (λ o. subst (Acted env request approved l action) (sym same) (record {
            sound = charged;
            unmoved = (refl, refl, refl, refl, refl);
            calls = inr refl;
          }))

    act-Closed :
        (plan_state : PlanState) (s : LoopState) (tool_started : ℕ)
        → Passed env request approved plan_state (ledger s) turn.decision.next_action name
        → Ends
            (Closed env request approved)
            (Observed s)
            (act env request s turn step name tool_started)
    unfolding act
    act-Closed plan_state s tool_started p =
        let action = turn.decision.next_action in
        let hash = canonical_action_hash env action in
        let held = s.approved_action_hash in
        let mode = request.agent_control_mode in
        let risk = classify_tool_risk name in
        let sound = p.ready.sound in
        elim (Bool-cases (not (held == none) && not (held == some hash))) [
          | inl e ↦ rw e (sound, tt)
          | inr e ↦ rw e (elim (Bool-cases (must_pause mode risk hash held)) [
            | inl f ↦ rw f (
              sound,
              record {
                name = name;
                named = p.named;
                classified = refl;
                risky = pause-risky mode risk hash held f;
                unapproved = pause-unapproved mode risk hash held e f;
                paused = f;
                hashed = refl;
                remaining = omega (arith, sound.steps);
                step_count = refl;
              },
            )
            | inr f ↦ rw f (
                let rest = if held == some hash then none else held in
                let spent = record (tick s) { approved_action_hash = rest } in
                let left = rest-none hash held e in
                let way = gate mode risk hash held e f in
                call_tool-Closed (ledger s) spent tool_started (remaining_ms env request s) sound
                  (ap (λ (h : Option String). record (ledger s) { approved = h }) left)
                  (charge-Sound env request approved plan_state (ledger s) action name p (elim way [
                    | inl w ↦
                        inl
                          (w.0, needs_approval-named env request approved action name p.named ∙ w.1)
                    | inr w ↦ inr w
                  ])))
          ])
        ]

    replay-Closed :
        (plan_state : PlanState) (s : LoopState) (tool_started : ℕ)
        (reconstructed : List ReconstructedStep)
        → Passed env request approved plan_state (ledger s) turn.decision.next_action name
        → Ends
            (Closed env request approved)
            (Observed s)
            (replay env request s turn step name tool_started reconstructed)
    unfolding replay
    replay-Closed plan_state s tool_started [] p = act-Closed plan_state s tool_started p
    replay-Closed plan_state s tool_started (r ∷ rs) p =
        elim (Bool-cases
          (not (r.action_hash == canonical_action_hash env turn.decision.next_action))) [
            | inl e ↦ rw e (p.ready.sound, tt)
            | inr e ↦ rw e (record {
              sound = p.ready.sound;
              unmoved = (refl, refl, refl, refl, refl);
              calls = inl refl;
            })
          ]

    -- Either a reconstructed step is replayed, or the gateway is called, with the approval that the
    -- call needs.
    pub obtain-Closed :
        (plan_state : PlanState) (s : LoopState)
        → Passed env request approved plan_state (ledger s) turn.decision.next_action name
        → Ends (Closed env request approved) (Observed s) (obtain env request s turn step name)
    unfolding obtain
    obtain-Closed plan_state s p =
        replay-Closed plan_state (tick s) (env.clock s.ticks) s.reconstructed_steps p
