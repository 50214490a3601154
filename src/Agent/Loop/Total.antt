-- ===== src/Agent/Loop/Total.antt =====
-- agent/loop.py: every run ends, and what holds where it ends.
use secure_portfolio_copilot.Base.{
  Bool-cases, List, List-eq, Option, Option-eq, String, String-eq, [], ap, arith, inl, inr, length,
  none, not, refl, some, subst, suc, sym, zero, ℕ, ℕ-eq, ◌+◌, ◌<◌, ◌∙◌, ◌≡◌, ◌≤◌,
}
use secure_portfolio_copilot.Agent.Models.{Step, DecisionResult}
use secure_portfolio_copilot.Agent.PlanState.{PlanState, ok, initial}
use secure_portfolio_copilot.Agent.PlanState.Invariant.{validate_iff}
use secure_portfolio_copilot.Agent.Loop.Types.{
  StructuredObservation, PerceptionSnapshot, ReconstructedStep,
}
use secure_portfolio_copilot.Agent.Loop.Environment.{Environment}
use secure_portfolio_copilot.Agent.Loop.State.{
  Request, LoopState, Turn, Progress, exits, goes_on, Exit, log,
}
use secure_portfolio_copilot.Agent.Loop.Finish.{awaited}
use secure_portfolio_copilot.Agent.Loop.Act.{choose, obtain, settle_plan}
use secure_portfolio_copilot.Agent.Loop.Observe.{record_observation, conclude}
use secure_portfolio_copilot.Agent.Loop.Run.{
  perceived, reperceive, round, begin, sequence_fits, initial_state, run_rounds, run,
}
use secure_portfolio_copilot.Agent.Loop.Sound.{
  Ledger, ledger, Ends, Ends-bind, Ends-weaken, Sound, Ready, Closed, open_approval,
}
use secure_portfolio_copilot.Agent.Loop.Ending.{awaited-Closed, settle_plan-Closed}
use secure_portfolio_copilot.Agent.Loop.Concluding.{conclude-Closed}
use secure_portfolio_copilot.Agent.Loop.Choosing.{Admitted, Chosen, choose-Closed}
use secure_portfolio_copilot.Agent.Loop.Spending.{Passed, Acted}
use secure_portfolio_copilot.Agent.Loop.Acting.{obtain-Closed}
use secure_portfolio_copilot.Agent.Loop.Recording.{Recorded, record_observation-Closed}
use secure_portfolio_copilot.Agent.Loop.Rounds.{Headed, reperceive-Closed}

module _ (env : Environment) (request : Request) (approved : Option String) where
  abbrev Renewed : ℕ → Turn × LoopState → Type 0
  Renewed count r = Headed env request approved count r.0.plan_state r.1

  Chosen-Passed :
      (s : LoopState) (turn : Turn) (step : Step) (name : String) (t : LoopState)
      → Ready env request approved turn.plan_state (ledger s)
      → Chosen env request approved s turn (step, name, t)
      → Passed env request approved turn.plan_state (ledger t) turn.decision.next_action name
  Chosen-Passed s turn step name t ready chosen = record {
    ready = subst (Ready env request approved turn.plan_state) (sym chosen.same) ready;
    typed = chosen.typed;
    named = chosen.admitted.named;
    permitted = chosen.admitted.permitted;
    below =
        subst (λ (l : Ledger). l.step_count < request.limits.max_steps) (sym chosen.same)
          chosen.admitted.below;
    fresh =
        ((validate_iff env.digest turn.plan_state turn.decision.next_action step).0
          chosen.validated).3;
  }

  -- A round that goes on has made exactly one more step.
  round-Closed :
      (s : LoopState) (turn : Turn)
      → Ready env request approved turn.plan_state (ledger s)
      → Ends (Closed env request approved) (Renewed (1 + s.step_count)) (round env request s turn)
  unfolding round
  round-Closed s turn ready =
      let closed = Closed env request approved in
      let action = turn.decision.next_action in
      let goal = Renewed (1 + s.step_count) in
      Ends-bind closed (Chosen env request approved s turn) goal (choose env request s turn) _
        (choose-Closed env request approved s turn ready.sound)
        (λ ((step, name, t) : Step × String × LoopState) chosen.
          let p = Chosen-Passed s turn step name t ready chosen in
          let admitted =
            subst (λ l. Admitted request l action.action_name name) (sym chosen.same)
              chosen.admitted in
          Ends-bind closed
            (λ (r : StructuredObservation × LoopState).
              Acted env request approved (ledger t) action (ledger r.1))
            goal (obtain env request t turn step name) _
            (obtain-Closed env request approved turn step name turn.plan_state t p)
            (λ ((o, u) : StructuredObservation × LoopState) acted.
              Ends-bind closed (Recorded env request approved (ledger t) o) goal
                (record_observation env request u turn step name (env.clock t.ticks) o) _
                (record_observation-Closed env request approved u (ledger t) turn step name
                  (env.clock t.ticks) o p admitted acted chosen.validated)
                (λ ((plan_state, v) : PlanState × LoopState) recorded.
                  Ends-bind closed (λ w. w ≡ v) goal (conclude env request v action o) _
                    (conclude-Closed env request approved v action o recorded.ready.sound
                      recorded.kept)
                    (λ w same. rw same (
                      Ends-weaken closed (Renewed v.step_count) goal
                        (reperceive env request v plan_state turn.perception o)
                        (reperceive-Closed env request approved v plan_state turn.perception o
                          recorded.ready)
                        (λ r headed. record {
                          ready = headed.ready;
                          step_count =
                              headed.step_count
                              ∙ recorded.step_count
                              ∙ ap (λ (l : Ledger). 1 + l.step_count) chosen.same;
                        }))))))

  -- Rounds with enough fuel come to an end.
  run_rounds-Closed :
      (fuel : ℕ) (phase : Progress (Turn × LoopState))
      → Ends
          (Closed env request approved)
          (λ (r : Turn × LoopState).
            Ready env request approved r.0.plan_state (ledger r.1)
            × (request.limits.max_steps < r.1.step_count + fuel))
          phase
      → (r : Exit × LoopState) × (run_rounds env request fuel phase ≡ some r)
        × Closed env request approved r.0 r.1
  unfolding run_rounds
  run_rounds-Closed fuel (exits exit s) h = ((exit, s), refl, h)
  run_rounds-Closed zero (goes_on (turn, s)) h = absurd (omega (arith, h.0.sound.steps, h.1))
  run_rounds-Closed (suc fuel) (goes_on (turn, s)) h =
      run_rounds-Closed fuel (round env request s turn) (
        Ends-weaken (Closed env request approved) (Renewed (1 + s.step_count))
          (λ (r : Turn × LoopState).
            Ready env request approved r.0.plan_state (ledger r.1)
            × (request.limits.max_steps < r.1.step_count + fuel))
          (round env request s turn) (round-Closed s turn h.0)
          (λ r headed. (headed.ready, omega (arith, headed.step_count, h.1))))

  initial-Sound :
      (reconstructed : List ReconstructedStep)
      → Sound env request approved (ledger (initial_state approved reconstructed))
  initial-Sound reconstructed = record {
    steps = omega arith;
    retrievals = omega arith;
    replans = omega arith;
    called = omega arith;
    cleared = tt;
    single = elim approved as (λ a. 0 + open_approval env request a ≤ 1) [
      | none ↦ omega arith
      | some hash ↦ omega arith
    ];
    held = inr refl;
    distinct = tt;
    backed = tt;
  }

  begin-Closed :
      (s : LoopState)
      → Sound env request approved (ledger s)
      → s.calls ≡ []
      → s.replan_count ≡ 0
      → Ends (Closed env request approved) (Renewed s.step_count) (begin env request s)
  unfolding begin
  begin-Closed s sound no_calls no_replans =
      let closed = Closed env request approved in
      elim (Bool-cases (not (sequence_fits s.reconstructed_steps))) [
        | inl e ↦ rw e (sound, tt)
        | inr e ↦ rw e (
            Ends-bind closed (λ (p : PerceptionSnapshot × LoopState). ledger p.1 ≡ ledger s)
              (Renewed s.step_count) (awaited env request s (env.perceive_user_query request.query))
              _
              (awaited-Closed env request approved s (env.perceive_user_query request.query) sound)
              (λ (p : PerceptionSnapshot × LoopState) e₁.
                let bound = log _ (log _ (log _ (perceived p.1 p.0))) in
                Ends-bind closed (λ (d : DecisionResult × LoopState). ledger d.1 ≡ ledger p.1)
                  (Renewed s.step_count)
                  (awaited env request bound
                    (env.decide_initial request.query p.0 request.permitted_tools))
                  _
                  (awaited-Closed env request approved bound
                    (env.decide_initial request.query p.0 request.permitted_tools)
                    (subst (Sound env request approved) (sym e₁) sound))
                  (λ (d : DecisionResult × LoopState) e₂.
                    let started = initial env.digest d.0 in
                    let same : ledger d.1 ≡ ledger s = e₂ ∙ e₁ in
                    let here = subst (Sound env request approved) (sym same) sound in
                    Ends-bind closed (λ (q : PlanState). started ≡ ok q) (Renewed s.step_count)
                      (settle_plan request d.1 started) _
                      (settle_plan-Closed env request approved d.1 here started)
                      (λ (q : PlanState) h. record {
                        ready = subst (Ready env request approved q) (sym same) (record {
                          sound = sound;
                          replans = omega (arith, no_replans);
                          called = omega (arith, ap length no_calls);
                          executed = λ f m. absurd (ground (arith, no_calls));
                        });
                        step_count = ap (λ (l : Ledger). l.step_count) same;
                      }))))
      ]

abbrev pub timed : Environment → Request → Request
timed env request = record request { started = env.clock 0 }

-- A run ends in one of its exits, with everything that holds there.
pub run-Closed :
    (env : Environment) (request : Request) (approved : Option String)
    (reconstructed : List ReconstructedStep)
    → (r : Exit × LoopState) × (run env request approved reconstructed ≡ some r)
      × Closed env (timed env request) approved r.0 r.1
unfolding run
run-Closed env request approved reconstructed =
    let asked = timed env request in
    let first = initial_state approved reconstructed in
    run_rounds-Closed env asked approved (suc request.limits.max_steps) (begin env asked first) (
      Ends-weaken (Closed env asked approved)
        (λ (r : Turn × LoopState). Headed env asked approved 0 r.0.plan_state r.1)
        (λ (r : Turn × LoopState).
          Ready env asked approved r.0.plan_state (ledger r.1)
          × (request.limits.max_steps < r.1.step_count + suc request.limits.max_steps))
        (begin env asked first)
        (begin-Closed env asked approved first (initial-Sound env asked approved reconstructed) refl
          refl)
        (λ r headed. (headed.ready, omega (arith, headed.step_count))))
