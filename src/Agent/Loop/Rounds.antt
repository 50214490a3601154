-- ===== src/Agent/Loop/Rounds.antt =====
-- agent/loop.py: what every round keeps, and that the rounds come to an end.
use secure_portfolio_copilot.Base.{
  Bool, Bool-cases, List-eq, Option, Option-eq, String, String-eq, ap, arith, false, inl, inr, ltb,
  not, refl, subst, sym, true, ℕ, ℕ-eq, ◌+◌, ◌∙◌, ◌≡◌, ◌≤◌,
}
use secure_portfolio_copilot.Agent.Models.{DecisionResult}
use secure_portfolio_copilot.Agent.PlanState.{PlanState, ok, apply_decision}
use secure_portfolio_copilot.Agent.PlanState.Invariant.{apply_decision-Applied}
use secure_portfolio_copilot.Agent.Loop.Types.{
  TerminalStatus, StoppingReason, StructuredObservation, PerceptionSnapshot,
}
use secure_portfolio_copilot.Agent.Loop.Environment.{Environment}
use secure_portfolio_copilot.Agent.Loop.State.{Request, LoopState, Turn, log, failed_text}
use secure_portfolio_copilot.Agent.Loop.Finish.{tick, awaited}
use secure_portfolio_copilot.Agent.Loop.Act.{settle_plan}
use secure_portfolio_copilot.Agent.Loop.Run.{
  budgets, budgets_fit, perceived, count_replan, reperceive,
}
use secure_portfolio_copilot.Agent.Loop.Sound.{
  Ledger, ledger, Ends, Ends-bind, Sound, Ready, Closed,
}
use secure_portfolio_copilot.Agent.Loop.Ending.{plain-Closed, awaited-Closed, settle_plan-Closed}

module _ (env : Environment) (request : Request) (approved : Option String) where
  -- A decision executes nothing.
  decision-executed :
      (s t : PlanState) (d : DecisionResult) (changed : Bool)
      → apply_decision env.digest s d ≡ ok (t, changed)
      → t.executed_action_fingerprints ≡ s.executed_action_fingerprints
  decision-executed s t d true h =
      let (e, _, _) = (apply_decision-Applied env.digest s d t true h).replaced refl in
      ap (λ (p : PlanState). p.executed_action_fingerprints) e
  decision-executed s t d false h =
      let (e, _, _) = (apply_decision-Applied env.digest s d t false h).kept refl in
      ap (λ (p : PlanState). p.executed_action_fingerprints) e

  decision-Ready :
      (s t : PlanState) (l : Ledger)
      → t.executed_action_fingerprints ≡ s.executed_action_fingerprints
      → Ready env request approved s l
      → Ready env request approved t l
  decision-Ready s t l e r = record {
    sound = r.sound;
    replans = r.replans;
    called = r.called;
    executed = λ f h. rw e (r.executed f h);
  }

  replan-Sound :
      (l : Ledger)
      → l.replan_count ≤ request.limits.max_replans
      → Sound env request approved l
      → Sound env request approved (record l { replan_count = l.replan_count + 1 })
  replan-Sound l h s = record {
    steps = s.steps;
    retrievals = s.retrievals;
    replans = omega (arith, h);
    called = s.called;
    cleared = s.cleared;
    single = s.single;
    held = s.held;
    distinct = s.distinct;
    backed = s.backed;
  }

  -- The head of the loop, reached with a step count.
  pub record Headed (count : ℕ) (plan_state : PlanState) (s : LoopState) : Type 0 where
    pub ready : Ready env request approved plan_state (ledger s)
    pub step_count : s.step_count ≡ count

  count_replan-Closed :
      (plan_state : PlanState) (s : LoopState) (changed : Bool)
      → Ready env request approved plan_state (ledger s)
      → Ends
          (Closed env request approved)
          (Headed s.step_count plan_state)
          (count_replan request s changed)
  unfolding count_replan
  count_replan-Closed plan_state s false r = record { ready = r; step_count = refl }
  count_replan-Closed plan_state s true r =
      let counted = record s { replan_count = s.replan_count + 1 } in
      let sound = replan-Sound (ledger s) r.replans r.sound in
      elim (Bool-cases (ltb request.limits.max_replans counted.replan_count)) [
        | inl e ↦ rw e (
            plain-Closed env request approved (Headed s.step_count plan_state) counted sound
              TerminalStatus.limit_reached StoppingReason.max_replans failed_text)
        | inr e ↦ rw e (record {
          ready = record {
            sound = sound;
            replans = ground arith;
            called = r.called;
            executed = r.executed;
          };
          step_count = refl;
        })
      ]

  abbrev Renewed : ℕ → Turn × LoopState → Type 0
  Renewed count r = Headed count r.0.plan_state r.1

  pub reperceive-Closed :
      (s : LoopState) (plan_state : PlanState) (previous : PerceptionSnapshot)
      (o : StructuredObservation)
      → Ready env request approved plan_state (ledger s)
      → Ends
          (Closed env request approved)
          (Renewed s.step_count)
          (reperceive env request s plan_state previous o)
  unfolding reperceive
  reperceive-Closed s plan_state previous o r =
      let closed = Closed env request approved in
      let remaining = budgets env request s o in
      elim (Bool-cases (not (budgets_fit remaining))) [
        | inl e ↦ rw e (r.sound, tt)
        | inr e ↦ rw e (
            Ends-bind closed (λ (p : PerceptionSnapshot × LoopState). ledger p.1 ≡ ledger s)
              (Renewed s.step_count)
              (awaited env request (tick s) (
                env.perceive_step_result request.query previous plan_state.current_plan
                  plan_state.completed_history o remaining))
              _
              (awaited-Closed env request approved (tick s)
                (env.perceive_step_result request.query previous plan_state.current_plan
                  plan_state.completed_history o remaining)
                r.sound)
              (λ (p : PerceptionSnapshot × LoopState) e₁.
                let logged = log _ (perceived p.1 p.0) in
                Ends-bind closed (λ (d : DecisionResult × LoopState). ledger d.1 ≡ ledger p.1)
                  (Renewed s.step_count)
                  (awaited env request logged (
                    env.decide_mid_session request.query p.0 plan_state.current_plan
                      plan_state.completed_history request.permitted_tools))
                  _
                  (awaited-Closed env request approved logged
                    (env.decide_mid_session request.query p.0 plan_state.current_plan
                      plan_state.completed_history request.permitted_tools)
                    (subst (Sound env request approved) (sym e₁) r.sound))
                  (λ (d : DecisionResult × LoopState) e₂.
                    let applied = apply_decision env.digest plan_state d.0 in
                    let same : ledger s ≡ ledger d.1 = sym (e₂ ∙ e₁) in
                    let here = subst (Ready env request approved plan_state) same r in
                    Ends-bind closed (λ (q : PlanState × Bool). applied ≡ ok q)
                      (Renewed s.step_count) (settle_plan request d.1 applied) _
                      (settle_plan-Closed env request approved d.1 here.sound applied)
                      (λ (q : PlanState × Bool) h.
                        Ends-bind closed (Headed d.1.step_count q.0) (Renewed s.step_count)
                          (count_replan request d.1 q.1) _
                          (count_replan-Closed q.0 d.1 q.1 (
                            decision-Ready plan_state q.0 (ledger d.1)
                              (decision-executed plan_state q.0 d.0 q.1 h) here))
                          (λ (t : LoopState) headed. record {
                            ready = headed.ready;
                            step_count =
                                headed.step_count ∙ ap (λ (l : Ledger). l.step_count) (e₂ ∙ e₁);
                          })))))
      ]
