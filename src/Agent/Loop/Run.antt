-- ===== src/Agent/Loop/Run.antt =====
-- agent/loop.py: `run` from its start to the first decision, the renewed perception, and the loop.
use secure_portfolio_copilot.Base.{
  Bool, List, List-eq, Option, Option-eq, String, String-eq, [], false, if◌then◌else◌, leb, length,
  ltb, map, none, not, some, suc, total, true, zero, ℕ, ℕ-eq, ◌&&◌, ◌++◌, ◌+◌, ◌-◌, ◌∷◌,
}
use secure_portfolio_copilot.Agent.PlanState.{PlanState, initial, apply_decision}
use secure_portfolio_copilot.Agent.Loop.Types.{
  TraceStatus, TerminalStatus, TraceEventType, StoppingReason, StructuredObservation,
  PerceptionSnapshot, RemainingBudgets, ReconstructedStep,
}
use secure_portfolio_copilot.Agent.Loop.Environment.{Environment}
use secure_portfolio_copilot.Agent.Loop.State.{
  Request, LoopState, Turn, Progress, exits, goes_on, ◌>>=◌, event, log, plain, terminate,
  failed_text, Exit,
}
use secure_portfolio_copilot.Agent.Loop.Finish.{tick, remaining_ms, awaited}
use secure_portfolio_copilot.Agent.Loop.Act.{settle_plan, choose, obtain}
use secure_portfolio_copilot.Agent.Loop.Observe.{record_observation, conclude}
use secure_portfolio_copilot.Grounding.{evidence_ids}

-- `RemainingBudgets(…)`
unfoldable pub budgets :
    Environment → Request → LoopState → StructuredObservation → RemainingBudgets
budgets env request state observation = record {
  tool_steps = request.limits.max_steps - state.step_count;
  retrieval_rewrites = request.limits.max_retrieval_rewrites - (state.retrieval_count - 1);
  replans = request.limits.max_replans - state.replan_count;
  latest_tool_retries = 1 - observation.retry_count;
  duration_ms = remaining_ms env request state;
}

-- pydantic's bounds on it
abbrev pub budgets_fit : RemainingBudgets → Bool
budgets_fit b =
    leb b.tool_steps 4
    && (leb b.retrieval_rewrites 1
        && (leb b.replans 1 && (leb b.latest_tool_retries 1 && leb b.duration_ms 120000)))

abbrev pub perceived : LoopState → PerceptionSnapshot → LoopState
perceived state perception = record state {
  session = record state.session { perceptions = state.session.perceptions ++ perception ∷ [] };
}

abbrev pub with_plans : LoopState → PlanState → LoopState
with_plans state plan_state = record state {
  session = record state.session { plans = plan_state.versions };
}

-- `if changed: …`
unfoldable pub count_replan : Request → LoopState → Bool → Progress LoopState
count_replan request state false = goes_on state
count_replan request state true =
    let counted = record state { replan_count = state.replan_count + 1 } in
    if ltb request.limits.max_replans counted.replan_count
    then terminate request counted TerminalStatus.limit_reached StoppingReason.max_replans
        (plain failed_text)
    else goes_on counted

-- The last part of a round: the new perception, the new decision and the plan that follows.
unfoldable pub reperceive :
    Environment
    → Request
    → LoopState
    → PlanState
    → PerceptionSnapshot
    → StructuredObservation
    → Progress (Turn × LoopState)
unfolding awaited settle_plan budgets count_replan
reperceive env request state plan_state previous observation =
    let remaining = budgets env request state observation in
    if not (budgets_fit remaining) then exits Exit.validation_error (tick state) else do
      (perception, seen) ← awaited env request (tick state) (
          env.perceive_step_result request.query previous plan_state.current_plan
            plan_state.completed_history observation remaining)
      let logged =
          log
            (event TraceEventType.perception TraceStatus.completed "STEP_RESULT_PERCEIVED" none 0
              (evidence_ids observation.evidence))
            (perceived seen perception)
      (decision, decided) ← awaited env request logged (
          env.decide_mid_session request.query perception plan_state.current_plan
            plan_state.completed_history request.permitted_tools)
      (next_state, changed) ←
          settle_plan request decided (apply_decision env.digest plan_state decision)
      counted ← count_replan request decided changed
      let turn : Turn = record {
        plan_state = next_state;
        decision = decision;
        perception = perception;
      }
      goes_on (turn, with_plans counted next_state)

-- the body of `while True`
unfoldable pub round : Environment → Request → LoopState → Turn → Progress (Turn × LoopState)
unfolding choose obtain record_observation conclude reperceive
round env request state turn = do
  (step, name, admitted) ← choose env request state turn
  (observation, acted) ← obtain env request admitted turn step name
  (plan_state, observed) ←
      record_observation env request acted turn step name (env.clock admitted.ticks) observation
  going ← conclude env request observed turn.decision.next_action observation
  reperceive env request going plan_state turn.perception observation

-- `gateway.set_evidence_sequence`, of gateway_adapter.py
unfoldable pub sequence_fits : List ReconstructedStep → Bool
sequence_fits steps =
    leb (total (map (λ (s : ReconstructedStep). length s.observation.evidence) steps)) 32

-- `run` up to the loop
unfoldable pub begin : Environment → Request → LoopState → Progress (Turn × LoopState)
unfolding awaited settle_plan sequence_fits
begin env request state =
    if not (sequence_fits state.reconstructed_steps) then exits Exit.validation_error state else do
      (perception, seen) ← awaited env request state (env.perceive_user_query request.query)
      let bound =
          log
            (event TraceEventType.gateway TraceStatus.completed "CAPABILITY_SHORTLIST_BOUND" none 0
              [])
            (log (event TraceEventType.policy TraceStatus.completed "TRUSTED_SCOPE_BOUND" none 0 [])
              (log
                (event TraceEventType.perception TraceStatus.completed "PERCEPTION_COMPLETED" none 0
                  [])
                (perceived seen perception)))
      (decision, decided) ←
          awaited env request bound
            (env.decide_initial request.query perception request.permitted_tools)
      plan_state ← settle_plan request decided (initial env.digest decision)
      let turn : Turn = record {
        plan_state = plan_state;
        decision = decision;
        perception = perception;
      }
      goes_on (turn, with_plans decided plan_state)

abbrev pub initial_state : Option String → List ReconstructedStep → LoopState
initial_state approved reconstructed = record {
  session = record {
    perceptions = [];
    plans = [];
    completed_steps = [];
    observations = [];
    safe_steps = [];
    safe_observations = [];
  };
  trace = [];
  evidence_by_id = [];
  step_count = 0;
  replan_count = 0;
  retry_count = 0;
  retrieval_count = 0;
  reconstructed_steps = reconstructed;
  approved_action_hash = approved;
  ticks = 1;
  calls = [];
}

-- `none` where the fuel is used up
unfoldable pub run_rounds :
    Environment → Request → ℕ → Progress (Turn × LoopState) → Option (Exit × LoopState)
unfolding round
run_rounds env request fuel (exits exit state) = some (exit, state)
run_rounds env request zero (goes_on (turn, state)) = none
run_rounds env request (suc fuel) (goes_on (turn, state)) =
    run_rounds env request fuel (round env request state turn)

-- `AgentLoop.run`; its first reading of the clock is number 0
unfoldable pub run :
    Environment → Request → Option String → List ReconstructedStep → Option (Exit × LoopState)
unfolding begin run_rounds
run env request approved reconstructed =
    let timed = record request { started = env.clock 0 } in
    run_rounds env timed (suc request.limits.max_steps)
      (begin env timed (initial_state approved reconstructed))
