-- ===== src/Agent/Loop/Act.antt =====
-- agent/loop.py: one round of the `while True` loop, from the decision to the observation.
use secure_portfolio_copilot.Base.{
  Bool, List, List-eq, Option, Option-eq, String, String-eq, [], contains, false, if◌then◌else◌,
  leb, none, not, some, suc, true, zero, ℕ, ℕ-eq, ◌&&◌, ◌++◌, ◌+◌, ◌-◌, ◌==◌, ◌∷◌,
}
use secure_portfolio_copilot.Agent.Models.{ActionType, Step, tool_call, clarify, refuse}
use secure_portfolio_copilot.Agent.PlanState.{
  PlanError, Result, ok, err, plan_contract, validate_next_action,
}
use secure_portfolio_copilot.Agent.Loop.Types.{
  TraceEventType, TerminalStatus, TraceStatus, StoppingReason, StructuredObservation, SafeStatus,
  StepPolicy, SafeStepSnapshot, AgentControlMode, ApprovalRiskClass, always_require_approval,
  guided, ReconstructedStep, malformed_action, clarification_required, request_refused,
  scope_denied, ApprovalRiskClass-eq, AgentControlMode-eq,
}
use secure_portfolio_copilot.Agent.Loop.Environment.{
  ToolAttempt, Environment, observed, tool_timed_out, tool_raised, canonical_action_hash,
  classify_tool_risk,
}
use secure_portfolio_copilot.Agent.Loop.State.{
  Request, LoopState, Turn, Progress, exits, goes_on, ◌>>=◌, event, log, plain, failed_text,
  clarify_text, refused_text, terminate, Exit, search_tool,
}
use secure_portfolio_copilot.Agent.Loop.Finish.{tick, remaining_ms, finalize}

-- the `except` clauses round the calls of the plan state
unfoldable pub settle_plan : {A : Type 0} → Request → LoopState → Result A → Progress A
settle_plan request state (ok a) = goes_on a
settle_plan request state (err plan_contract) =
    terminate request state TerminalStatus.failed malformed_action (plain failed_text)
settle_plan request state (err PlanError.plan_exhausted) =
    terminate request state TerminalStatus.failed StoppingReason.plan_exhausted (plain failed_text)

-- `TOOL_NOT_PERMITTED`
abbrev pub refused_tool : {A : Type 0} → Request → LoopState → Option String → Progress A
refused_tool request state name =
    terminate request
      (log (event TraceEventType.gateway TraceStatus.denied "TOOL_NOT_PERMITTED" name 0 []) state)
      TerminalStatus.refused scope_denied (plain refused_text)

-- the guards on a tool call, from `step_count >= max_steps` to the assertion on the name
unfoldable pub admit_tool : Request → LoopState → Option String → Progress (String × LoopState)
admit_tool request state action_name =
    if leb request.limits.max_steps state.step_count
    then terminate request state TerminalStatus.limit_reached StoppingReason.max_steps
        (plain failed_text)
    else if (action_name == some search_tool)
        && leb (1 + request.limits.max_retrieval_rewrites) state.retrieval_count
    then terminate request state TerminalStatus.limit_reached StoppingReason.max_retrieval_rewrites
        (plain failed_text)
    else elim action_name [
      | none ↦ refused_tool request state none
      | some name ↦
          if contains request.permitted_tools name
          then goes_on (name, state)
          else refused_tool request state (some name)
    ]

-- the dispatch on the type of the action
unfoldable pub dispatch :
    Environment → Request → LoopState → ActionType → Option String → Progress (String × LoopState)
unfolding admit_tool
dispatch env request state clarify action_name =
    terminate request state TerminalStatus.needs_clarification clarification_required
      (plain clarify_text)
dispatch env request state refuse action_name =
    terminate request state TerminalStatus.refused request_refused (plain refused_text)
dispatch env request state ActionType.finalize action_name = finalize env request state
dispatch env request state tool_call action_name = admit_tool request state action_name

-- The first part of a round: the step that is at hand and the name of its tool.
unfoldable pub choose :
    Environment → Request → LoopState → Turn → Progress (Step × String × LoopState)
unfolding settle_plan dispatch
choose env request state turn = do
  let action = turn.decision.next_action
  let decided =
      log
        (event TraceEventType.decision TraceStatus.completed "DECISION_PRODUCED" action.action_name
          0 [])
        state
  step ← settle_plan request decided (validate_next_action env.digest turn.plan_state action)
  (name, admitted) ← dispatch env request decided action.type action.action_name
  goes_on (step, name, admitted)

-- `_must_pause`
unfoldable pub must_pause : AgentControlMode → ApprovalRiskClass → String → Option String → Bool
must_pause mode risk action_hash approved_hash =
    if approved_hash == some action_hash
    then false
    else if risk == always_require_approval
    then true
    else mode == guided

-- pydantic's bounds on a `SafeStepSnapshot`
abbrev pub safe_step_fits : SafeStepSnapshot → Bool
safe_step_fits step =
    leb 1 step.plan_version
    && (leb step.plan_version 2 && (leb step.plan_step_index 2 && leb step.duration_ms 120000))

unfoldable pub safe_step :
    Environment
    → LoopState
    → Turn
    → Step
    → String
    → SafeStatus
    → StepPolicy
    → String
    → ℕ
    → SafeStepSnapshot
safe_step env state turn step name status policy reason_code tool_started = record {
  plan_version = turn.plan_state.current_plan.version;
  plan_step_index = step.step_index;
  tool_name = name;
  action_argument_hash = canonical_action_hash env turn.decision.next_action;
  status = status;
  policy_decision = policy;
  reason_code = reason_code;
  duration_ms = env.clock state.ticks - tool_started;
}

-- the two `except` clauses round the gateway's call
unfoldable pub fail_tool :
    Environment
    → Request
    → LoopState
    → Turn
    → Step
    → String
    → ℕ
    → SafeStatus
    → TraceStatus
    → String
    → StoppingReason
    → Progress (StructuredObservation × LoopState)
unfolding safe_step
fail_tool env request state turn step name tool_started status trace_status code reason =
    let snapshot = safe_step env state turn step name status StepPolicy.allowed code tool_started in
    let timed = tick state in
    let kept = record timed {
      session = record timed.session { safe_steps = timed.session.safe_steps ++ snapshot ∷ [] };
    } in
    if safe_step_fits snapshot
    then terminate request
        (log
          (event TraceEventType.tool trace_status code turn.decision.next_action.action_name 0 [])
          kept)
        TerminalStatus.failed reason (plain failed_text)
    else exits Exit.validation_error timed

-- how the gateway's call ends
unfoldable pub settle_call :
    Environment
    → Request
    → LoopState
    → Turn
    → Step
    → String
    → ℕ
    → ToolAttempt
    → Progress (StructuredObservation × LoopState)
unfolding fail_tool
settle_call env request state turn step name tool_started (observed observation) =
    goes_on (observation, state)
settle_call env request state turn step name tool_started tool_timed_out =
    fail_tool env request state turn step name tool_started SafeStatus.timeout TraceStatus.timeout
      "TOOL_TIMEOUT" StoppingReason.tool_timeout
settle_call env request state turn step name tool_started tool_raised =
    fail_tool env request state turn step name tool_started SafeStatus.failed TraceStatus.failed
      "TOOL_ERROR" StoppingReason.tool_error

-- the gateway's call, in the time that is left; without time it is not made
unfoldable pub call_tool :
    Environment
    → Request
    → LoopState
    → Turn
    → Step
    → String
    → ℕ
    → ℕ
    → Progress (StructuredObservation × LoopState)
unfolding settle_call
call_tool env request state turn step name tool_started zero =
    settle_call env request state turn step name tool_started tool_timed_out
call_tool env request state turn step name tool_started (suc left) =
    let action = turn.decision.next_action in
    settle_call env request (record state { calls = action ∷ state.calls }) turn step name
      tool_started (env.execute action request.permitted_tools (suc left))

-- the `else` branch: no reconstructed step is left
unfoldable pub act :
    Environment
    → Request
    → LoopState
    → Turn
    → Step
    → String
    → ℕ
    → Progress (StructuredObservation × LoopState)
unfolding call_tool
act env request state turn step name tool_started =
    let action = turn.decision.next_action in
    let action_hash = canonical_action_hash env action in
    let risk = classify_tool_risk name in
    let approved = state.approved_action_hash in
    let rest = if approved == some action_hash then none else approved in
    let spent = record (tick state) { approved_action_hash = rest } in
    if not (approved == none) && not (approved == some action_hash)
    then exits Exit.reconstruction_mismatch state
    else if must_pause request.agent_control_mode risk action_hash approved
    then exits
        (Exit.approval_required (record {
          action = action;
          action_hash = action_hash;
          plan_version = turn.plan_state.current_plan.version;
          proposed_step_number = state.step_count + 1;
          plans = turn.plan_state.versions;
          step_count = state.step_count;
          remaining_tools = request.limits.max_steps - state.step_count;
          risk_class = risk;
          safe_steps = state.session.safe_steps;
          safe_observations = state.session.safe_observations;
        }))
        state
    else call_tool env request spent turn step name tool_started (remaining_ms env request state)

unfoldable pub replay :
    Environment
    → Request
    → LoopState
    → Turn
    → Step
    → String
    → ℕ
    → List ReconstructedStep
    → Progress (StructuredObservation × LoopState)
unfolding act
replay env request state turn step name tool_started [] =
    act env request state turn step name tool_started
replay env request state turn step name tool_started (reconstructed ∷ later) =
    if not (reconstructed.action_hash == canonical_action_hash env turn.decision.next_action)
    then exits Exit.reconstruction_mismatch state
    else goes_on (reconstructed.observation, record state { reconstructed_steps = later })

-- The second part of a round: the observation of the step, and when its tool was started.
unfoldable pub obtain :
    Environment
    → Request
    → LoopState
    → Turn
    → Step
    → String
    → Progress (StructuredObservation × LoopState)
unfolding replay
obtain env request state turn step name =
    replay env request (tick state) turn step name (env.clock state.ticks) state.reconstructed_steps
