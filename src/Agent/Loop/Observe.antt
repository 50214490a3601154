-- ===== src/Agent/Loop/Observe.antt =====
-- agent/loop.py: what `run` does with an observation, up to the answers that end the run.
use secure_portfolio_copilot.Base.{
  Bool, List, List-eq, Option, Option-eq, String, String-eq, [], if◌then◌else◌, is_empty, leb,
  length, map, none, not, some, ℕ, ℕ-eq, ◌&&◌, ◌++◌, ◌+◌, ◌==◌, ◌∷◌,
}
use secure_portfolio_copilot.Agent.Models.{ActionArguments, Action, Step, memory_proposal_input}
use secure_portfolio_copilot.Agent.PlanState.{Result, ok, err, PlanState, complete_next}
use secure_portfolio_copilot.Agent.Loop.Types.{
  TraceStatus, TerminalStatus, ObservationStatus, SafeStatus, StepPolicy, SafeStepSnapshot,
  SafeObservationSnapshot, TraceEventType, StoppingReason, StructuredObservation,
}
use secure_portfolio_copilot.Agent.Loop.Environment.{Environment}
use secure_portfolio_copilot.Agent.Loop.State.{
  Request, LoopState, Turn, Progress, exits, goes_on, ◌>>=◌, event, log, plain, terminate,
  search_tool, refused_text, failed_text, Exit,
}
use secure_portfolio_copilot.Agent.Loop.Finish.{tick, finalize_calculations, memory_answer}
use secure_portfolio_copilot.Agent.Loop.Act.{safe_step, safe_step_fits}
use secure_portfolio_copilot.Grounding.{GroundedEvidence, evidence_ids}
use secure_portfolio_copilot.Text.{Text, codes}

-- the conditional expressions on the status
abbrev pub safe_status : ObservationStatus → SafeStatus
safe_status ObservationStatus.success = SafeStatus.completed
safe_status ObservationStatus.denied = SafeStatus.denied
safe_status ObservationStatus.timeout = SafeStatus.timeout
safe_status ObservationStatus.error = SafeStatus.failed

abbrev pub safe_policy : ObservationStatus → StepPolicy
safe_policy ObservationStatus.denied = StepPolicy.denied
safe_policy _ = StepPolicy.allowed

abbrev pub tool_status : ObservationStatus → TraceStatus
tool_status ObservationStatus.success = TraceStatus.completed
tool_status ObservationStatus.denied = TraceStatus.denied
tool_status ObservationStatus.timeout = TraceStatus.timeout
tool_status ObservationStatus.error = TraceStatus.failed

abbrev pub safe_observation : StructuredObservation → SafeObservationSnapshot
safe_observation observation = record {
  status = observation.status;
  reason_code = observation.reason_code;
  document_ids = map (λ (e : GroundedEvidence). e.document_id) observation.evidence;
  chunk_ids = map (λ (e : GroundedEvidence). e.chunk_id) observation.evidence;
  citation_ids = evidence_ids observation.evidence;
  retry_count = observation.retry_count;
  duration_ms = observation.duration_ms;
}

-- pydantic's bounds on a `SafeObservationSnapshot`, whose three lists of ids are of one length
abbrev pub safe_observation_fits : StructuredObservation → Bool
safe_observation_fits observation =
    leb (length observation.evidence) 8
    && (leb observation.retry_count 1 && leb observation.duration_ms 120000)

-- `evidence_by_id[item.evidence_id] = item`, on the values of the dict in order
unfoldable pub put_evidence : List GroundedEvidence → GroundedEvidence → List GroundedEvidence
put_evidence [] item = item ∷ []
put_evidence (e ∷ es) item =
    let rest = put_evidence es item in
    if e.evidence_id == item.evidence_id then item ∷ es else e ∷ rest

unfoldable pub put_all : List GroundedEvidence → List GroundedEvidence → List GroundedEvidence
unfolding put_evidence
put_all known [] = known
put_all known (item ∷ items) = put_all (put_evidence known item) items

-- the counters and the session, once the observation is there
abbrev pub with_observation : LoopState → Action → StructuredObservation → LoopState
with_observation state action observation = record state {
  step_count = state.step_count + 1;
  retrieval_count =
      if action.action_name == some search_tool
      then state.retrieval_count + 1
      else state.retrieval_count;
  retry_count = state.retry_count + observation.retry_count;
  session = record state.session { observations = state.session.observations ++ observation ∷ [] };
}

abbrev pub snapshotted : LoopState → SafeStepSnapshot → StructuredObservation → LoopState
snapshotted state snapshot observation = record (tick state) {
  session = record state.session {
    safe_steps = state.session.safe_steps ++ snapshot ∷ [];
    safe_observations = state.session.safe_observations ++ safe_observation observation ∷ [];
  };
}

-- the three events of `trace.extend`
abbrev pub traced : LoopState → Action → StructuredObservation → ℕ → LoopState
traced state action observation tool_duration_ms =
    log
      (event TraceEventType.observation TraceStatus.completed "OBSERVATION_VALIDATED"
        action.action_name observation.duration_ms (evidence_ids observation.evidence))
      (log
        (event TraceEventType.tool (tool_status observation.status) observation.reason_code
          action.action_name tool_duration_ms (evidence_ids observation.evidence))
        (log
          (event TraceEventType.gateway TraceStatus.completed "ACTION_VALIDATED" action.action_name
            0 [])
          state))

-- the returns on a status other than success
unfoldable pub settle_status : Request → LoopState → ObservationStatus → Progress LoopState
settle_status request state ObservationStatus.success = goes_on state
settle_status request state ObservationStatus.denied =
    terminate request state TerminalStatus.refused StoppingReason.scope_denied (plain refused_text)
settle_status request state ObservationStatus.timeout =
    terminate request state TerminalStatus.failed StoppingReason.tool_timeout (plain failed_text)
settle_status request state ObservationStatus.error =
    terminate request state TerminalStatus.failed StoppingReason.tool_error (plain failed_text)

-- the state after `complete_next`, which is not under a `try`
unfoldable pub advance_plan : LoopState → Result PlanState → Progress (PlanState × LoopState)
advance_plan state (err e) = exits (Exit.plan_error e) state
advance_plan state (ok plan_state) = goes_on (
  plan_state,
  record state {
    session = record state.session {
      plans = plan_state.versions;
      completed_steps = plan_state.completed_history;
    };
  },
)

-- The third part of a round, from `step_count += 1` to the completed plan step.
unfoldable pub record_observation :
    Environment
    → Request
    → LoopState
    → Turn
    → Step
    → String
    → ℕ
    → StructuredObservation
    → Progress (PlanState × LoopState)
unfolding safe_step put_all settle_status advance_plan
record_observation env request state turn step name tool_started observation =
    let action = turn.decision.next_action in
    let current = with_observation state action observation in
    let snapshot =
      safe_step env current turn step name (safe_status observation.status)
        (safe_policy observation.status) observation.reason_code tool_started in
    let recorded =
      traced (snapshotted current snapshot observation) action observation snapshot.duration_ms in
    if not (safe_step_fits snapshot && safe_observation_fits observation)
    then exits Exit.validation_error (tick current)
    else do
      settled ← settle_status request recorded observation.status
      let known = put_all settled.evidence_by_id observation.evidence
      advance_plan (record settled { evidence_by_id = known })
          (complete_next env.digest turn.plan_state action)

-- `observation.memory_notification or …`
abbrev pub notification_text : Option Text → Text
notification_text (some (c ∷ cs)) = c ∷ cs
notification_text _ = codes "Memory proposal sent to host policy."

unfoldable pub conclude_proposal :
    {A : Type 0} → Request → LoopState → ActionArguments → Option Text → Progress A
conclude_proposal request state (memory_proposal_input content key explicit) notification =
    let proposal = memory_proposal_input content key explicit in
    terminate request
      (log
        (event TraceEventType.finalization TraceStatus.completed
          "MEMORY_PROPOSAL_SENT_TO_HOST_POLICY" none 0 [])
        state)
      TerminalStatus.completed StoppingReason.is_completed
      (record (plain (notification_text notification)) { memory_proposal = some proposal })
conclude_proposal request state _ notification =
    terminate request state TerminalStatus.failed StoppingReason.tool_error (plain failed_text)

-- The fourth part of a round: the answers that need no further model.
unfoldable pub conclude :
    Environment → Request → LoopState → Action → StructuredObservation → Progress LoopState
unfolding finalize_calculations memory_answer conclude_proposal
conclude env request state action observation =
    if not (is_empty observation.calculations)
    then finalize_calculations env request state observation.calculations observation.evidence
    else if action.action_name == some "portfolio.search_memory"
    then terminate request
        (log
          (event TraceEventType.finalization TraceStatus.completed "AUTHORIZED_MEMORY_SUMMARIZED"
            none 0 [])
          state)
        TerminalStatus.completed StoppingReason.is_completed
        (plain (memory_answer observation.memory_context))
    else if action.action_name == some "portfolio.propose_memory"
    then conclude_proposal request state action.arguments observation.memory_notification
    else goes_on state
