-- ===== src/Lifecycle/RunState.antt =====
-- agent/run_state.py, and `transition_run` of agent/history_repository.py.
use secure_portfolio_copilot.Base.{
  Eq, List, List-eq, Option, Option-eq, String, String-eq, [], contains, enum_eq, if◌then◌else◌,
  is_some, none, not, some, ℕ, ℕ-eq, ◌&&◌, ◌==◌, ◌∷◌,
}

-- models/agent_runs.py
pub data AgentRunStatus : Type 0 where
  created running awaiting_approval completed refused : AgentRunStatus
  clarification_required insufficient_evidence limit_reached failed cancelled : AgentRunStatus

unfoldable pub AgentRunStatus-discrete : Discrete AgentRunStatus
AgentRunStatus-discrete = hlevel

instance abbrev pub AgentRunStatus-eq : Eq AgentRunStatus
AgentRunStatus-eq = enum_eq AgentRunStatus-discrete

abbrev pub terminal_agent_run_statuses : List AgentRunStatus
terminal_agent_run_statuses =
    completed ∷ refused ∷ clarification_required ∷ insufficient_evidence ∷ limit_reached ∷ failed
    ∷ cancelled ∷ []

-- `_ALLOWED_TRANSITIONS`
abbrev pub allowed_transitions : AgentRunStatus → List AgentRunStatus
allowed_transitions created = running ∷ refused ∷ cancelled ∷ failed ∷ []
allowed_transitions running = awaiting_approval ∷ terminal_agent_run_statuses
allowed_transitions awaiting_approval = running ∷ cancelled ∷ failed ∷ []
allowed_transitions _ = []

-- `none` is `InvalidAgentRunTransition`
unfoldable pub validate_agent_run_transition :
    AgentRunStatus → AgentRunStatus → Option AgentRunStatus
validate_agent_run_transition current target =
    if not (contains (allowed_transitions current) target) then none else some target

-- The columns of a run that `transition_run` reads or writes.
pub record AgentRun : Type 0 where
  pub status : AgentRunStatus
  pub safe_reason_code : String
  pub started_at : Option ℕ
  pub completed_at : Option ℕ

abbrev pub open_statuses : List AgentRunStatus
open_statuses = created ∷ running ∷ awaiting_approval ∷ []

-- `transition_run`, from the assignments on
abbrev pub moved : AgentRun → String → ℕ → AgentRunStatus → AgentRun
moved run reason_code changed_at target = record {
  status = target;
  safe_reason_code = reason_code;
  started_at =
      if (target == running) && not (is_some run.started_at)
      then some changed_at
      else run.started_at;
  completed_at = if not (contains open_statuses target) then some changed_at else run.completed_at;
}

unfoldable pub transition_run : AgentRun → AgentRunStatus → String → ℕ → Option AgentRun
unfolding validate_agent_run_transition
transition_run run target reason_code now = elim (validate_agent_run_transition run.status target) [
  | none ↦ none
  | some valid ↦ some (moved run reason_code now target)
]
