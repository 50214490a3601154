-- ===== src/Lifecycle/Tests.antt =====
-- agent/run_state.py and ingestion/state_machine.py: a run that completes and a document that is
-- approved.
use secure_portfolio_copilot.Base.{
  List-eq, Option, Option-eq, String-eq, inl, inr, none, refl, some, true, ℕ, ℕ-eq, ◌+◌, ◌≡◌, ◌≤◌,
  ◌⊎◌,
}
use secure_portfolio_copilot.Lifecycle.RunState.{
  AgentRun, AgentRunStatus, transition_run, AgentRunStatus-discrete,
}
use secure_portfolio_copilot.Lifecycle.Ingestion.{
  IngestionStatus, IngestionRow, transition, IngestionStatus-discrete,
}
use secure_portfolio_copilot.Lifecycle.Histories.{
  same, later, Timed, History-Timed, terminal_final, is_terminal,
}
use secure_portfolio_copilot.Lifecycle.Pipelines.{begun, step, ingestion_route, depth}

abbrev new_run : AgentRun
new_run = record {
  status = AgentRunStatus.created;
  safe_reason_code = "RUN_CREATED";
  started_at = none;
  completed_at = none;
}

abbrev running_run : AgentRun
running_run = record {
  status = AgentRunStatus.running;
  safe_reason_code = "RUN_STARTED";
  started_at = some 5;
  completed_at = none;
}

abbrev completed_run : AgentRun
completed_run = record {
  status = AgentRunStatus.completed;
  safe_reason_code = "COMPLETED";
  started_at = some 5;
  completed_at = some 9;
}

run_starts : transition_run new_run AgentRunStatus.running "RUN_STARTED" 5 ≡ some running_run
unfolding transition_run AgentRunStatus-discrete
run_starts = refl

run_completes :
    transition_run running_run AgentRunStatus.completed "COMPLETED" 9 ≡ some completed_run
unfolding transition_run AgentRunStatus-discrete
run_completes = refl

no_restart : transition_run completed_run AgentRunStatus.running "RUN_STARTED" 12 ≡ none
unfolding transition_run AgentRunStatus-discrete
no_restart = refl

new_run-Timed : Timed new_run
unfolding AgentRunStatus-discrete
new_run-Timed = record { completed = refl; started = λ e. elim e [ inl p ↦ cc | inr p ↦ cc ] }

History-Timed_example : Timed completed_run
History-Timed_example = History-Timed new_run-Timed (
    later AgentRunStatus.completed "COMPLETED" 9
      (later AgentRunStatus.running "RUN_STARTED" 5 same run_starts) run_completes)

completed-is_terminal : is_terminal completed_run.status ≡ true
unfolding AgentRunStatus-discrete
completed-is_terminal = refl

terminal_final_example : completed_run ≡ completed_run
terminal_final_example =
    terminal_final {first = completed_run} {last = completed_run} completed-is_terminal same

abbrev row_at : IngestionStatus → Option ℕ → Option ℕ → IngestionRow
row_at status started completed = record {
  version_status = status;
  job_status = status;
  safe_error_code = none;
  started_at = started;
  completed_at = completed;
}

validates :
    transition (row_at IngestionStatus.uploaded none none) IngestionStatus.validating none 3
    ≡ some (row_at IngestionStatus.validating (some 3) none)
unfolding transition IngestionStatus-discrete
validates = refl

parses :
    transition (row_at IngestionStatus.validating (some 3) none) IngestionStatus.parsing none 4
    ≡ some (row_at IngestionStatus.parsing (some 3) none)
unfolding transition IngestionStatus-discrete
parses = refl

no_shortcut :
    transition (row_at IngestionStatus.uploaded none none) IngestionStatus.approved none 3 ≡ none
unfolding transition IngestionStatus-discrete
no_shortcut = refl

ingestion_route_example :
    (IngestionStatus.parsing ≡ IngestionStatus.parsing)
    × (2 ≤ 5)
    × ((IngestionStatus.parsing ≡ IngestionStatus.deleted)
        ⊎ (depth IngestionStatus.parsing ≡ depth IngestionStatus.uploaded + 2))
ingestion_route_example =
    ingestion_route {first = row_at IngestionStatus.uploaded none none}
      {last = row_at IngestionStatus.parsing (some 3) none} {n = 2} refl
      (step IngestionStatus.parsing none 4 (step IngestionStatus.validating none 3 begun validates)
        parses)
