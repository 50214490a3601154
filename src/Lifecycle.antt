-- ===== src/Lifecycle.antt =====
-- The state machines of agent runs and of ingestion: backend/app/agent/run_state.py and
-- backend/app/ingestion/state_machine.py, with the operations that move their rows.
pub mod RunState
pub mod Ingestion
pub mod Histories
pub mod Pipelines
mod Tests
