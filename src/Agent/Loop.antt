-- ===== src/Agent/Loop.antt =====
-- backend/app/agent/loop.py: `AgentLoop.run`, one bounded request of perceive, decide, act and
-- observe, phase by phase, and what holds of every run.
pub mod Types
pub mod Environment
pub mod State
pub mod Finish
pub mod Act
pub mod Observe
pub mod Run
pub mod Sound
pub mod Ending
pub mod Concluding
pub mod Choosing
pub mod Spending
pub mod Acting
pub mod Recording
pub mod Rounds
pub mod Total
pub mod Guarantees
mod Tests
