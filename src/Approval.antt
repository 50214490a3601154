-- ===== src/Approval.antt =====
-- backend/app/agent/history_repository.py, approval_repository.py, approval_service.py and the
-- database work of service.py: runs that pause for an approval, and what becomes of them.
pub mod Rows
pub mod Recorder
pub mod Persist
pub mod Service
pub mod Operations
pub mod Runner
pub mod Commands
pub mod Ledger
pub mod Changes
pub mod Resolving
pub mod Stages
pub mod Resolved
pub mod Recording
pub mod Settled
pub mod Planned
pub mod Pausing
pub mod Approving
pub mod Consuming
pub mod Binding
pub mod Replaying
pub mod Entitled
pub mod Sequences
pub mod SingleUse
pub mod Reading
pub mod Current
pub mod Refusing
pub mod Isolation
mod Tests
