-- ===== src/Agent.antt =====
-- backend/app/agent: the bounded agent, its plans, its runs and their approvals.
pub mod Models
pub mod PlanState
pub mod Loop
