-- ===== src/Orchestration.antt =====
-- src/aegisrun/orchestration: execution plans of dependent tasks, and their executor.
pub mod Status
pub mod Spec
pub mod Plan
pub mod Dag
pub mod Refresh
pub mod Ops
pub mod Revise
pub mod Evolves
pub mod Triage
mod Tests
pub mod Calls
pub mod WellFormed
