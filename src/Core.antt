-- ===== src/Core.antt =====
-- src/aegisrun/core/domain.py and src/aegisrun/tools/budget.py: the status of a run and its budget.
pub mod Domain
pub mod Transitions
pub mod Balance
pub mod Budget
pub mod Totals
pub mod Limits
mod Tests
