-- ===== src/Tools.antt =====
-- Tools that agents call: src/aegisrun/tools/registry.py, spec.py and pipeline.py.
pub mod Spec
pub mod Actions
pub mod Pipeline
pub mod Batch
pub mod Counts
pub mod Hooks
pub mod Checks
pub mod Paired
pub mod Singles
pub mod Groups
pub mod Answered
pub mod Cleared
pub mod Guarded
pub mod GuardedBatch
mod Tests
