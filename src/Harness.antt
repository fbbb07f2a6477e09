-- ===== src/Harness.antt =====
-- src/aegisrun/harness: the event stream, its invariants, capabilities and the loop control.
pub mod Events
pub mod Sets
pub mod Checked
pub mod Lifecycle
pub mod Session
pub mod Surface
pub mod Registry
pub mod Registered
pub mod Store
mod Tests
