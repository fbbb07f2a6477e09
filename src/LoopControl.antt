-- ===== src/LoopControl.antt =====
-- `AgentLoopHarness` of src/aegisrun/harness/loop_control.py: the guard before a tool call and the
-- plan that follows the calls.
pub mod State
pub mod Plan
pub mod Replace
pub mod Bounded
pub mod Guard
mod Tests
