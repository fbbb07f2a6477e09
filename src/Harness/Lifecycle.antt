-- ===== src/Harness/Lifecycle.antt =====
-- `lifecycle_invariant` of src/aegisrun/harness/invariants.py: its variables, the events it tells
-- apart, what it does on each of them and its loop.
mod State
mod Handlers
mod Tally
mod Counting
mod Moves
mod Step
mod Loop
pub mod Stream
pub mod Ownership
pub use State.{Lifecycle, initial}
unfoldable pub use State.{kind_of}
pub use Tally.{Family}
unfoldable pub use Handlers.{handle}
unfoldable pub use Loop.{run, lifecycle_invariant}
