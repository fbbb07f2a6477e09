-- ===== src/Harness/Store.antt =====
-- `WorkspaceEventStore` of src/aegisrun/harness/events.py: events as JSON records in a file, one for
-- each line, and the events that are held in memory.
pub mod Json
pub mod Make
pub mod Record
pub mod Log
pub mod Append
pub mod Reread
pub mod Made
pub mod Synced
pub mod Appended
pub mod Outcomes
mod Tests
