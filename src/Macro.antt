-- ===== src/Macro.antt =====
-- Macro research: the freshness gate of src/aegisrun/macro/freshness.py.
pub mod Freshness
pub mod Current
mod Tests
