-- ===== src/Capabilities.antt =====
-- src/aegisrun/harness/capabilities.py: layered registries of providers under narrowing ceilings.
pub mod Registry
pub mod Ceiling
pub mod Resolve
pub mod Found
mod Tests
