-- ===== src/Agents.antt =====
-- Agents: the profiles of src/aegisrun/agents/profiles.py.
pub mod Profiles
pub mod Descent
mod Tests
