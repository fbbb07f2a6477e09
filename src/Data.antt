-- ===== src/Data.antt =====
-- Data types that the components share.
pub mod Json
pub mod Text
