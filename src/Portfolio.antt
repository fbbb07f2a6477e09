-- ===== src/Portfolio.antt =====
-- src/aegisrun/portfolio/strategy_dsl.py: screening strategies that skills declare.
pub mod Floats
pub mod Fields
pub mod Symbols
pub mod Strategy
pub mod Screen
pub mod Lists
pub mod Safe
pub mod Score
pub mod Admitted
mod Tests
