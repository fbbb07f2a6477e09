-- ===== src/MarketData/Coverage.antt =====
-- The date ranges of `MarketDataCache` in src/aegisrun/marketdata/cache.py that are known to be
-- complete: how they are merged, and which parts of a request are missing.
pub mod Ranges
pub mod Sorting
pub mod Merging
pub mod Gaps
pub mod Table
mod Tests
