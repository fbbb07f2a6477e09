-- ===== src/MarketData.antt =====
-- src/aegisrun/marketdata: the local cache of market data.
pub mod Coverage
pub mod Prices
mod Tests
