-- ===== src/Indicators.antt =====
-- internal/indicator: what is computed from candles. The candles of a series stand oldest first, as in
-- the source; a routine that reads them from the end turns them round once.
pub mod Trend
pub mod Bearish
pub mod Bullish
pub mod Signals
pub mod Averages
pub mod Btc
pub mod Divergence
pub mod Snapshot
mod Tests
