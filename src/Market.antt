-- ===== src/Market.antt =====
-- internal/market: the caches of candles, funding rates, book tickers, prices and open interest. Each
-- method takes its lock for its whole body, so it is one step. A time is nanoseconds.
pub mod Candles
pub mod Funding
pub mod Books
pub mod OpenInterest
pub mod Engine
mod Tests
