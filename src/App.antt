-- ===== src/App.antt =====
-- internal/app/scan.go and helpers.go: one scan, from the market to the intent queue.
pub mod Restricted
pub mod State
pub mod Filters
pub mod Gates
pub mod Asking
pub mod Scan
mod Tests
