-- ===== src/Execution.antt =====
-- internal/execution: the position manager and the execution engine.
pub mod Calls
pub mod World
pub mod Store
pub mod Close
pub mod Entry
pub mod Protection
pub mod Engine
pub mod Fills
pub mod Settlement
pub mod Monitor
pub mod Handlers
pub mod Reconcile
pub mod Paper
pub mod Live
mod Tests
mod FillTests
