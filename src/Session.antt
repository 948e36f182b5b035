-- ===== src/Session.antt =====
-- session/: the funding task, with the theorems at concrete inputs.
pub mod Runner
pub mod Strategy
pub mod Execution
pub mod Monitors
pub mod MarketData
pub mod Ending
pub mod Tasks
pub mod Closing
pub mod Startup
pub mod Timed
pub mod Funding
pub mod Windows
pub mod StaleData
mod Sample
mod Tests
mod RunnerTests
mod TimedTests
