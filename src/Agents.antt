-- ===== src/Agents.antt =====
-- The order pipeline of agents/: the funding flags, the execution sentinel, the resolution of an order
-- and the risk gate, with runs and the theorems at concrete inputs.
pub mod Types
pub mod Indicators
pub mod Context
pub mod Setups
pub mod Derivatives
pub mod Sentinel
pub mod Resolve
pub mod Gate
pub mod Pipeline
pub mod Journal
pub mod Supervisor
pub mod Sweeps
pub mod Brackets
pub mod Entries
pub mod Steps
pub mod Plans
pub mod Records
mod Tests
mod StepTests
