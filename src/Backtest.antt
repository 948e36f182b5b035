-- ===== src/Backtest.antt =====
-- Backtesting: backtest/fill_simulator.py and backtest/backtest_broker.py, with runs and the theorems
-- at concrete inputs.
pub mod Simulator
pub mod Broker
pub mod Books
pub mod Agreement
pub mod Segment
pub mod BarMode
pub mod Validation
pub mod Ledger
pub mod BarLedger
pub mod Folds
mod Tests
mod EngineTests
