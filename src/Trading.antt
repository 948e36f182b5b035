-- ===== src/Trading.antt =====
-- trading/helpers.py: market data, fees, slippage, position sizing and candle sequences.
pub mod Market
pub mod Costs
pub mod Sizing
pub mod Sequence
pub mod OneBar
pub mod Bounds
mod Tests
