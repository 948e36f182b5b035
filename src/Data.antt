-- ===== src/Data.antt =====
-- data/providers/: the candles of the exchange, over its REST interface.
pub mod Pages
pub mod Sorted
mod Tests
