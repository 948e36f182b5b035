-- ===== src/Trading/Market.antt =====
-- The market data of trading/helpers.py: `Candle` and `Tick`.
use btc_laptop_agents.Prelude.{String}

pub record Candle (F : Type 0) : Type 0 where
  pub ts : String
  pub open_px : F
  pub high : F
  pub low : F
  pub close : F
  pub volume : F

pub record Tick (F : Type 0) : Type 0 where
  pub symbol : String
  pub bid : F
  pub ask : F
  pub last : F
  pub ts : String
