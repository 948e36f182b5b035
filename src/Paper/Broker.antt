-- ===== src/Paper/Broker.antt =====
-- The state of `PaperBroker` (paper/broker.py), and the hard limits of constants.py.
use btc_laptop_agents.Prelude.{ℕ, String, Bool, Option, List}
use btc_laptop_agents.Float.{Float, lit}
use btc_laptop_agents.Paper.Types.{Position, Order, Record, Side, Lot}

-- The limits that constants.py reads from the configuration.
pub record HardLimits (F : Type 0) : Type 0 where
  pub max_position_size_usd : F
  pub max_daily_loss_usd : F
  pub max_leverage : F

abbrev pub max_orders_per_minute : ℕ
max_orders_per_minute = 10

module _ {F : Type 0} ⦃fl : Float F⦄ where
  abbrev pub max_position_abs : F
  max_position_abs = lit 1 1

  abbrev pub max_daily_loss_pct : F
  max_daily_loss_pct = lit 5 1

  abbrev pub max_single_trade_loss_usd : F
  max_single_trade_loss_usd = lit 100 1

-- The keys of `strategy_config` that the broker reads.
pub record StrategyConfig (F : Type 0) : Type 0 where
  pub max_bars_open : ℕ
  pub trailing_atr_mult : F

-- The position as `_save_state` writes it; `lots` and `entry_fees` are optional since older files
-- lack the one and have the other.
pub record SavedPosition (F : Type 0) : Type 0 where
  pub side : Side
  pub entry : F
  pub entry_fees : Option F
  pub qty : F
  pub sl : F
  pub tp : F
  pub opened_at : String
  pub lots : Option (List (Lot F))
  pub bars_open : ℕ
  pub trail_active : Bool
  pub trail_stop : F

-- The dictionary that `_save_state` hands to the store.
pub record Snapshot (F : Type 0) : Type 0 where
  pub symbol : String
  pub starting_equity : F
  pub current_equity : F
  pub processed_order_ids : List String
  pub order_history : List (Record F)
  pub working_orders : List (Order F)
  pub pos : Option (SavedPosition F)
  pub saved_at : F

-- `persistent` says that there is a store; `saved` is what it holds for the symbol. `symbol_cap` is
-- `max_position_per_symbol.get(symbol)`. `world` is the clock, the generator and the cache.
pub record Broker (F W : Type 0) : Type 0 where
  pub symbol : String
  pub is_inverse : Bool
  pub config : StrategyConfig F
  pub limits : HardLimits F
  pub slip_bps : F
  pub maker_fee : F
  pub taker_fee : F
  pub min_trade_interval_sec : F
  pub last_trade_time : F
  pub starting_equity : F
  pub current_equity : F
  pub symbol_cap : Option F
  pub pos : Option (Position F)
  pub processed_order_ids : List String
  pub order_timestamps : List F
  pub order_history : List (Record F)
  pub working_orders : List (Order F)
  pub persistent : Bool
  pub saved : Option (Snapshot F)
  pub world : W
