-- ===== src/Agents/Types.antt =====
-- agents/state.py and the dictionaries that the agents of the order pipeline pass on.
use btc_laptop_agents.Prelude.{ℕ, String, Bool, true, false, not, Option, none, some, List, str_eq}
use btc_laptop_agents.Trading.Market.{Candle}
use btc_laptop_agents.Paper.Types.{Side}

-- The flags that agents/derivatives_flows.py writes.
pub data Flag : Type 0 where
  funding_missing halt_funding_extreme no_trade_funding_hot half_size_funding_warm : Flag

-- `"NO_TRADE" in f or "HALT" in f`
abbrev pub is_blocker : Flag → Bool
is_blocker halt_funding_extreme = true
is_blocker no_trade_funding_hot = true
is_blocker _ = false

abbrev pub is_hot : Flag → Bool
is_hot no_trade_funding_hot = true
is_hot _ = false

abbrev pub is_warm : Flag → Bool
is_warm half_size_funding_warm = true
is_warm _ = false

abbrev pub is_missing : Flag → Bool
is_missing funding_missing = true
is_missing _ = false

pub data EntryType : Type 0 where
  limit market market_on_trigger other_type : EntryType

-- `trigger`, with its level and tolerance where the type is one that the code knows.
pub data Trigger (F : Type 0) : Type 0 where
  sweep_and_close_back_below : F → F → Trigger F
  sweep_and_close_back_above : F → F → Trigger F
  other_trigger : Trigger F

-- A setup whose name is not "NONE".
pub record Setup (F : Type 0) : Type 0 where
  pub name : String
  pub side : Side
  pub entry_type : EntryType
  pub entry : F
  pub sl : F
  pub tp : F
  pub trigger : Trigger F

-- The order of the execution sentinel.
pub record Intent (F : Type 0) : Type 0 where
  pub pending_trigger : Bool
  pub side : Side
  pub entry_type : EntryType
  pub entry : Option F
  pub sl : F
  pub tp : F
  pub rr_min : F
  pub size_mult : F
  pub risk_pct : F
  pub equity : F
  pub lot_step : F
  pub min_notional : F
  pub setup : Setup F

-- The order that `_resolve_order` returns.
pub record Resolved (F : Type 0) : Type 0 where
  pub side : Side
  pub entry_type : EntryType
  pub entry : F
  pub sl : F
  pub tp : F
  pub qty : F
  pub rr : F
  pub setup : String

pub data Refusal : Type 0 where
  no_setup cooldown_active funding_hot_no_trade unknown_entry_type : Refusal
  missing_instrument_info pending_trigger_expired blocked_by_flags blocked_by_risk_pct : Refusal

-- `state.order`: the empty dictionary, one whose `go` is false, or an order.
pub data Decision (F : Type 0) : Type 0 where
  nothing : Decision F
  refused : Refusal → Decision F
  intended : Intent F → Decision F
  resolved : Resolved F → Decision F

-- `state.order.get("go")`
abbrev pub goes : {F : Type 0} → Decision F → Bool
goes (intended _) = true
goes (resolved _) = true
goes _ = false

-- The fields of `State` that the pipeline reads and writes; `last_trade_bar` is that key of `meta`,
-- 0 where it is missing, and `setup` is none where its name is "NONE" or it is empty.
pub record State (F : Type 0) : Type 0 where
  pub candles : List (Candle F)
  pub flags : List Flag
  pub setup : Option (Setup F)
  pub order : Decision F
  pub trade_id : Option String
  pub pending_trigger_bars : ℕ
  pub last_trade_bar : ℕ

-- `if state.trade_id`
abbrev pub in_trade : {F : Type 0} → State F → Bool
in_trade s = elim s.trade_id [ none ↦ false | some k ↦ not (str_eq k "") ]
