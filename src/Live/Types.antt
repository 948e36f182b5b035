-- ===== src/Live/Types.antt =====
-- The state of `BitunixBroker` (execution/bitunix_broker.py), the events of data/providers/ws_events.py,
-- and the exchange that its provider talks to.
use btc_laptop_agents.Prelude.{String, Bool, true, false, Option, List}
use btc_laptop_agents.Float.{Float, nought, or_else}
use btc_laptop_agents.Paper.Types.{Side, EntryType}
use btc_laptop_agents.Paper.Broker.{HardLimits}

-- Why an order or a synchronisation ended: what `str(e)` says of the exception.
pub data Problem : Type 0 where
  kill_switch_active rate_limit_exceeded daily_loss notional_exceeded leverage_exceeded : Problem
  not_a_number zero_division provider_failed : Problem

pub data Attempt (A : Type 0) : Type 0 where
  done : A → Attempt A
  failed : Problem → Attempt A

infixl 5 ◌>>=◌
abbrev pub ◌>>=◌ : {A B : Type 0} → Attempt A → (A → Attempt B) → Attempt B
done a >>= f = f a
failed e >>= f = failed e

-- A position as the exchange sends it, by REST or by WebSocket; `symbol` is "symbol" or "symbolName".
pub record LivePosition (F : Type 0) : Type 0 where
  pub position_id : Option String
  pub symbol : Option String
  pub side : Option Side
  pub qty : Option F
  pub position_amount : Option F
  pub entry_price : Option F
  pub avg_price : Option F

-- The keys of the instrument information that are read, with their defaults put in.
pub record Instrument (F : Type 0) : Type 0 where
  pub tick_size : F
  pub lot_size : F
  pub min_qty : F

-- An order to open, and an order to close at the market.
pub data Request (F : Type 0) : Type 0 where
  open_order : Side → F → EntryType → F → Option F → Option F → Request F
  close_order : Side → F → Request F

-- What `place_order` gives: it raised, it answered without "data", or with it and perhaps an id.
pub data Response : Type 0 where
  call_raised no_data : Response
  accepted : Option String → Response

abbrev pub is_raised : Response → Bool
is_raised call_raised = true
is_raised _ = false

-- What the provider's calls do to the world; none, or false, where they raise.
pub record Exchange (F W : Type 0) : Type 0 where
  pub time : W → F
  pub kill_switch : W → Bool
  pub fetch_instrument_info : W → Option (Instrument F) × W
  pub place_order : Request F → W → Response × W
  pub cancel_all_orders : W → Bool × W
  pub get_pending_positions : W → Option (List (LivePosition F)) × W

pub data Status : Type 0 where
  pending filled cancelled rejected : Status

abbrev pub is_final : Status → Bool
is_final pending = false
is_final _ = true

-- `OrderEvent`, and the entry of `_pending_orders` that it makes.
pub record OrderEvent (F : Type 0) : Type 0 where
  pub order_id : String
  pub side : Side
  pub status : Status
  pub qty : F
  pub filled_qty : F
  pub avg_fill_price : Option F

pub record PositionEvent (F : Type 0) : Type 0 where
  pub position_id : String
  pub symbol : String
  pub side : Side
  pub qty : F
  pub entry_price : F

-- A `trade_id` is none where the code makes one up from the clock or writes "live_exit".
pub record LiveFill (F : Type 0) : Type 0 where
  pub trade_id : Option String
  pub side : Side
  pub price : F
  pub qty : F
  pub at : String

pub record LiveExit (F : Type 0) : Type 0 where
  pub trade_id : Option String
  pub entry : F
  pub price : F
  pub quantity : F
  pub pnl : F
  pub at : String
  pub side : Option Side

-- An entry of `order_history`.
pub data LiveRecord (F : Type 0) : Type 0 where
  fill_record : LiveFill F → LiveRecord F
  exit_record : LiveExit F → LiveRecord F

-- `starting_equity` may be None. There is no repository.
pub record LiveBroker (F W : Type 0) : Type 0 where
  pub symbol : String
  pub is_inverse : Bool
  pub limits : HardLimits F
  pub last_pos : Option (LivePosition F)
  pub initialized : Bool
  pub instrument_info : Option (Instrument F)
  pub order_generated_at : Option F
  pub entry_price : Option F
  pub entry_side : Option Side
  pub entry_qty : Option F
  pub last_order_id : Option String
  pub order_timestamps : List F
  pub starting_equity : Option F
  pub current_equity : F
  pub order_history : List (LiveRecord F)
  pub pending_orders : List (String × OrderEvent F)
  pub ws_position_cache : Option (LivePosition F)
  pub last_ws_update : F
  pub world : W

-- What `on_candle` returns; `submitted` is the order that was sent, where the response came.
pub record LiveEvents (F : Type 0) : Type 0 where
  pub fills : List (LiveFill F)
  pub exits : List (LiveExit F)
  pub errors : List Problem
  pub submitted : Option (Request F)

module _ {F : Type 0} ⦃fl : Float F⦄ where
  -- `float(p.get("qty") or p.get("positionAmount") or 0)`
  abbrev pub qty_of : LivePosition F → F
  qty_of p = or_else p.qty (or_else p.position_amount nought)

  -- `float(p.get("entryPrice") or p.get("avgPrice") or 0)`
  abbrev pub price_of : LivePosition F → F
  price_of p = or_else p.entry_price (or_else p.avg_price nought)
