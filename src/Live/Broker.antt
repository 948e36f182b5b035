-- ===== src/Live/Broker.antt =====
-- The entry points of `BitunixBroker` (execution/bitunix_broker.py). Its `on_tick`, `save_state` and
-- `apply_funding` do nothing.
use btc_laptop_agents.Prelude.{
  String, Option, none, some, List, [], ◌∷◌, str_eq, ◌||◌, if◌then◌else◌,
}
use btc_laptop_agents.Float.{Float, nought, one, lit, ◌-◌, ◌*◌, ◌/◌, abs, lt, le}
use btc_laptop_agents.Trading.Market.{Candle}
use btc_laptop_agents.Paper.Types.{Order, is_long}
use btc_laptop_agents.Live.Types.{
  kill_switch_active, done, failed, LivePosition, Exchange, OrderEvent, is_final, PositionEvent,
  LiveBroker, LiveEvents, qty_of, price_of,
}
use btc_laptop_agents.Live.Submit.{submit}
use btc_laptop_agents.Live.Sync.{no_events, side_of, first_open, closing, sync}

-- A dictionary of pending orders, by their ids.
module _ {F : Type 0} where
  unfoldable pub pop : String → List (String × OrderEvent F) → List (String × OrderEvent F)
  pop k [] = []
  pop k ((j, e) ∷ es) = if str_eq j k then es else (j, e) ∷ pop k es

  unfoldable pub put :
      String → OrderEvent F → List (String × OrderEvent F) → List (String × OrderEvent F)
  put k x [] = (k, x) ∷ []
  put k x ((j, e) ∷ es) = if str_eq j k then (k, x) ∷ es else (j, e) ∷ put k x es

module _ {F W : Type 0} ⦃fl : Float F⦄ (ex : Exchange F W) where
  unfoldable pub on_order_update : LiveBroker F W → OrderEvent F → LiveBroker F W
  on_order_update b e = record b {
    last_ws_update = ex.time b.world;
    pending_orders =
        if is_final e.status
        then pop e.order_id b.pending_orders
        else put e.order_id e b.pending_orders;
  }

  -- The cache entry of a position event.
  abbrev pub cached : PositionEvent F → LivePosition F
  cached e = record {
    position_id = some e.position_id;
    symbol = some e.symbol;
    side = some e.side;
    qty = some e.qty;
    position_amount = none;
    entry_price = some e.entry_price;
    avg_price = none;
  }

  unfoldable pub on_position_update : LiveBroker F W → PositionEvent F → LiveBroker F W
  on_position_update b e = record b {
    last_ws_update = ex.time b.world;
    ws_position_cache = if lt (abs e.qty) (lit 1 100_000_000) then none else some (cached e);
  }

  -- The first step of `on_candle`: an order that goes is submitted where no position is known.
  unfoldable pub submitted :
      LiveBroker F W → Candle F → Option (Order F) → LiveEvents F × LiveBroker F W
  submitted b candle none = (no_events, b)
  submitted b candle (some o) =
      if o.go
      then elim b.last_pos [
        | some _ ↦ (no_events, b)
        | none ↦
            let (r, b') = submit ex b o candle in
            elim r [
              | failed e ↦ (record no_events { errors = e ∷ [] }, b')
              | done q ↦ (record no_events { submitted = some q }, b')
            ]
      ]
      else (no_events, b)

  unfoldable pub on_candle :
      LiveBroker F W → Candle F → Option (Order F) → LiveEvents F × LiveBroker F W
  on_candle b candle order =
      if ex.kill_switch b.world
      then (record no_events { errors = kill_switch_active ∷ [] }, b)
      else (let (ev, b') = submitted b candle order in sync ex b' candle ev)

  -- The position that `shutdown` closes.
  unfoldable pub shut_position : String → W → W
  shut_position symbol w =
      let (r, w1) = ex.get_pending_positions w in
      elim r [
        | none ↦ w1
        | some ps ↦ elim (first_open symbol ps) [
          | none ↦ w1
          | some p ↦ (ex.place_order (closing (qty_of p)) w1).1
        ]
      ]

  -- Both steps swallow what they raise.
  unfoldable pub shutdown : LiveBroker F W → LiveBroker F W
  shutdown b = record b { world = shut_position b.symbol (ex.cancel_all_orders b.world).1 }

  unfoldable pub close_all : LiveBroker F W → LiveBroker F W
  close_all = shutdown

module _ {F W : Type 0} ⦃fl : Float F⦄ where
  unfoldable pub get_unrealized_pnl : LiveBroker F W → F → F
  get_unrealized_pnl b current_price = elim b.last_pos [
    | none ↦ nought
    | some p ↦
        let qty = abs (qty_of p) in
        let entry = price_of p in
        if le entry nought || le current_price nought
        then nought
        else if b.is_inverse
        then qty
          * entry
          * (if is_long (side_of p)
              then one / entry - one / current_price
              else one / current_price - one / entry)
          * current_price
        else if is_long (side_of p)
        then (current_price - entry) * qty
        else (entry - current_price) * qty
  ]
