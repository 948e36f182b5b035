-- ===== src/Backtest/Broker.antt =====
-- backtest/backtest_broker.py: the state of `BacktestBroker` and its operations. Its `on_tick`,
-- `shutdown` and `save_state` do nothing.
use btc_laptop_agents.Prelude.{
  ◌+◌ as add, String, Bool, true, false, Option, none, some, List, [], ◌∷◌, ◌++◌, Result, ok, err,
  if◌then◌else◌, str_eq,
}
use btc_laptop_agents.Float.{Float, nought, ◌+◌, ◌*◌, le, ge}
use btc_laptop_agents.Host.{Host}
use btc_laptop_agents.Trading.Market.{Candle}
use btc_laptop_agents.Paper.Types.{
  Side, Lot, Position, Order, FillEvent, is_long, is_market, same_side,
}
use btc_laptop_agents.Paper.PositionEngine.{
  ExitPnl, calculate_full_exit_pnl, calculate_unrealized_pnl,
}
use btc_laptop_agents.Backtest.Simulator.{FillSimulator, simulate_slippage, should_fill}

pub data Reason : Type 0 where
  sl_hit tp_hit force_close : Reason

pub record ExitEvent (F : Type 0) : Type 0 where
  pub trade_id : String
  pub reason : Reason
  pub entry : F
  pub price : F
  pub qty : F
  pub pnl : F
  pub at : String
  pub fees : F
  pub side : Side

-- An entry of `order_history`.
pub data Record (F : Type 0) : Type 0 where
  fill_record : FillEvent F → Record F
  exit_record : ExitEvent F → Record F

-- `exchange_fees` holds the same rate for makers and takers.
pub record BacktestBroker (F W : Type 0) : Type 0 where
  pub is_inverse : Bool
  pub pos : Option (Position F)
  pub starting_equity : F
  pub current_equity : F
  pub taker_fee : F
  pub simulator : FillSimulator F
  pub order_history : List (Record F)
  pub world : W

pub record Events (F : Type 0) : Type 0 where
  pub fills : List (FillEvent F)
  pub exits : List (ExitEvent F)

module _ {F : Type 0} ⦃fl : Float F⦄ where
  -- The price and the reason of an exit of `_check_exit`.
  unfoldable pub exit_decision : Candle F → Position F → Option (F × Reason)
  exit_decision candle p =
      if is_long p.side
      then (if le candle.low p.sl
          then some (p.sl, sl_hit)
          else if ge candle.high p.tp
          then some (p.tp, tp_hit)
          else none)
      else if ge candle.high p.sl
      then some (p.sl, sl_hit)
      else if le candle.low p.tp
      then some (p.tp, tp_hit)
      else none

  abbrev pub exit_event : Position F → String → F → Reason → ExitPnl F → ExitEvent F
  exit_event p ts px reason x = record {
    trade_id = p.trade_id;
    reason = reason;
    entry = x.avg_entry;
    price = px;
    qty = p.qty;
    pnl = x.net_pnl;
    at = ts;
    fees = x.total_fees;
    side = p.side;
  }

  -- `Position(...)` for a first lot.
  abbrev pub opened : Order F → Lot F → String → String → Position F
  opened o lot trade_id ts = record {
    side = o.side;
    qty = lot.qty;
    sl = o.sl;
    tp = o.tp;
    opened_at = ts;
    lots = lot ∷ [];
    trade_id = trade_id;
    bars_open = 0;
    trail_active = false;
    trail_stop = nought;
  }

  abbrev pub fill_event : Order F → Lot F → String → String → FillEvent F
  fill_event o lot trade_id ts = record {
    trade_id = trade_id;
    side = o.side;
    price = lot.price;
    qty = lot.qty;
    sl = o.sl;
    tp = o.tp;
    at = ts;
    fees = lot.fees;
    requested_qty = none;
  }

module _ {F W : Type 0} ⦃fl : Float F⦄ ⦃host : Host F W (FillEvent F)⦄ where
  -- `_exit`, for `p` the position of `b`.
  unfoldable pub exit_position :
      BacktestBroker F W
      → Position F
      → String
      → F
      → Reason
      → Result (ExitEvent F) × BacktestBroker F W
  exit_position b p ts px reason =
      let (px_slipped, w) = simulate_slippage b.simulator px (is_long p.side) false b.world in
      let emptied = record b { world = w; pos = some (record p { lots = [] }) } in
      elim (calculate_full_exit_pnl p px_slipped b.taker_fee b.is_inverse) [
        | err e ↦ (err e, emptied)
        | ok x ↦
            let event = exit_event p ts px reason x in
            (
              ok event,
              record emptied {
                current_equity = b.current_equity + x.net_pnl;
                order_history = b.order_history ++ exit_record event ∷ [];
              },
            )
      ]

  -- The end of an exit in `on_candle` and `close_all`: no position is left.
  unfoldable pub settle :
      Result (ExitEvent F) × BacktestBroker F W → Result (List (ExitEvent F)) × BacktestBroker F W
  settle (err e, b) = (err e, b)
  settle (ok event, b) = (ok (event ∷ []), record b { pos = none })

  -- The open position in `on_candle`: the bar is counted, and the exits are checked.
  unfoldable pub manage_open :
      BacktestBroker F W → Candle F → Result (List (ExitEvent F)) × BacktestBroker F W
  manage_open b candle = elim b.pos [
    | none ↦ (ok [], b)
    | some p ↦
        let p' = record p { bars_open = add p.bars_open 1 } in
        let b' = record b { pos = some p' } in
        elim (exit_decision candle p') [
          | none ↦ (ok [], b')
          | some x ↦ settle (exit_position b' p' candle.ts x.0 x.1)
        ]
  ]

  -- `order.get("client_order_id") or uuid.uuid4().hex`
  unfoldable pub client_order_id : BacktestBroker F W → Order F → String × W
  client_order_id b o = elim o.client_order_id [
    | none ↦ host.uuid_hex b.world
    | some k ↦ if str_eq k "" then host.uuid_hex b.world else (k, b.world)
  ]

  -- `_try_fill` after the test of `should_fill`.
  unfoldable pub fill :
      BacktestBroker F W → Candle F → Order F → Option (FillEvent F) × BacktestBroker F W
  fill b candle o =
      let (trade_id, w) = client_order_id b o in
      let px = if is_market o.entry_type then candle.close else o.entry in
      let (fill_px, w') = simulate_slippage b.simulator px (is_long o.side) true w in
      let notional = o.qty * fill_px in
      let pos_qty = if b.is_inverse then notional else o.qty in
      let lot : Lot F = record { qty = pos_qty; price = fill_px; fees = notional * b.taker_fee } in
      let event = fill_event o lot trade_id candle.ts in
      let b' = record b { world = w'; order_history = b.order_history ++ fill_record event ∷ [] } in
      elim b.pos [
        | none ↦ (some event, record b' { pos = some (opened o lot trade_id candle.ts) })
        | some p ↦
            if same_side o.side p.side
            then (
              some event,
              record b' {
                pos = some (record p { lots = p.lots ++ lot ∷ []; qty = p.qty + pos_qty });
              },
            )
            else (none, record b { world = w' })
      ]

  unfoldable pub try_fill :
      BacktestBroker F W → Candle F → Order F → Option (FillEvent F) × BacktestBroker F W
  try_fill b candle o = if should_fill o candle then fill b candle o else (none, b)

  -- The order of the candle, once no position is open.
  unfoldable pub enter :
      BacktestBroker F W → Candle F → Option (Order F) → List (FillEvent F) × BacktestBroker F W
  enter b candle none = ([], b)
  enter b candle (some o) = elim b.pos [
    | some _ ↦ ([], b)
    | none ↦
        if o.go
        then (let (r, b') = try_fill b candle o in
            elim r [ none ↦ ([], b') | some event ↦ (event ∷ [], b') ])
        else ([], b)
  ]

  unfoldable pub on_candle :
      BacktestBroker F W → Candle F → Option (Order F) → Result (Events F) × BacktestBroker F W
  on_candle b candle order =
      let (r, b1) = manage_open b candle in
      elim r [
        | err e ↦ (err e, b1)
        | ok exits ↦
            let (fills, b2) = enter b1 candle order in
            (ok (record { fills = fills; exits = exits }), b2)
      ]

  unfoldable pub close_all :
      BacktestBroker F W → F → Result (List (ExitEvent F)) × BacktestBroker F W
  close_all b current_price = elim b.pos [
    | none ↦ (ok [], b)
    | some p ↦ settle (exit_position b p (host.iso_now b.world) current_price force_close)
  ]

  unfoldable pub get_unrealized_pnl : BacktestBroker F W → F → Result F
  get_unrealized_pnl b current_price = calculate_unrealized_pnl b.pos current_price b.is_inverse
