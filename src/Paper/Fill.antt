-- ===== src/Paper/Fill.antt =====
-- `_try_fill` of paper/broker.py and `_close_position_fifo`, stage by stage.
use Prim.Native.String.{slice}
use btc_laptop_agents.Prelude.{
  String, Bool, true, false, Option, none, some, List, [], ◌∷◌, ◌++◌, ◌||◌, if◌then◌else◌, str_eq,
  Result, ok, err,
}
use btc_laptop_agents.Float.{Float, ◌+◌, ◌-◌, ◌*◌, lt, le, or_else}
use btc_laptop_agents.Host.{Host}
use btc_laptop_agents.Trading.Market.{Candle, Tick}
use btc_laptop_agents.Paper.Types.{
  Lot, Position, Order, FillEvent, Fill, filled, closed, close_record, is_limit, same_side,
}
use btc_laptop_agents.Paper.PositionEngine.{process_fifo_close}
use btc_laptop_agents.Paper.Broker.{Broker}
use btc_laptop_agents.Paper.Risk.{validate_risk_limits}
use btc_laptop_agents.Paper.Store.{save_state}
use btc_laptop_agents.Paper.Events.{remainder_order, dust, close_event, fill_event, grown}
use btc_laptop_agents.Paper.Pricing.{base_price, capped_qty, fill_price}

-- What the idempotency check decides: the result of the call, or the order's id.
pub data Claim (F : Type 0) : Type 0 where
  settled : Option (Fill F) → Claim F
  proceed : String → Claim F

abbrev pub mem_id : String → List String → Bool
mem_id k [] = false
mem_id k (j ∷ js) = str_eq k j || mem_id k js

module _ {F W : Type 0} ⦃fl : Float F⦄ ⦃host : Host F W (FillEvent F)⦄ where
  -- `order.get("client_order_id") or uuid.uuid4().hex`
  unfoldable pub order_id : Broker F W → Option String → String × W
  order_id b none = host.uuid_hex b.world
  order_id b (some k) = if str_eq k "" then host.uuid_hex b.world else (k, b.world)

  unfoldable pub claim_order : Broker F W → Order F → Bool → Claim F × Broker F W
  claim_order b o is_working =
      let (id, w) = order_id b o.client_order_id in
      let b' = record b { world = w } in
      if is_working then (proceed id, b') else elim (host.cache_get id w) [
        | some e ↦ (settled (some (filled e)), b')
        | none ↦
            if mem_id id b.processed_order_ids
            then (settled none, b')
            else (proceed id, record b' { processed_order_ids = id ∷ b.processed_order_ids })
      ]

  -- `_close_position_fifo`, for `p` the position of `b`.
  unfoldable pub close_position_fifo :
      Broker F W → Position F → Order F → F → F → Candle F → Result (Fill F) × Broker F W
  close_position_fifo b p o actual_qty px candle =
      let (r, lots) = process_fifo_close p actual_qty px b.taker_fee b.is_inverse in
      elim r [
        | err e ↦ (err e, record b { pos = some (record p { lots = lots }) })
        | ok x ↦
            let p' = record p { lots = lots; qty = p.qty - x.reduction } in
            let event = close_event p' x o px candle.ts in
            let b' = save_state (record b {
              current_equity = b.current_equity + x.realized_pnl;
              order_history = b.order_history ++ close_record event ∷ [];
              pos = if le p'.qty dust then none else some p';
            }) in
            (ok (closed event), record b' { last_trade_time = host.time b'.world })
      ]

  abbrev pub fee_rate : Broker F W → Order F → F
  fee_rate b o = if is_limit o.entry_type then b.maker_fee else b.taker_fee

  -- For an inverse contract the quantity of a lot is its notional.
  abbrev pub lot_qty : Broker F W → F → F → F
  lot_qty b actual_qty px = if b.is_inverse then actual_qty * px else actual_qty

  abbrev pub new_lot : Broker F W → Order F → F → F → Lot F
  new_lot b o actual_qty px = record {
    qty = lot_qty b actual_qty px;
    price = px;
    fees = actual_qty * px * fee_rate b o;
  }

  -- The id of the trade: the order's, or a fresh one for a working order.
  unfoldable pub pick_trade_id : Broker F W → String → Bool → String × Broker F W
  pick_trade_id b id is_working =
      let (hex, w) = host.uuid_hex b.world in
      if is_working then (slice hex 0 12, record b { world = w }) else (id, b)

  -- The end of `_try_fill` where the position is opened or grows.
  unfoldable pub open_or_grow :
      Broker F W → String → String → F → Order F → F → F → Candle F → Bool → Fill F × Broker F W
  open_or_grow b id trade_id equity o actual_qty px candle is_working =
      let lot = new_lot b o actual_qty px in
      let event = fill_event o trade_id px lot.qty actual_qty lot.fees candle.ts in
      let rest = remainder_order id o actual_qty equity (host.time b.world) in
      let b' = save_state (record b {
        pos = some (grown b.pos o lot trade_id candle.ts);
        working_orders =
            if lt actual_qty o.qty then b.working_orders ++ rest ∷ [] else b.working_orders;
      }) in
      (
        filled event,
        record b' {
          last_trade_time = host.time b'.world;
          world = if str_eq id "" || is_working then b'.world else host.cache_set id event b'.world;
        },
      )

  abbrev pub some_fill : Result (Fill F) × Broker F W → Result (Option (Fill F)) × Broker F W
  some_fill (ok x, b) = (ok (some x), b)
  some_fill (err e, b) = (err e, b)

  -- The fill of `actual_qty` at `px`: an opposite position is closed, else it is opened or grows.
  unfoldable pub apply_fill :
      Broker F W
      → String
      → F
      → Order F
      → F
      → F
      → Candle F
      → Bool
      → Result (Option (Fill F)) × Broker F W
  apply_fill b id equity o actual_qty px candle is_working =
      let (trade_id, b1) = pick_trade_id b id is_working in
      let (fill, b2) = open_or_grow b1 id trade_id equity o actual_qty px candle is_working in
      elim b.pos [
        | none ↦ (ok (some fill), b2)
        | some p ↦
            if same_side o.side p.side
            then (ok (some fill), b2)
            else some_fill (close_position_fifo b1 p o actual_qty px candle)
      ]

  -- From a base price on.
  unfoldable pub fill_at :
      Broker F W
      → String
      → F
      → Order F
      → Option F
      → Candle F
      → Option (Tick F)
      → Bool
      → Result (Option (Fill F)) × Broker F W
  fill_at b id equity o none candle tick is_working = (ok none, b)
  fill_at b id equity o (some base) candle tick is_working =
      let actual_qty = capped_qty o candle in
      let (px, w) = fill_price b.slip_bps o tick actual_qty base b.world in
      apply_fill (record b { world = w }) id equity o actual_qty px candle is_working

  -- The risk limits, and what follows when they are met.
  unfoldable pub fill_claimed :
      Broker F W
      → String
      → Order F
      → Candle F
      → Option (Tick F)
      → Bool
      → Result (Option (Fill F)) × Broker F W
  fill_claimed b id o candle tick is_working =
      let equity = or_else o.equity b.current_equity in
      let (verdict, stamps) =
        validate_risk_limits b (host.time b.world) o candle equity is_working in
      let b' = record b { order_timestamps = stamps } in
      elim verdict [
        | err e ↦ (err e, b')
        | ok false ↦ (ok none, b')
        | ok true ↦
            fill_at b' id equity o (base_price b.slip_bps o candle tick) candle tick is_working
      ]

  unfoldable pub try_fill :
      Broker F W
      → Candle F
      → Order F
      → Bool
      → Option (Tick F)
      → Result (Option (Fill F)) × Broker F W
  try_fill b candle o is_working tick =
      let (claim, b') = claim_order b o is_working in
      elim claim [
        | settled r ↦ (ok r, b')
        | proceed id ↦ fill_claimed b' id o candle tick is_working
      ]
