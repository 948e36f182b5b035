-- ===== src/Paper/Orders.antt =====
-- The entry points of `PaperBroker` in paper/broker.py that handle orders: `place_order`,
-- `_process_working_orders`, `on_candle`, `apply_funding`, `shutdown`, `get_unrealized_pnl`.
use btc_laptop_agents.Prelude.{
  ℕ, zero, suc, ◌+◌ as add, ltb, String, true, false, Option, none, some, List, [], ◌∷◌, ◌++◌, ◌||◌,
  if◌then◌else◌, str_eq, Result, ok, err, out_of_fuel, length, get_elem?,
}
use btc_laptop_agents.Float.{Float, nought, ◌-◌, ◌*◌, or_else}
use btc_laptop_agents.Host.{Host}
use btc_laptop_agents.Trading.Market.{Candle, Tick}
use btc_laptop_agents.Paper.Types.{
  Side, long, short, EntryType, Position, Reason, Order, FillEvent, ExitEvent, Fill, entry_price,
}
use btc_laptop_agents.Paper.PositionEngine.{calculate_unrealized_pnl}
use btc_laptop_agents.Paper.Broker.{Broker, max_orders_per_minute}
use btc_laptop_agents.Paper.Store.{save_state}
use btc_laptop_agents.Paper.Exit.{exit_if, check_exit, settle_exit}
use btc_laptop_agents.Paper.Fill.{order_id, try_fill}

-- What `on_candle` returns.
pub record Events (F : Type 0) : Type 0 where
  pub fills : List (Fill F)
  pub exits : List (ExitEvent F)

-- Of the upper-cased name of a side.
unfoldable pub normalized_side : String → Side
normalized_side side = if str_eq side "BUY" || str_eq side "LONG" then long else short

module _ {F W : Type 0} ⦃fl : Float F⦄ ⦃host : Host F W (FillEvent F)⦄ where
  -- `side` is upper-cased and `order_type` lower-cased already.
  unfoldable pub place_order :
      Broker F W
      → String
      → F
      → EntryType
      → Option F
      → Option F
      → Option F
      → Option String
      → Order F × Broker F W
  place_order b side qty order_type price sl tp client_order_id =
      let (id, w) = order_id b client_order_id in
      let o : Order F = record {
        go = true;
        client_order_id = some id;
        side = normalized_side side;
        entry_type = order_type;
        entry = or_else price nought;
        qty = qty;
        sl = or_else sl nought;
        tp = or_else tp nought;
        equity = none;
        created_at = some (host.time w);
      } in
      (o, record b { world = w; working_orders = b.working_orders ++ o ∷ [] })

  -- The loop of `_process_working_orders`. It runs over the list that `try_fill` appends to, so it
  -- goes by the index of the next order.
  unfoldable pub working_loop :
      ℕ
      → ℕ
      → List (Fill F)
      → List (Order F)
      → Candle F
      → Broker F W
      → Result (List (Fill F)) × Broker F W
  working_loop zero i fills remaining candle b = (err out_of_fuel, b)
  working_loop (suc fuel) i fills remaining candle b = elim (get_elem? b.working_orders i) [
    | none ↦ (ok fills, record b { working_orders = remaining })
    | some o ↦
        let (r, b') = try_fill b candle o true none in
        elim r [
          | err e ↦ (err e, b')
          | ok none ↦ working_loop fuel (add i 1) fills (remaining ++ o ∷ []) candle b'
          | ok (some x) ↦ working_loop fuel (add i 1) (fills ++ x ∷ []) remaining candle b'
        ]
  ]

  -- An order that is appended has passed the rate limit, so this many rounds are enough.
  abbrev pub working_fuel : Broker F W → ℕ
  working_fuel b = suc (add (length b.working_orders) max_orders_per_minute)

  unfoldable pub process_working_orders :
      Broker F W → Candle F → Result (List (Fill F)) × Broker F W
  process_working_orders b candle = working_loop (working_fuel b) 0 [] [] candle b

  -- The open position in `on_candle`: the bar is counted, and a position too old is closed.
  unfoldable pub manage_position :
      Broker F W → Position F → Candle F → Result (List (ExitEvent F)) × Broker F W
  manage_position b p candle =
      let p' = record p { bars_open = add p.bars_open 1 } in
      let b' = record b { pos = some p' } in
      settle_exit (
        if ltb b.config.max_bars_open p'.bars_open
        then exit_if b' p' candle.ts (some (candle.close, Reason.stale_exit))
        else check_exit b' p' candle)

  unfoldable pub manage_open : Broker F W → Candle F → Result (List (ExitEvent F)) × Broker F W
  manage_open b candle = elim b.pos [ none ↦ (ok [], b) | some p ↦ manage_position b p candle ]

  abbrev pub saved_fill :
      Result (Option (Fill F)) × Broker F W → Result (List (Fill F)) × Broker F W
  saved_fill (err e, b) = (err e, b)
  saved_fill (ok none, b) = (ok [], b)
  saved_fill (ok (some x), b) = (ok (x ∷ []), save_state b)

  -- The order of the candle, once no position is open.
  unfoldable pub enter :
      Broker F W
      → Candle F
      → Option (Order F)
      → Option (Tick F)
      → Result (List (Fill F)) × Broker F W
  enter b candle none tick = (ok [], b)
  enter b candle (some o) tick = elim b.pos [
    | some _ ↦ (ok [], b)
    | none ↦ if o.go then saved_fill (try_fill b candle o false tick) else (ok [], b)
  ]

  abbrev pub after_manage :
      Result (List (ExitEvent F)) × Broker F W
      → List (Fill F)
      → Candle F
      → Option (Order F)
      → Option (Tick F)
      → Result (Events F) × Broker F W
  after_manage (err e, b) fills candle order tick = (err e, b)
  after_manage (ok exits, b) fills candle order tick =
      let (r, b') = enter b candle order tick in
      elim r [
        | err e ↦ (err e, b')
        | ok entered ↦ (ok (record { fills = fills ++ entered; exits = exits }), b')
      ]

  abbrev pub after_working :
      Result (List (Fill F)) × Broker F W
      → Candle F
      → Option (Order F)
      → Option (Tick F)
      → Result (Events F) × Broker F W
  after_working (err e, b) candle order tick = (err e, b)
  after_working (ok fills, b) candle order tick =
      after_manage (manage_open b candle) fills candle order tick

  unfoldable pub on_candle :
      Broker F W → Candle F → Option (Order F) → Option (Tick F) → Result (Events F) × Broker F W
  on_candle b candle order tick = after_working (process_working_orders b candle) candle order tick

  unfoldable pub apply_funding : Broker F W → F → Broker F W
  apply_funding b rate = elim b.pos [
    | none ↦ b
    | some p ↦
        let notional_usd = if b.is_inverse then p.qty else p.qty * entry_price p in
        record b { current_equity = b.current_equity - notional_usd * rate }
  ]

  unfoldable pub shutdown : Broker F W → Broker F W
  shutdown b = save_state (record b { working_orders = [] })

  unfoldable pub get_unrealized_pnl : Broker F W → F → Result F
  get_unrealized_pnl b current_price = calculate_unrealized_pnl b.pos current_price b.is_inverse
