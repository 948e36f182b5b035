-- ===== src/Paper/Termination.antt =====
-- `_process_working_orders` of paper/broker.py loops over the list of working orders while `_try_fill`
-- appends the remainders of partial fills to it. The rate limit bounds how many are appended.
use btc_laptop_agents.Prelude.{
  ℕ, zero, suc, ◌+◌ as add, ◌-◌ as sub, ◌≤◌, ◌<◌, ◌≡◌, ◌≢◌, ◌∙◌, refl, true, Option, none, some,
  List, ok, err, out_of_fuel, arith, String, Bool, ◌∷◌, [], ◌++◌, Option-cases, Outcome-cases, inl,
  inr, length, keep_if, length-append, get_elem?,
}
use btc_laptop_agents.Float.{Float, ◌-◌, lt, lit, or_else}
use btc_laptop_agents.Float.Laws.{IsOrdered}
use btc_laptop_agents.Host.{Host, IsSteady}
use btc_laptop_agents.Trading.Market.{Candle, Tick}
use btc_laptop_agents.Paper.Types.{FillEvent, Order, Fill, Position, Side, Lot}
use btc_laptop_agents.Paper.PositionEngine.{
  FifoResult, slice_of, lot_pnl, fifo_loop, process_fifo_close,
}
use btc_laptop_agents.Paper.Broker.{Broker, max_orders_per_minute}
use btc_laptop_agents.Paper.Store.{save_state}
use btc_laptop_agents.Paper.Risk.{
  recent, admit_rate, check_interval, check_loss, check_size, check_order, validate_risk_limits,
}
use btc_laptop_agents.Paper.Pricing.{fill_price, market_slippage, effective_slip}
use btc_laptop_agents.Paper.Fill.{
  claim_order, order_id, fill_claimed, fill_at, apply_fill, pick_trade_id, open_or_grow,
  close_position_fifo, try_fill,
}
use btc_laptop_agents.Paper.Orders.{working_loop, working_fuel, process_working_orders}

keep_if-append :
    {A : Type 0} (p : A → Bool) (xs ys : List A)
    → keep_if p (xs ++ ys) ≡ keep_if p xs ++ keep_if p ys
keep_if-append p [] ys = refl
keep_if-append p (x ∷ xs) ys = ground (arith, keep_if-append p xs ys)

keep_if_twice : {A : Type 0} (p : A → Bool) (xs : List A) → keep_if p (keep_if p xs) ≡ keep_if p xs
keep_if_twice p [] = refl
keep_if_twice p (x ∷ xs) = ground (arith, keep_if_twice p xs)

get_elem?-lt : {A : Type 0} (xs : List A) (i : ℕ) {a : A} → get_elem? xs i ≡ some a → i < length xs
get_elem?-lt [] i h = cc
get_elem?-lt (x ∷ xs) zero h = omega arith
get_elem?-lt (x ∷ xs) (suc i) h = omega (arith, get_elem?-lt xs i h)

module _ {F : Type 0} ⦃fl : Float F⦄ where
  -- No exception of the broker is the one that marks a loop cut off.
  slice_of-cut :
      (s : Side) (px rate : F) (inv : Bool) (l : Lot F) (r : F)
      → slice_of s px rate inv l r ≢ err out_of_fuel
  unfolding slice_of lot_pnl
  slice_of-cut s px rate inv l r h = ground arith

  fifo_loop-cut :
      (s : Side) (px rate : F) (inv : Bool) (ls : List (Lot F)) (r : F) (t : FifoResult F)
      → (fifo_loop s px rate inv ls r t).0 ≢ err out_of_fuel
  unfolding fifo_loop
  fifo_loop-cut s px rate inv [] r t h = cc
  fifo_loop-cut s px rate inv (l ∷ ls) r t h =
      grind (arith, slice_of-cut s px rate inv l r, fifo_loop-cut s px rate inv ls)

  check_order-cut : (o : Order F) → check_order o ≢ err out_of_fuel
  unfolding check_order
  check_order-cut o h = ground arith

  recent_twice : (now : F) (ts : List F) → recent now (recent now ts) ≡ recent now ts
  unfolding recent
  recent_twice now ts = keep_if_twice (λ t. lt (now - t) (lit 60 1)) ts

  recent_now :
      (now : F) (ts : List F)
      → lt (now - now) (lit 60 1) ≡ true
      → length (recent now (recent now ts ++ now ∷ [])) ≡ suc (length (recent now ts))
  unfolding recent
  recent_now now ts h =
      let p = λ (t : F). lt (now - t) (lit 60 1) in
      rw
        (
          keep_if-append p (keep_if p ts) (now ∷ []),
          keep_if_twice p ts,
          length-append (keep_if p ts) (keep_if p (now ∷ [])),
        )
        (ground arith)

  -- The orders that the rate limit still admits at `now`.
  abbrev slots : F → List F → ℕ
  slots now ts = sub max_orders_per_minute (length (recent now ts))

module _ {F W : Type 0} ⦃fl : Float F⦄ where
  validate-cut :
      (b : Broker F W) (now : F) (o : Order F) (candle : Candle F) (equity : F) (w : Bool)
      → (validate_risk_limits b now o candle equity w).0 ≢ err out_of_fuel
  unfolding validate_risk_limits check_interval check_loss check_size
  validate-cut b now o candle equity w h = ground (arith, check_order-cut o)

  -- The validation keeps the count of slots where it refuses for the rate, and takes one otherwise.
  validate-slots :
      (b : Broker F W) (now : F) (o : Order F) (candle : Candle F) (equity : F) (w : Bool)
      → lt (now - now) (lit 60 1) ≡ true
      → let r = validate_risk_limits b now o candle equity w in
        (slots now r.1 ≤ slots now b.order_timestamps)
        × ((r.0 ≡ ok true) → slots now r.1 < slots now b.order_timestamps)
  unfolding validate_risk_limits admit_rate
  validate-slots b now o candle equity w h = (
    ground (arith, recent_twice now b.order_timestamps, recent_now now b.order_timestamps h),
    λ accepted.
        ground (arith, recent_twice now b.order_timestamps, recent_now now b.order_timestamps h),
  )

-- What filling may do to the list that the loop goes over: the clock and the timestamps stay, and at
-- most one order is appended.
record IsShort {F W : Type 0} ⦃host : Host F W (FillEvent F)⦄ (b b' : Broker F W) : Type 0 where
  clock_same : host.time b'.world ≡ host.time b.world
  stamps_same : b'.order_timestamps ≡ b.order_timestamps
  appended : length b'.working_orders ≤ suc (length b.working_orders)

module _ {F W : Type 0} ⦃fl : Float F⦄ ⦃host : Host F W (FillEvent F)⦄
    (steady : IsSteady host) where
  close_position_fifo-IsShort :
      (b : Broker F W) (p : Position F) (o : Order F) (qty px : F) (candle : Candle F)
      → IsShort b (close_position_fifo b p o qty px candle).1
  unfolding close_position_fifo save_state
  close_position_fifo-IsShort b p o qty px candle = ground arith

  close_position_fifo-cut :
      (b : Broker F W) (p : Position F) (o : Order F) (qty px : F) (candle : Candle F)
      → (close_position_fifo b p o qty px candle).0 ≢ err out_of_fuel
  unfolding close_position_fifo process_fifo_close
  close_position_fifo-cut b p o qty px candle h = grind (arith, fifo_loop-cut)

  open_or_grow-IsShort :
      (b : Broker F W) (id trade_id : String) (equity : F) (o : Order F) (qty px : F)
      (candle : Candle F) (is_working : Bool)
      → IsShort b (open_or_grow b id trade_id equity o qty px candle is_working).1
  unfolding open_or_grow save_state
  open_or_grow-IsShort b id trade_id equity o qty px candle is_working =
      grind (arith, length-append, steady.cache_time)

  apply_fill-cut :
      (b : Broker F W) (id : String) (equity : F) (o : Order F) (qty px : F) (candle : Candle F)
      (is_working : Bool)
      → (apply_fill b id equity o qty px candle is_working).0 ≢ err out_of_fuel
  unfolding apply_fill
  apply_fill-cut b id equity o qty px candle is_working h = grind (arith, close_position_fifo-cut)

  apply_fill-IsShort :
      (b : Broker F W) (id : String) (equity : F) (o : Order F) (qty px : F) (candle : Candle F)
      (is_working : Bool)
      → IsShort b (apply_fill b id equity o qty px candle is_working).1
  unfolding apply_fill pick_trade_id
  apply_fill-IsShort b id equity o qty px candle is_working =
      grind (arith, close_position_fifo-IsShort, open_or_grow-IsShort, steady.uuid_time)

  fill_price-time :
      (slip : F) (o : Order F) (tick : Option (Tick F)) (qty px : F) (w : W)
      → host.time (fill_price slip o tick qty px w).1 ≡ host.time w
  unfolding fill_price market_slippage effective_slip
  fill_price-time slip o tick qty px w = grind (arith, steady.uniform_time, steady.randint_time)

  fill_at-IsShort :
      (b : Broker F W) (id : String) (equity : F) (o : Order F) (base : Option F)
      (candle : Candle F) (tick : Option (Tick F)) (is_working : Bool)
      → IsShort b (fill_at b id equity o base candle tick is_working).1
        × ((fill_at b id equity o base candle tick is_working).0 ≢ err out_of_fuel)
  unfolding fill_at
  fill_at-IsShort b id equity o none candle tick is_working = ground arith
  fill_at-IsShort b id equity o (some base) candle tick is_working =
      grind (arith, apply_fill-IsShort, apply_fill-cut, fill_price-time)

  -- The orders in the list and the slots left, together, which bound the rounds of the loop.
  abbrev room : F → Broker F W → ℕ
  room now b = add (length b.working_orders) (slots now b.order_timestamps)

  fill_claimed-room :
      (b : Broker F W) (id : String) (o : Order F) (candle : Candle F) (tick : Option (Tick F))
      (is_working : Bool) (now : F)
      → host.time b.world ≡ now
      → lt (now - now) (lit 60 1) ≡ true
      → let r = fill_claimed b id o candle tick is_working in
        (host.time r.1.world ≡ now) × (room now r.1 ≤ room now b) × (r.0 ≢ err out_of_fuel)
  unfolding fill_claimed
  fill_claimed-room b id o candle tick is_working now clock window =
      let equity = or_else o.equity b.current_equity in
      let slot_facts = validate-slots b (host.time b.world) o candle equity is_working in
      grind (
        arith,
        fill_at-IsShort,
        slot_facts,
        validate-cut b (host.time b.world) o candle equity is_working,
      )

  order_id-time :
      (b : Broker F W) (k : Option String) → host.time (order_id b k).1 ≡ host.time b.world
  unfolding order_id
  order_id-time b none = steady.uuid_time b.world
  order_id-time b (some k) = ground (arith, steady.uuid_time b.world)

  try_fill-room :
      (b : Broker F W) (candle : Candle F) (o : Order F) (tick : Option (Tick F)) (now : F)
      → host.time b.world ≡ now
      → lt (now - now) (lit 60 1) ≡ true
      → let r = try_fill b candle o true tick in
        (host.time r.1.world ≡ now) × (room now r.1 ≤ room now b) × (r.0 ≢ err out_of_fuel)
  unfolding try_fill claim_order
  try_fill-room b candle o tick now clock window =
      let (id, w) = order_id b o.client_order_id in
      fill_claimed-room (record b { world = w }) id o candle tick true now
        (order_id-time b o.client_order_id ∙ clock) window

  -- With more fuel than rounds, the loop ends by itself.
  working_loop_ends :
      (fuel i : ℕ) (fills : List (Fill F)) (rest : List (Order F)) (candle : Candle F)
      (b : Broker F W) (now : F)
      → host.time b.world ≡ now
      → lt (now - now) (lit 60 1) ≡ true
      → sub (room now b) i < fuel
      → (working_loop fuel i fills rest candle b).0 ≢ err out_of_fuel
  unfolding working_loop
  working_loop_ends zero i fills rest candle b now clock window enough = absurd (omega arith)
  working_loop_ends (suc fuel) i fills rest candle b now clock window enough =
      elim (Option-cases (get_elem? b.working_orders i)) [
        | inl over ↦ ground arith
        | inr (o, here) ↦
            let b' = (try_fill b candle o true none).1 in
            let (clock', less, uncut) = try_fill-room b candle o none now clock window in
            let inside = get_elem?-lt b.working_orders i here in
            let again = λ (fills' : List (Fill F)) (rest' : List (Order F)).
              working_loop_ends fuel (add i 1) fills' rest' candle b' now clock' window
                (omega arith) in
            elim (Outcome-cases (try_fill b candle o true none).0) [
              | inl (e, raised) ↦ ground arith
              | inr (inl skipped) ↦ ground (arith, again fills (rest ++ o ∷ []))
              | inr (inr (x, filled)) ↦ ground (arith, again (fills ++ x ∷ []) rest)
            ]
      ]

  -- With a clock that stands still during the call, `_process_working_orders` ends by itself: it
  -- comes to the end of the list, however many remainders are appended on the way, or raises.
  pub process_working_orders_ends :
      (laws : IsOrdered F) (b : Broker F W) (candle : Candle F)
      → fl.is_finite (host.time b.world) ≡ true
      → (process_working_orders b candle).0 ≢ err out_of_fuel
  unfolding process_working_orders
  process_working_orders_ends laws b candle finite =
      let now = host.time b.world in
      let window : lt (now - now) (lit 60 1) ≡ true =
        rw (laws.minus_self now finite) (laws.lit-lt 0 60 (omega arith) (omega arith)) in
      working_loop_ends (working_fuel b) 0 [] [] candle b now refl window (omega arith)
