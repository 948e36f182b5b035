-- ===== src/Paper/Soundness.antt =====
-- The invariant of `PaperBroker` (paper/broker.py): its equity is what its order history adds up to,
-- and no more than ten orders are counted in a minute. Every entry point but `apply_funding`, which
-- charges the equity alone, keeps it, also when it raises.
use btc_laptop_agents.Prelude.{
  ℕ, zero, suc, ◌+◌ as add, ◌≤◌, ◌≡◌, refl, Option, none, some, List, [], ◌∷◌, ◌++◌, Result, ok,
  err, arith, String, Bool, length,
}
use btc_laptop_agents.Float.{Float, ◌+◌, or_else}
use btc_laptop_agents.Host.{Host}
use btc_laptop_agents.Trading.Market.{Candle, Tick}
use btc_laptop_agents.Paper.Types.{
  Record, close_record, exit_record, FillEvent, Order, Position, Reason, Fill, ExitEvent,
}
use btc_laptop_agents.Paper.Broker.{Broker, max_orders_per_minute}
use btc_laptop_agents.Paper.Risk.Limits.{length-validate_risk_limits}
use btc_laptop_agents.Paper.Store.{save_state}
use btc_laptop_agents.Paper.Exit.{
  book_exit, exit_position, exit_if, check_exit, check_tick_exit, settle_exit, on_tick, close_all,
}
use btc_laptop_agents.Paper.Fill.{
  close_position_fifo, claim_order, open_or_grow, pick_trade_id, apply_fill, fill_at, fill_claimed,
  try_fill,
}
use btc_laptop_agents.Paper.Orders.{
  working_loop, process_working_orders, manage_position, manage_open, enter, on_candle,
}

abbrev pub pnl_of : {F : Type 0} → Record F → F
pnl_of (close_record e) = e.pnl
pnl_of (exit_record e) = e.pnl

-- An amount with the profits of a history added, in order.
unfoldable pub total : {F : Type 0} ⦃fl : Float F⦄ → F → List (Record F) → F
total e [] = e
total e (r ∷ rs) = total (e + pnl_of r) rs

pub record IsSound {F W : Type 0} ⦃fl : Float F⦄ (start : F) (b : Broker F W) : Type 0 where
  pub balanced : b.current_equity ≡ total start b.order_history
  pub rate_bounded : length b.order_timestamps ≤ max_orders_per_minute

module _ {F : Type 0} ⦃fl : Float F⦄ where
  total-snoc :
      (e : F) (rs : List (Record F)) (r : Record F) → total e (rs ++ r ∷ []) ≡ total e rs + pnl_of r
  unfolding total
  total-snoc e [] r = refl
  total-snoc e (x ∷ xs) r = total-snoc (e + pnl_of x) xs r

module _ {F W : Type 0} ⦃fl : Float F⦄ ⦃host : Host F W (FillEvent F)⦄ (start : F) where
  exit_position-IsSound :
      (b : Broker F W) (p : Position F) (ts : String) (px : F) (reason : Reason)
      → IsSound start b
      → IsSound start (exit_position b p ts px reason).1
  unfolding exit_position book_exit save_state
  exit_position-IsSound b p ts px reason h = grind (arith, total-snoc)

  close_position_fifo-IsSound :
      (b : Broker F W) (p : Position F) (o : Order F) (qty px : F) (candle : Candle F)
      → IsSound start b
      → IsSound start (close_position_fifo b p o qty px candle).1
  unfolding close_position_fifo save_state
  close_position_fifo-IsSound b p o qty px candle h = grind (arith, total-snoc)

  pick_trade_id-IsSound :
      (b : Broker F W) (id : String) (is_working : Bool)
      → IsSound start b
      → IsSound start (pick_trade_id b id is_working).1
  unfolding pick_trade_id
  pick_trade_id-IsSound b id is_working h = ground arith

  open_or_grow-IsSound :
      (b : Broker F W) (id trade_id : String) (equity : F) (o : Order F) (qty px : F)
      (candle : Candle F) (is_working : Bool)
      → IsSound start b
      → IsSound start (open_or_grow b id trade_id equity o qty px candle is_working).1
  unfolding open_or_grow save_state
  open_or_grow-IsSound b id trade_id equity o qty px candle is_working h = ground arith

  apply_fill-IsSound :
      (b : Broker F W) (id : String) (equity : F) (o : Order F) (qty px : F) (candle : Candle F)
      (is_working : Bool)
      → IsSound start b
      → IsSound start (apply_fill b id equity o qty px candle is_working).1
  unfolding apply_fill
  apply_fill-IsSound b id equity o qty px candle is_working h =
      grind (arith, close_position_fifo-IsSound, open_or_grow-IsSound, pick_trade_id-IsSound)

  fill_claimed-IsSound :
      (b : Broker F W) (id : String) (o : Order F) (candle : Candle F) (tick : Option (Tick F))
      (is_working : Bool)
      → IsSound start b
      → IsSound start (fill_claimed b id o candle tick is_working).1
  unfolding fill_claimed fill_at
  fill_claimed-IsSound b id o candle tick is_working h = grind (
    arith,
    apply_fill-IsSound,
    length-validate_risk_limits b (host.time b.world) o candle (or_else o.equity b.current_equity)
        is_working h.rate_bounded,
  )

  try_fill-IsSound :
      (b : Broker F W) (candle : Candle F) (o : Order F) (is_working : Bool)
      (tick : Option (Tick F))
      → IsSound start b
      → IsSound start (try_fill b candle o is_working tick).1
  unfolding try_fill claim_order
  try_fill-IsSound b candle o is_working tick h = grind (arith, fill_claimed-IsSound)

  working_loop-IsSound :
      (fuel i : ℕ) (fills : List (Fill F)) (rest : List (Order F)) (candle : Candle F)
      (b : Broker F W)
      → IsSound start b
      → IsSound start (working_loop fuel i fills rest candle b).1
  unfolding working_loop
  working_loop-IsSound zero i fills rest candle b h = h
  working_loop-IsSound (suc fuel) i fills rest candle b h =
      grind (arith, try_fill-IsSound, working_loop-IsSound fuel (add i 1))

  exit_if-IsSound :
      (b : Broker F W) (p : Position F) (ts : String) (d : Option (F × Reason))
      → IsSound start b
      → IsSound start (exit_if b p ts d).1
  unfolding exit_if
  exit_if-IsSound b p ts none h = h
  exit_if-IsSound b p ts (some (px, reason)) h = grind (arith, exit_position-IsSound)

  settle_exit-IsSound :
      (m : Result (Option (ExitEvent F)) × Broker F W)
      → IsSound start m.1
      → IsSound start (settle_exit m).1
  unfolding settle_exit save_state
  settle_exit-IsSound (err e, b) h = h
  settle_exit-IsSound (ok none, b) h = h
  settle_exit-IsSound (ok (some e), b) h = ground arith

  manage_open-IsSound :
      (b : Broker F W) (candle : Candle F)
      → IsSound start b
      → IsSound start (manage_open b candle).1
  unfolding manage_open manage_position check_exit
  manage_open-IsSound b candle h = grind (arith, settle_exit-IsSound, exit_if-IsSound)

  enter-IsSound :
      (b : Broker F W) (candle : Candle F) (o : Option (Order F)) (tick : Option (Tick F))
      → IsSound start b
      → IsSound start (enter b candle o tick).1
  unfolding enter save_state
  enter-IsSound b candle none tick h = h
  enter-IsSound b candle (some o) tick h = grind (arith, try_fill-IsSound)

  -- A candle keeps the books balanced and the count of orders bounded, whatever happens in it.
  pub on_candle-IsSound :
      (b : Broker F W) (candle : Candle F) (o : Option (Order F)) (tick : Option (Tick F))
      → IsSound start b
      → IsSound start (on_candle b candle o tick).1
  unfolding on_candle process_working_orders
  on_candle-IsSound b candle o tick h =
      grind (arith, working_loop-IsSound, manage_open-IsSound, enter-IsSound)

  -- A tick keeps the books balanced and the count of orders bounded, whatever it exits.
  on_tick-IsSound :
      (b : Broker F W) (tick : Tick F) → IsSound start b → IsSound start (on_tick b tick).1
  unfolding on_tick check_tick_exit
  on_tick-IsSound b tick h = grind (arith, settle_exit-IsSound, exit_if-IsSound)

  -- So does a forced close.
  pub close_all-IsSound :
      (b : Broker F W) (px : F) → IsSound start b → IsSound start (close_all b px).1
  unfolding close_all
  close_all-IsSound b px h = grind (arith, exit_position-IsSound)
