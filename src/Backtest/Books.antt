-- ===== src/Backtest/Books.antt =====
-- The books of `BacktestBroker` (backtest/backtest_broker.py): its equity against its history.
use btc_laptop_agents.Prelude.{
  ◌≡◌, refl, String, Option, none, some, List, [], ◌∷◌, ◌++◌, ok, arith,
}
use btc_laptop_agents.Float.{Float, ◌+◌}
use btc_laptop_agents.Host.{Host}
use btc_laptop_agents.Trading.Market.{Candle}
use btc_laptop_agents.Paper.Types.{Position, Order, FillEvent}
use btc_laptop_agents.Backtest.Broker.{
  Reason, ExitEvent, Record, fill_record, exit_record, BacktestBroker, exit_position, settle,
  manage_open, fill, try_fill, enter, on_candle, close_all,
}

-- An amount with the profits of a history's exits added, in order.
unfoldable pub total : {F : Type 0} ⦃fl : Float F⦄ → F → List (Record F) → F
total e [] = e
total e (fill_record _ ∷ rs) = total e rs
total e (exit_record x ∷ rs) = total (e + x.pnl) rs

-- The equity is the starting equity with the profits of the history.
pub record IsBalanced {F W : Type 0} ⦃fl : Float F⦄ (b : BacktestBroker F W) : Type 0 where
  pub balanced : b.current_equity ≡ total b.starting_equity b.order_history

module _ {F : Type 0} ⦃fl : Float F⦄ where
  abbrev add_record : F → Record F → F
  add_record e (fill_record _) = e
  add_record e (exit_record x) = e + x.pnl

  total-snoc :
      (e : F) (rs : List (Record F)) (r : Record F)
      → total e (rs ++ r ∷ []) ≡ add_record (total e rs) r
  unfolding total
  total-snoc e [] (fill_record _) = refl
  total-snoc e [] (exit_record _) = refl
  total-snoc e (fill_record _ ∷ rs) r = total-snoc e rs r
  total-snoc e (exit_record x ∷ rs) r = total-snoc (e + x.pnl) rs r

module _ {F W : Type 0} ⦃fl : Float F⦄ ⦃host : Host F W (FillEvent F)⦄ where
  exit_position-IsBalanced :
      (b : BacktestBroker F W) (p : Position F) (ts : String) (px : F) (reason : Reason)
      → IsBalanced b
      → IsBalanced (exit_position b p ts px reason).1
  unfolding exit_position
  exit_position-IsBalanced b p ts px reason h = grind (arith, total-snoc)

  manage_open-IsBalanced :
      (b : BacktestBroker F W) (candle : Candle F)
      → IsBalanced b
      → IsBalanced (manage_open b candle).1
  unfolding manage_open settle
  manage_open-IsBalanced b candle h = grind (arith, exit_position-IsBalanced)

  fill-IsBalanced :
      (b : BacktestBroker F W) (candle : Candle F) (o : Order F)
      → IsBalanced b
      → IsBalanced (fill b candle o).1
  unfolding fill
  fill-IsBalanced b candle o h = grind (arith, total-snoc)

  enter-IsBalanced :
      (b : BacktestBroker F W) (candle : Candle F) (order : Option (Order F))
      → IsBalanced b
      → IsBalanced (enter b candle order).1
  unfolding enter try_fill
  enter-IsBalanced b candle none h = h
  enter-IsBalanced b candle (some o) h = ground (arith, fill-IsBalanced b candle o)

  -- A candle keeps the equity equal to the starting equity with the profits of the history's exits,
  -- also where computing an exit raises.
  pub on_candle-IsBalanced :
      (b : BacktestBroker F W) (candle : Candle F) (order : Option (Order F))
      → IsBalanced b
      → IsBalanced (on_candle b candle order).1
  unfolding on_candle
  on_candle-IsBalanced b candle order h = ground (
    arith,
    manage_open-IsBalanced b candle,
    enter-IsBalanced (manage_open b candle).1 candle order,
  )

  close_all-IsBalanced :
      (b : BacktestBroker F W) (px : F) → IsBalanced b → IsBalanced (close_all b px).1
  unfolding close_all settle
  close_all-IsBalanced b px h = grind (arith, exit_position-IsBalanced)

  -- A forced close that returns leaves no position open, and keeps the equity and the history in step.
  close_all-flat :
      (b : BacktestBroker F W) (px : F) (exits : List (ExitEvent F))
      → IsBalanced b
      → (close_all b px).0 ≡ ok exits
      → ((close_all b px).1.pos ≡ none) × IsBalanced (close_all b px).1
  unfolding close_all settle exit_position
  close_all-flat b px exits h e = (ground arith, close_all-IsBalanced b px h)
