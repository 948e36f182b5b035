-- ===== src/Live/Books.antt =====
-- The books of `BitunixBroker` (execution/bitunix_broker.py): its equity against its history.
use btc_laptop_agents.Prelude.{◌≡◌, refl, Option, none, some, List, [], ◌∷◌, ◌++◌, arith}
use btc_laptop_agents.Float.{Float, ◌+◌}
use btc_laptop_agents.Trading.Market.{Candle}
use btc_laptop_agents.Paper.Types.{Order}
use btc_laptop_agents.Live.Types.{
  Exchange, LivePosition, LiveRecord, fill_record, exit_record, LiveBroker, LiveEvents,
}
use btc_laptop_agents.Live.Submit.{get_info, send, prepare_and_send, submit}
use btc_laptop_agents.Live.Sync.{
  report_fill, report_exit, synthesize, read_position, correct_drift, sync,
}
use btc_laptop_agents.Live.Broker.{submitted, on_candle}

-- An amount with the profits of a history's exits added, in order.
unfoldable pub total : {F : Type 0} ⦃fl : Float F⦄ → F → List (LiveRecord F) → F
total e [] = e
total e (fill_record _ ∷ rs) = total e rs
total e (exit_record x ∷ rs) = total (e + x.pnl) rs

-- The equity is an amount to start with and the profits of the history.
pub record IsSettled {F W : Type 0} ⦃fl : Float F⦄ (start : F) (b : LiveBroker F W) : Type 0 where
  pub balanced : b.current_equity ≡ total start b.order_history

module _ {F : Type 0} ⦃fl : Float F⦄ where
  abbrev add_record : F → LiveRecord F → F
  add_record e (fill_record _) = e
  add_record e (exit_record x) = e + x.pnl

  total-snoc :
      (e : F) (rs : List (LiveRecord F)) (r : LiveRecord F)
      → total e (rs ++ r ∷ []) ≡ add_record (total e rs) r
  unfolding total
  total-snoc e [] (fill_record _) = refl
  total-snoc e [] (exit_record _) = refl
  total-snoc e (fill_record _ ∷ rs) r = total-snoc e rs r
  total-snoc e (exit_record x ∷ rs) r = total-snoc (e + x.pnl) rs r

module _ {F W : Type 0} ⦃fl : Float F⦄ (start : F) where
  synthesize-IsSettled :
      (b : LiveBroker F W) (current : Option (LivePosition F)) (candle : Candle F)
      (ev : LiveEvents F)
      → IsSettled start b
      → IsSettled start (synthesize b current candle ev).1
  unfolding synthesize report_fill report_exit
  synthesize-IsSettled b none candle ev h = grind (arith, total-snoc)
  synthesize-IsSettled b (some p) candle ev h = grind (arith, total-snoc)

module _ {F W : Type 0} ⦃fl : Float F⦄ (ex : Exchange F W) (start : F) where
  read_position-IsSettled :
      (b : LiveBroker F W) → IsSettled start b → IsSettled start (read_position ex b).1
  unfolding read_position
  read_position-IsSettled b h = ground arith

  correct_drift-IsSettled :
      (b : LiveBroker F W) (current : Option (LivePosition F))
      → IsSettled start b
      → IsSettled start (correct_drift ex b current).1
  unfolding correct_drift
  correct_drift-IsSettled b current h = ground arith

  sync-IsSettled :
      (b : LiveBroker F W) (candle : Candle F) (ev : LiveEvents F)
      → IsSettled start b
      → IsSettled start (sync ex b candle ev).1
  unfolding sync
  sync-IsSettled b candle ev h =
      grind (arith, read_position-IsSettled, correct_drift-IsSettled, synthesize-IsSettled)

  submit-IsSettled :
      (b : LiveBroker F W) (o : Order F) (candle : Candle F)
      → IsSettled start b
      → IsSettled start (submit ex b o candle).1
  unfolding submit prepare_and_send get_info send
  submit-IsSettled b o candle h = ground arith

  submitted-IsSettled :
      (b : LiveBroker F W) (candle : Candle F) (order : Option (Order F))
      → IsSettled start b
      → IsSettled start (submitted ex b candle order).1
  unfolding submitted
  submitted-IsSettled b candle none h = h
  submitted-IsSettled b candle (some o) h = ground (arith, submit-IsSettled b o candle h)

  -- Whatever the exchange answers, a candle keeps the equity equal to the amount it started from with
  -- the profits of the exits in the history, also where submitting or synchronising fails.
  pub on_candle-IsSettled :
      (b : LiveBroker F W) (candle : Candle F) (order : Option (Order F))
      → IsSettled start b
      → IsSettled start (on_candle ex b candle order).1
  unfolding on_candle
  on_candle-IsSettled b candle order h = grind (arith, submitted-IsSettled, sync-IsSettled)
