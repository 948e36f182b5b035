-- ===== src/Backtest/Ledger.antt =====
-- The books of backtest/engine.py: the equity of a run against its trades, and what it counts.
use btc_laptop_agents.Prelude.{
  ◌+◌ as add, ◌≡◌, refl, Bool, Option, none, some, List, [], ◌∷◌, ◌++◌, Result, ok, err, ◌>>=◌,
  length, length-append, arith,
}
use btc_laptop_agents.Float.{Float, ◌+◌, ◌-◌}
use btc_laptop_agents.Trading.Market.{Candle}
use btc_laptop_agents.Trading.Sizing.{Sized}
use btc_laptop_agents.Backtest.Segment.{
  Params, ExitReason, Trade, Held, Run, started, entry_fee, opened, enter, flip, closing, booked,
  manage, noted, measured, traded, round, rounds,
}

module _ {F : Type 0} ⦃fl : Float F⦄ where
  -- An amount after each trade: its entry's fee, and its profit, which has the exit's fee taken off.
  unfoldable pub replay : Params F → F → List (Trade F) → F
  replay p e [] = e
  replay p e (t ∷ ts) = replay p (e - entry_fee p t.entry t.quantity + t.pnl) ts

  -- The fee that an open position has paid.
  abbrev pub after_entry : Params F → F → Option (Held F) → F
  after_entry p e none = e
  after_entry p e (some h) = e - entry_fee p h.entry_price h.quantity

  -- The equity is the balance after the trades and the open position's fee, and each trade is a win or
  -- a loss.
  pub record IsLedger (p : Params F) (balance : F) (r : Run F) : Type 0 where
    pub balanced : r.realized_equity ≡ after_entry p (replay p balance r.trades) r.position
    pub tallied : add r.wins r.losses ≡ length r.trades

  replay-snoc :
      (p : Params F) (e : F) (ts : List (Trade F)) (t : Trade F)
      → replay p e (ts ++ t ∷ []) ≡ replay p e ts - entry_fee p t.entry t.quantity + t.pnl
  unfolding replay
  replay-snoc p e [] t = refl
  replay-snoc p e (x ∷ xs) t = replay-snoc p (e - entry_fee p x.entry x.quantity + x.pnl) xs t

  opened-IsLedger :
      (p : Params F) (balance : F) (r : Run F) (candle : Candle F) (is_long : Bool) (s : Sized F)
      → r.position ≡ none
      → IsLedger p balance r
      → IsLedger p balance (opened p r candle is_long s)
  unfolding opened
  opened-IsLedger p balance r candle is_long s n h = ground arith

  booked-IsLedger :
      (p : Params F) (balance : F) (r : Run F) (h : Held F) (candle : Candle F) (px : F)
      (reason : ExitReason)
      → r.position ≡ some h
      → IsLedger p balance r
      → IsLedger p balance (booked r (closing p h candle px reason))
  unfolding booked closing
  booked-IsLedger p balance r h candle px reason e l =
      let t = closing p h candle px reason in
      ground (arith, replay-snoc p balance r.trades t, length-append {0} r.trades (t ∷ []))

  abbrev Keeps : Params F → F → Result (Run F) → Type 0
  Keeps p balance (ok r) = IsLedger p balance r
  Keeps p balance (err e) = Unit

  enter-Keeps :
      (p : Params F) (balance : F) (r : Run F) (candle : Candle F) (buys : Bool)
      → r.position ≡ none
      → IsLedger p balance r
      → Keeps p balance (enter p r candle buys)
  unfolding enter
  enter-Keeps p balance r candle buys n l = grind (arith, opened-IsLedger)

  flip-Keeps :
      (p : Params F) (balance : F) (r : Run F) (candle : Candle F) (buys : Bool)
      → r.position ≡ none
      → IsLedger p balance r
      → Keeps p balance (flip p r candle buys)
  unfolding flip
  flip-Keeps p balance r candle buys n l = grind (arith, opened-IsLedger)

  booked-position : (r : Run F) (t : Trade F) → (booked r t).position ≡ none
  unfolding booked
  booked-position r t = refl

  manage-Keeps :
      (p : Params F) (balance : F) (r : Run F) (h : Held F) (candle : Candle F) (buys : Bool)
      → r.position ≡ some h
      → IsLedger p balance r
      → Keeps p balance (manage p r h candle buys)
  unfolding manage
  manage-Keeps p balance r h candle buys e l =
      grind (arith, booked-IsLedger, flip-Keeps, booked-position)

  traded-Keeps :
      (p : Params F) (balance : F) (r : Run F) (candle : Candle F) (buys : Bool)
      → IsLedger p balance r
      → Keeps p balance (traded p r candle buys)
  unfolding traded
  traded-Keeps p balance r candle buys l = grind (arith, enter-Keeps, manage-Keeps)

  noted-IsLedger :
      (p : Params F) (balance : F) (r : Run F) (candle : Candle F)
      → IsLedger p balance r
      → IsLedger p balance (noted r candle) × IsLedger p balance (measured r candle)
  unfolding measured
  noted-IsLedger p balance r candle l = ground arith

  round-Keeps :
      (p : Params F) (balance : F) (r : Run F) (closes : List F) (candle : Candle F)
      → IsLedger p balance r
      → Keeps p balance (round p r closes candle)
  unfolding round
  round-Keeps p balance r closes candle l = grind (arith, traded-Keeps, noted-IsLedger)

  bind-Keeps :
      (p : Params F) (balance : F) (m : Result (Run F)) (f : Run F → Result (Run F))
      → Keeps p balance m
      → ((r : Run F) → IsLedger p balance r → Keeps p balance (f r))
      → Keeps p balance (m >>= f)
  bind-Keeps p balance (ok r) f k h = h r k
  bind-Keeps p balance (err e) f k h = tt

  rounds-Keeps :
      (p : Params F) (balance : F) (r : Run F) (closes : List F) (cs : List (Candle F))
      → IsLedger p balance r
      → Keeps p balance (rounds p r closes cs)
  unfolding rounds
  rounds-Keeps p balance r closes [] l = l
  rounds-Keeps p balance r closes (c ∷ cs) l =
      bind-Keeps p balance (round p r (closes ++ c.close ∷ []) c)
        (λ r'. rounds p r' (closes ++ c.close ∷ []) cs)
        (round-Keeps p balance r (closes ++ c.close ∷ []) c l)
        (λ r' k. rounds-Keeps p balance r' (closes ++ c.close ∷ []) cs k)

  -- Over any candles and with any parameters, the loop that ends without an exception has an equity
  -- that is the starting balance with, trade by trade, the entry's fee taken off and the trade's profit
  -- added, less the entry's fee of a position still open; and its wins and losses are its trades.
  pub rounds-IsLedger :
      (p : Params F) (balance : F) (cs : List (Candle F)) (r : Run F)
      → rounds p (started balance) [] cs ≡ ok r
      → IsLedger p balance r
  unfolding replay
  rounds-IsLedger p balance cs r h = ground (
    arith,
    rounds-Keeps p balance (started balance) [] cs (record { balanced = refl; tallied = refl }),
  )
