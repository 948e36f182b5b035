-- ===== src/Backtest/BarLedger.antt =====
-- The books of `run_backtest_bar_mode` (backtest/engine.py).
use mathlib.Core.List.{reverse, reverse-append}
use btc_laptop_agents.Prelude.{
  ℕ, suc, ◌+◌ as add, ◌-◌ as less, ◌≤◌, ◌≡◌, refl, ap, ◌∙◌, Bool, Option, none, some, List, [], ◌∷◌,
  ◌++◌, ok, length, length-append, arith, ◌<◌, ◌⊎◌, inl, inr, Bool-cases, ltb, ltb→lt, last_n,
}
use btc_laptop_agents.Float.{Float, ◌+◌, gt, lit, sum, ◌/◌}
use btc_laptop_agents.Trading.Market.{Candle}
use btc_laptop_agents.Trading.Sequence.{normalize_candle_order}
use btc_laptop_agents.Trading.Sizing.{sma}
use btc_laptop_agents.Trading.OneBar.{BarTrade, simulate_trade_one_bar}
use btc_laptop_agents.Backtest.BarMode.{
  BarRun, bar_start, bar_round, bar_step, bar_rounds, run_backtest_bar_mode,
}

length-snoc {ℓ} : {A : Type ℓ} (xs : List A) (x : A) → length (xs ++ x ∷ []) ≡ suc (length xs)
length-snoc xs x = omega (arith, length-append xs (x ∷ []))

length-reverse {ℓ} : {A : Type ℓ} (xs : List A) → length (reverse xs) ≡ length xs
length-reverse [] = refl
length-reverse (x ∷ xs) =
    ap length (reverse-append (x ∷ []) xs) ∙ length-snoc (reverse xs) x ∙ ap suc (length-reverse xs)

length-normalize_candle_order :
    {F : Type 0} (cs : List (Candle F)) → length (normalize_candle_order cs) ≡ length cs
unfolding normalize_candle_order
length-normalize_candle_order [] = refl
length-normalize_candle_order (c ∷ cs) = ground (arith, length-reverse (c ∷ cs))

module _ {F : Type 0} ⦃fl : Float F⦄ where
  -- An amount with the profits of trades added, in order.
  unfoldable pub earned : F → List (BarTrade F) → F
  earned e [] = e
  earned e (t ∷ ts) = earned (e + t.pnl) ts

  -- The equity is the balance with the profits; each trade is a win or a loss, and has a point of the
  -- equity curve.
  pub record IsBarLedger (balance : F) (r : BarRun F) : Type 0 where
    pub balanced : r.equity ≡ earned balance r.trades
    pub tallied : add r.wins r.losses ≡ length r.trades
    pub charted : length r.equity_history ≡ length r.trades

  earned-snoc :
      (e : F) (ts : List (BarTrade F)) (t : BarTrade F)
      → earned e (ts ++ t ∷ []) ≡ earned e ts + t.pnl
  unfolding earned
  earned-snoc e [] t = refl
  earned-snoc e (x ∷ xs) t = earned-snoc (e + x.pnl) xs t

  bar_round-IsBarLedger :
      (balance fees slip : F) (r : BarRun F) (buys : Bool) (from to : Candle F)
      → IsBarLedger balance r
      → IsBarLedger balance (bar_round fees slip r buys from to)
        × (length (bar_round fees slip r buys from to).trades ≡ suc (length r.trades))
  unfolding bar_round
  bar_round-IsBarLedger balance fees slip r buys from to l =
      let t = simulate_trade_one_bar buys from.close to.close r.equity fees slip in
      ground (
        arith,
        earned-snoc balance r.trades t,
        length-snoc r.trades t,
        length-snoc r.equity_history (to.ts, r.equity + t.pnl),
      )

  sma-cases :
      (vals : List F) (n : ℕ)
      → ((length vals < n) × (sma vals n ≡ none))
        ⊎ ((n ≤ length vals) × (x : F) × (sma vals n ≡ some x))
  unfolding sma
  sma-cases vals n = elim (Bool-cases (ltb (length vals) n)) [
    | inl few ↦ inl (ltb→lt (length vals) n few, rw few)
    | inr many ↦ inr (ground arith, sum (last_n n vals) / lit n 1, rw many)
  ]

  bar_step-IsBarLedger :
      (balance fees slip : F) (r : BarRun F) (closes : List F) (from to : Candle F)
      → IsBarLedger balance r
      → IsBarLedger balance (bar_step fees slip r (sma closes 10) (sma closes 30) from to)
        × (add
              (length (bar_step fees slip r (sma closes 10) (sma closes 30) from to).trades)
              (less (length closes) 30)
            ≡ add (length r.trades) (less (suc (length closes)) 30))
  bar_step-IsBarLedger balance fees slip r closes from to l = elim (sma-cases closes 30) [
    | inl (few, e) ↦ rw e (idle (sma closes 10) (omega (arith, few)))
    | inr (many, slow, e) ↦ elim (sma-cases closes 10) [
      | inl (few, _) ↦ absurd (omega (arith, few, many))
      | inr (_, fast, e') ↦
          let both = bar_round-IsBarLedger balance fees slip r (gt fast slow) from to l in
          rw (e, e') (both.0, omega (arith, both.1, many))
    ]
  ]
    where
      idle :
          (fast : Option F)
          → less (length closes) 30 ≡ less (suc (length closes)) 30
          → IsBarLedger balance (bar_step fees slip r fast none from to)
            × (add
                  (length (bar_step fees slip r fast none from to).trades)
                  (less (length closes) 30)
                ≡ add (length r.trades) (less (suc (length closes)) 30))
      idle none h = (l, omega (arith, h))
      idle (some x) h = (l, omega (arith, h))

  bar_rounds-IsBarLedger :
      (balance fees slip : F) (r : BarRun F) (closes : List F) (from : Candle F)
      (cs : List (Candle F))
      → IsBarLedger balance r
      → IsBarLedger balance (bar_rounds fees slip r closes from cs)
        × (add (length (bar_rounds fees slip r closes from cs).trades) (less (length closes) 30)
            ≡ add (length r.trades) (less (add (length closes) (length cs)) 30))
  unfolding bar_rounds
  bar_rounds-IsBarLedger balance fees slip r closes from [] l = (l, omega arith)
  bar_rounds-IsBarLedger balance fees slip r closes from (to ∷ rest) l =
      let r' = bar_step fees slip r (sma closes 10) (sma closes 30) from to in
      let step = bar_step-IsBarLedger balance fees slip r closes from to l in
      let later =
        bar_rounds-IsBarLedger balance fees slip r' (closes ++ to.close ∷ []) to rest step.0 in
      (later.0, omega (arith, step.1, later.1, length-snoc closes to.close))

  -- A backtest in bar mode that returns traded every candle after the first thirty; its equity is the
  -- starting balance with the profits of its trades added in order, its wins and losses are its trades,
  -- and its equity curve has a point for each.
  pub run_backtest_bar_mode-IsBarLedger :
      (balance fees slip : F) (candles : List (Candle F)) (r : BarRun F)
      → run_backtest_bar_mode balance fees slip candles ≡ ok r
      → IsBarLedger balance r × (length r.trades ≡ less (length candles) 30)
  unfolding run_backtest_bar_mode earned
  run_backtest_bar_mode-IsBarLedger balance fees slip candles r h =
      go (normalize_candle_order candles) refl
    where
      go :
          (cs : List (Candle F))
          → normalize_candle_order candles ≡ cs
          → IsBarLedger balance r × (length r.trades ≡ less (length candles) 30)
      go [] e = ground (arith, length-normalize_candle_order candles)
      go (c ∷ cs) e =
          let start : IsBarLedger balance (bar_start balance) = record {
            balanced = refl;
            tallied = refl;
            charted = refl;
          } in
          ground (
            arith,
            length-normalize_candle_order candles,
            bar_rounds-IsBarLedger balance fees slip (bar_start balance) (c.close ∷ []) c cs start,
          )
