-- ===== src/Agents/Context.antt =====
-- agents/market_intake.py and agents/cvd_divergence.py: the market context and the divergence that the
-- setups are chosen from. The lines of text of the context are left out.
use btc_laptop_agents.Prelude.{
  ℕ, Bool, false, ◌&&◌, Option, none, some, List, Result, ok, err, ◌>>=◌, index_error, length,
  last_n, last?, init, ltb, if◌then◌else◌,
}
use btc_laptop_agents.Float.{Float, lit, nought, lt, gt, truthy, ◌//◌}
use btc_laptop_agents.Trading.Market.{Candle}
use btc_laptop_agents.Agents.Indicators.{
  highs, lows, closes, maximum, minimum, ema, atr, swing_high_low, equal_level, cvd_from,
}

pub data Trend : Type 0 where
  up down chop unknown : Trend

pub data Regime : Type 0 where
  chop_lowvol trend_highvol normal unknown : Regime

pub record Context (F : Type 0) : Type 0 where
  pub price : F
  pub trend : Trend
  pub regime : Regime
  pub ema20 : Option F
  pub ema50 : Option F
  pub swing : Option (F × F)
  pub eq_high : Option F
  pub eq_low : Option F
  pub atr : Option F
  pub atr_pct : Option F

-- `cvd_divergence["divergence"]`
pub data Divergence : Type 0 where
  none_seen bullish bearish : Divergence

module _ {F : Type 0} ⦃fl : Float F⦄ where
  -- Two averages that are both there and not zero.
  abbrev pub both : Option F → Option F → Option (F × F)
  both (some a) (some b) = if truthy a && truthy b then some (a, b) else none
  both _ _ = none

  unfoldable pub trend_of : F → Option F → Option F → Trend
  trend_of last fast slow = elim (both fast slow) [
    | none ↦ Trend.unknown
    | some (f, s) ↦
        if gt f s && gt last f
        then Trend.up
        else if lt f s && lt last f
        then Trend.down
        else Trend.chop
  ]

  -- `(a / last) if a else None`
  abbrev pub share_of : Option F → F → Result (Option F)
  share_of none last = ok none
  share_of (some a) last = if truthy a then (do q ← a // last; ok (some q)) else ok none

  unfoldable pub regime_of : Option F → Regime
  regime_of none = Regime.unknown
  regime_of (some p) =
      if lt p (lit 2 1000)
      then Regime.chop_lowvol
      else if gt p (lit 6 1000)
      then Regime.trend_highvol
      else Regime.normal

  -- `MarketIntakeAgent.run`; `tol` is the symbol's tolerance, from a file of overrides.
  unfoldable pub market_intake : F → List (Candle F) → Result (Context F)
  market_intake tol candles = elim (last? (closes candles)) [
    | none ↦ err index_error
    | some last ↦
        let fast = ema (closes candles) 20 in
        let slow = ema (closes candles) 50 in
        let a = atr candles 14 in
        (do
          atr_pct ← share_of a last
          ok (record {
            price = last;
            trend = trend_of last fast slow;
            regime = regime_of atr_pct;
            ema20 = fast;
            ema50 = slow;
            swing = swing_high_low candles 40;
            eq_high = equal_level (highs candles) tol;
            eq_low = equal_level (lows candles) tol;
            atr = a;
            atr_pct = atr_pct;
          }))
  ]

  -- Whether the last value is under, or over, all the earlier ones.
  abbrev pub under : List F → Bool
  under xs = elim (last? xs) [
    | none ↦ false
    | some x ↦ elim (minimum (init xs)) [ err e ↦ false | ok m ↦ lt x m ]
  ]

  abbrev pub over : List F → Bool
  over xs = elim (last? xs) [
    | none ↦ false
    | some x ↦ elim (maximum (init xs)) [ err e ↦ false | ok m ↦ gt x m ]
  ]

  -- Whether the last value is over the least, or under the greatest, of the earlier ones.
  abbrev pub over_least : List F → Bool
  over_least xs = elim (last? xs) [
    | none ↦ false
    | some x ↦ elim (minimum (init xs)) [ err e ↦ false | ok m ↦ gt x m ]
  ]

  abbrev pub under_greatest : List F → Bool
  under_greatest xs = elim (last? xs) [
    | none ↦ false
    | some x ↦ elim (maximum (init xs)) [ err e ↦ false | ok m ↦ lt x m ]
  ]

  -- With the lows, the highs and the volume deltas, of which the last five count.
  unfoldable pub detect_divergence : List (Candle F) → List F → Divergence
  detect_divergence candles cvd =
      let recent = last_n 5 candles in
      let c_slice = last_n 5 cvd in
      if ltb (length candles) 5
      then Divergence.none_seen
      else if under (lows recent) && over_least c_slice
      then Divergence.bullish
      else if over (highs recent) && under_greatest c_slice
      then Divergence.bearish
      else Divergence.none_seen

  -- `CvdDivergenceAgent.run`: the divergence stays where the history is too short.
  unfoldable pub cvd_divergence : ℕ → List (Candle F) → Divergence → Divergence
  cvd_divergence lookback candles before =
      if ltb (length candles) lookback
      then before
      else detect_divergence candles (cvd_from nought candles)
