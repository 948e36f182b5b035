-- ===== src/Agents/Indicators.antt =====
-- indicators.py: moving averages, ranges, levels, the volume-weighted price, the volume delta and sweeps.
use btc_laptop_agents.Prelude.{
  ℕ, ◌+◌ as add, ◌&&◌, ◌||◌, Option, none, some, List, [], ◌∷◌, map, foldl, Result, ok, err, ◌>>=◌,
  value_error, length, take, drop, keep_if, last_n, from_end, last?, init, ltb, leb, ◌==◌,
  if◌then◌else◌,
}
use btc_laptop_agents.Float.{
  Float, lit, nought, ◌+◌, ◌-◌, ◌*◌, ◌/◌, abs, lt, le, gt, eq, min, max, sum,
}
use btc_laptop_agents.Trading.Market.{Candle}

module _ {F : Type 0} ⦃fl : Float F⦄ where
  -- `max(xs)` and `min(xs)`, which raise where the list is empty.
  unfoldable pub maximum : List F → Result F
  maximum [] = err value_error
  maximum (x ∷ xs) = ok (foldl max x xs)

  unfoldable pub minimum : List F → Result F
  minimum [] = err value_error
  minimum (x ∷ xs) = ok (foldl min x xs)

  abbrev pub highs : List (Candle F) → List F
  highs = map (λ c. c.high)

  abbrev pub lows : List (Candle F) → List F
  lows = map (λ c. c.low)

  abbrev pub closes : List (Candle F) → List F
  closes = map (λ c. c.close)

  unfoldable pub ema : List F → ℕ → Option F
  ema values period =
      let k = lit 2 (add period 1) in
      if period == 0 || ltb (length values) period
      then none
      else some (
          foldl (λ e v. (v - e) * k + e) (sum (take period values) / lit period 1)
            (drop period values))

  unfoldable pub true_range : F → F → F → F
  true_range prev_close high low =
      max (max (high - low) (abs (high - prev_close))) (abs (low - prev_close))

  -- The true ranges of the candles after the given one.
  unfoldable pub true_ranges : Candle F → List (Candle F) → List F
  true_ranges prev [] = []
  true_ranges prev (c ∷ cs) = true_range prev.close c.high c.low ∷ true_ranges c cs

  -- For a period above 0.
  unfoldable pub atr : List (Candle F) → ℕ → Option F
  atr [] period = none
  atr (c ∷ cs) period =
      if ltb (length (c ∷ cs)) (add period 1)
      then none
      else some (sum (last_n period (true_ranges c cs)) / lit period 1)

  unfoldable pub swing_high_low : List (Candle F) → ℕ → Option (F × F)
  swing_high_low candles lookback =
      let window = if leb lookback (length candles) then from_end lookback candles else candles in
      elim (maximum (highs window)) [
        | err e ↦ none
        | ok hi ↦ elim (minimum (lows window)) [ err e ↦ none | ok lo ↦ some (hi, lo) ]
      ]

  -- The earlier values within the tolerance of the last one.
  abbrev pub matches : F → F → List F → List F
  matches tol_pct last = keep_if (λ v. le (abs (v - last)) (abs last * tol_pct))

  unfoldable pub equal_level : List F → F → Option F
  equal_level values tol_pct =
      let recent = last_n 12 values in
      if ltb (length values) 6 then none else elim (last? recent) [
        | none ↦ none
        | some last ↦
            let near = matches tol_pct last (init recent) in
            if leb 1 (length near)
            then some ((sum near + last) / lit (add (length near) 1) 1)
            else none
      ]

  -- The loop of `vwap`, from the sums of price times volume and of volume.
  unfoldable pub vwap_from : F → F → List (Candle F) → List F
  vwap_from cum_pv cum_vol [] = []
  vwap_from cum_pv cum_vol (c ∷ cs) =
      let pv = cum_pv + (c.high + c.low + c.close) / lit 3 1 * c.volume in
      let vol = cum_vol + c.volume in
      (if eq vol nought then c.close else pv / vol) ∷ vwap_from pv vol cs

  unfoldable pub vwap : List (Candle F) → List F
  vwap candles = vwap_from nought nought candles

  -- The volume of a candle, signed by where it closed in its range.
  unfoldable pub volume_delta : Candle F → F
  volume_delta c =
      let range_len = c.high - c.low in
      if eq range_len nought
      then nought
      else ((c.close - c.low) - (c.high - c.close)) / range_len * c.volume

  unfoldable pub cvd_from : F → List (Candle F) → List F
  cvd_from current [] = []
  cvd_from current (c ∷ cs) = let next = current + volume_delta c in next ∷ cvd_from next cs

  unfoldable pub cvd_indicator : List (Candle F) → List F
  cvd_indicator candles = cvd_from nought candles

-- What `detect_sweep` returns: nothing swept, or the level that was swept and reclaimed.
pub data Sweep (F : Type 0) : Type 0 where
  no_sweep : Sweep F
  swept_high : F → Sweep F
  swept_low : F → Sweep F

module _ {F : Type 0} ⦃fl : Float F⦄ where
  -- The test of the last candle against the extremes of the window.
  unfoldable pub swept : F → F → Candle F → Sweep F
  swept swing_high swing_low curr =
      if gt curr.high swing_high && lt curr.close swing_high
      then swept_high swing_high
      else if lt curr.low swing_low && gt curr.close swing_low
      then swept_low swing_low
      else no_sweep

  -- The window is the `lookback` candles before the last one.
  unfoldable pub detect_sweep : List (Candle F) → ℕ → Result (Sweep F)
  detect_sweep candles lookback =
      let window = init (last_n (add lookback 1) candles) in
      if ltb (length candles) (add lookback 1) then ok no_sweep else elim (last? candles) [
        | none ↦ ok no_sweep
        | some curr ↦ do
          swing_high ← maximum (highs window)
          swing_low ← minimum (lows window)
          ok (swept swing_high swing_low curr)
      ]
