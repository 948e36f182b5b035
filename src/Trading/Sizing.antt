-- ===== src/Trading/Sizing.antt =====
-- Position sizing in trading/helpers.py, and the simple moving average beside it.
use btc_laptop_agents.Prelude.{
  ℕ, Bool, ◌&&◌, Option, none, some, List, Result, ok, err, value_error, ◌>>=◌, if◌then◌else◌, ltb,
  length, last_n,
}
use btc_laptop_agents.Float.{Float, nought, lit, ◌+◌, ◌-◌, ◌*◌, ◌/◌, ◌//◌, le, lt, gt, min, sum}

pub record Sized (F : Type 0) : Type 0 where
  pub qty : F
  pub stop_price : F
  pub tp_price : F

module _ {F : Type 0} ⦃fl : Float F⦄ where
  -- The stop and the target on the two sides of the entry.
  unfoldable pub brackets : F → F → F → Bool → F × F
  brackets entry_price stop_distance tp_r is_long =
      if is_long
      then (entry_price - stop_distance, entry_price + stop_distance * tp_r)
      else (entry_price + stop_distance, entry_price - stop_distance * tp_r)

  -- The test of the order of the prices, which raises ValueError.
  unfoldable pub checked : F → F → F × F → Bool → Result (Option (Sized F))
  checked entry_price qty prices is_long =
      if (if is_long
        then lt prices.0 entry_price && lt entry_price prices.1
        else lt prices.1 entry_price && lt entry_price prices.0)
      then ok (some (record { qty = qty; stop_price = prices.0; tp_price = prices.1 }))
      else err value_error

  -- The cap of the notional by the leverage.
  unfoldable pub leveraged : F → F → F → F → F
  leveraged equity entry_price max_leverage qty_raw =
      let max_notional = equity * max_leverage in
      min qty_raw (if gt entry_price nought then max_notional / entry_price else nought)

  unfoldable pub calculate_position_size : F → F → F → F → F → F → Bool → Result (Option (Sized F))
  calculate_position_size equity entry_price risk_pct stop_bps tp_r max_leverage is_long =
      let stop_distance = entry_price * (stop_bps / lit 10_000 1) in
      let risk_amount = equity * (risk_pct / lit 100 1) in
      if le stop_distance nought then ok none else (do
        qty_raw ← risk_amount // stop_distance
        let qty = leveraged equity entry_price max_leverage qty_raw
        (if le qty nought
            then ok none
            else checked entry_price qty (brackets entry_price stop_distance tp_r is_long) is_long))

  -- `window` is above zero where the code calls it.
  unfoldable pub sma : List F → ℕ → Option F
  sma vals window =
      if ltb (length vals) window then none else some (sum (last_n window vals) / lit window 1)
