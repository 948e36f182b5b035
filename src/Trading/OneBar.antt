-- ===== src/Trading/OneBar.antt =====
-- `simulate_trade_one_bar` of trading/helpers.py, without the fresh id and the time of the record.
use btc_laptop_agents.Prelude.{Bool, if◌then◌else◌}
use btc_laptop_agents.Float.{Float, nought, one, lit, ◌+◌, ◌-◌, ◌*◌, ◌/◌, gt}

-- `is_long` is the side, and whether the signal was "BUY".
pub record BarTrade (F : Type 0) : Type 0 where
  pub is_long : Bool
  pub entry : F
  pub exit_px : F
  pub quantity : F
  pub pnl : F
  pub fees : F

module _ {F : Type 0} ⦃fl : Float F⦄ where
  unfoldable pub simulate_trade_one_bar : Bool → F → F → F → F → F → BarTrade F
  simulate_trade_one_bar buys entry_px exit_px starting_balance fees_bps slip_bps =
      let fees_rate = fees_bps / lit 10_000 1 in
      let slip_rate = slip_bps / lit 10_000 1 in
      let entry = entry_px * (if buys then one + slip_rate else one - slip_rate) in
      let left = exit_px * (if buys then one - slip_rate else one + slip_rate) in
      let qty = if gt entry nought then starting_balance / entry else nought in
      let gross = (if buys then left - entry else entry - left) * qty in
      let fees = (entry * qty + left * qty) * fees_rate in
      record {
        is_long = buys;
        entry = entry;
        exit_px = left;
        quantity = qty;
        pnl = gross - fees;
        fees = fees;
      }
