-- ===== src/Trading/Costs.antt =====
-- `calculate_fees` and `apply_slippage` of trading/helpers.py.
use btc_laptop_agents.Prelude.{Bool, if◌then◌else◌}
use btc_laptop_agents.Float.{Float, lit, one, ◌+◌, ◌-◌, ◌*◌, ◌/◌}

module _ {F : Type 0} ⦃fl : Float F⦄ where
  unfoldable pub calculate_fees : F → F → F
  calculate_fees notional fees_bps = notional * (fees_bps / lit 10_000 1)

  unfoldable pub apply_slippage : F → Bool → Bool → F → F
  apply_slippage price is_entry is_long slip_bps =
      let slip_rate = slip_bps / lit 10_000 1 in
      if is_long
      then (if is_entry then price * (one + slip_rate) else price * (one - slip_rate))
      else if is_entry
      then price * (one - slip_rate)
      else price * (one + slip_rate)
