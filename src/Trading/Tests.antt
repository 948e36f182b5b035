-- ===== src/Trading/Tests.antt =====
-- Position sizes on concrete inputs.
use btc_laptop_agents.Prelude.{◌≡◌, refl, true, some, ok, err, value_error}
use btc_laptop_agents.Prelude.Int.{pos}
use btc_laptop_agents.Float.{min}
use btc_laptop_agents.Float.Fixed.{fixed_float, fixed-IsOrdered}
use btc_laptop_agents.Trading.Sizing.{calculate_position_size, leveraged, checked, brackets}
use btc_laptop_agents.Trading.Bounds.{IsSized, calculate_position_size-IsSized}

run_open : Unit {0}
unfolding calculate_position_size leveraged checked brackets min
run_open = tt

-- Equity 10000, entry 100, one percent of risk, a stop of 1000 basis points.
ten_coins :
    calculate_position_size
      (pos 100_000_000)
      (pos 1_000_000)
      (pos 10_000)
      (pos 10_000_000)
      (pos 20_000)
      (pos 10_000)
      true
    ≡ ok (some (record { qty = pos 100_000; stop_price = pos 900_000; tp_price = pos 1_200_000 }))
unfolding run_open
ten_coins = refl

-- A target of zero times the risk is a ValueError.
no_target :
    calculate_position_size
      (pos 100_000_000)
      (pos 1_000_000)
      (pos 10_000)
      (pos 10_000_000)
      (pos 0)
      (pos 10_000)
      true
    ≡ err value_error
unfolding run_open
no_target = refl

calculate_position_size-IsSized_example :
    IsSized (pos 100_000_000) (pos 1_000_000) (pos 10_000) true (
      calculate_position_size
        (pos 100_000_000)
        (pos 1_000_000)
        (pos 10_000)
        (pos 10_000_000)
        (pos 20_000)
        (pos 10_000)
        true)
calculate_position_size-IsSized_example =
    calculate_position_size-IsSized fixed-IsOrdered (pos 100_000_000) (pos 1_000_000) (pos 10_000)
      (pos 10_000_000) (pos 20_000) (pos 10_000) true
