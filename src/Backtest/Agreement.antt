-- ===== src/Backtest/Agreement.antt =====
-- The exits of `BacktestBroker._check_exit` (backtest/backtest_broker.py) beside those of
-- `PaperBroker._check_exit` (paper/broker.py).
use btc_laptop_agents.Prelude.{◌≡◌, true, false, Option, none, some}
use btc_laptop_agents.Float.{Float}
use btc_laptop_agents.Float.Laws.{◌≼◌}
use btc_laptop_agents.Paper.Types.{Position, is_long}
use btc_laptop_agents.Paper.Types.{Reason as PaperReason}
use btc_laptop_agents.Paper.Exit.{exit_decision as paper_exit_decision}
use btc_laptop_agents.Backtest.Broker.{Reason, exit_decision}

module _ {F : Type 0} ⦃fl : Float F⦄ where
  -- Both decide to exit or neither does, and the first price is no better for the position.
  abbrev pub IsNoBetter : Position F → Option (F × PaperReason) → Option (F × Reason) → Type 0
  IsNoBetter p none none = Unit
  IsNoBetter p none (some _) = true ≡ false
  IsNoBetter p (some _) none = true ≡ false
  IsNoBetter p (some x) (some y) =
      (is_long p.side ≡ true → x.0 ≼ y.0) × (is_long p.side ≡ false → y.0 ≼ x.0)
