-- ===== src/Backtest/EngineTests.antt =====
-- Runs of the backtest engine on concrete inputs, and its theorems at concrete inputs.
use btc_laptop_agents.Prelude.{
  ℕ, zero, suc, ◌≡◌, refl, true, List, [], ◌∷◌, ◌++◌, Result, ok, err, length,
}
use btc_laptop_agents.Prelude.Int.{pos, negsuc}
use btc_laptop_agents.Float.{min, max}
use btc_laptop_agents.Float.Fixed.{Fixed, fixed_float}
use btc_laptop_agents.Trading.Costs.{calculate_fees, apply_slippage}
use btc_laptop_agents.Trading.Market.{Candle}
use btc_laptop_agents.Trading.OneBar.{simulate_trade_one_bar}
use btc_laptop_agents.Trading.Sequence.{normalize_candle_order, before}
use btc_laptop_agents.Trading.Sizing.{sma, brackets, checked, leveraged, calculate_position_size}
use btc_laptop_agents.Paper.Sample.{calm, bar, units, start_equity}
use btc_laptop_agents.Backtest.Segment.{
  Params, Run, started, entry_fee, opened, sized_entry, enter, flip, bracket_exit, closing, booked,
  manage, measured, traded, signal_of, round, rounds,
}
use btc_laptop_agents.Backtest.BarMode.{
  Statistics, BarRun, bar_start, bar_round, bar_rounds, run_backtest_bar_mode,
  run_backtest_on_segment, calculate_sharpe_ratio, returns_after,
}
use btc_laptop_agents.Backtest.Validation.{
  Candidate, Splits, Fold, train_window, test_window, objective_of, evaluate, improved, search_best,
  fold_of, folds_from, run_validation,
}
use btc_laptop_agents.Backtest.Ledger.{IsLedger, rounds-IsLedger}
use btc_laptop_agents.Backtest.BarLedger.{IsBarLedger, run_backtest_bar_mode-IsBarLedger}

run_open : Unit {0}
unfolding calculate_fees apply_slippage simulate_trade_one_bar normalize_candle_order before sma
    brackets checked leveraged calculate_position_size min max entry_fee opened sized_entry enter
    flip bracket_exit closing booked manage measured traded signal_of round rounds bar_round
    bar_rounds run_backtest_bar_mode run_backtest_on_segment calculate_sharpe_ratio returns_after
    train_window test_window objective_of evaluate improved search_best fold_of folds_from
    run_validation
run_open = tt

abbrev params : Params Fixed
params = record {
  fees_bps = units 10;
  slip_bps = pos 0;
  risk_pct = units 1;
  fast_sma = 1;
  slow_sma = 2;
  stop_bps = units 1000;
  tp_r = units 2;
  max_leverage = units 1;
  is_conservative = true;
}

-- Up, then down: a long position is entered at 110 and reversed at 105.
abbrev swing : List (Candle Fixed)
swing = calm ∷ bar 100 111 100 110 50 ∷ bar 110 110 104 105 50 ∷ []

abbrev result_of : Result (Run Fixed) → Run Fixed
result_of (ok r) = r
result_of (err e) = started (pos 0)

swung : Run Fixed
unfolding run_open
swung = result_of (rounds params (started start_equity) [] swing)

one_trade : length swung.trades ≡ 1
unfolding run_open swung
one_trade = refl

rounds-IsLedger_example : IsLedger params start_equity swung
unfolding run_open swung
rounds-IsLedger_example = rounds-IsLedger params start_equity swing swung refl

abbrev repeated : ℕ → List (Candle Fixed)
repeated zero = []
repeated (suc n) = calm ∷ repeated n

abbrev bar_result_of : Result (BarRun Fixed) → BarRun Fixed
bar_result_of (ok r) = r
bar_result_of (err e) = bar_start (pos 0)

barred : BarRun Fixed
unfolding run_open
barred = bar_result_of (run_backtest_bar_mode start_equity (units 10) (pos 0) (repeated 32))

run_backtest_bar_mode-IsBarLedger_example :
    IsBarLedger start_equity barred × (length barred.trades ≡ 2)
unfolding run_open barred
run_backtest_bar_mode-IsBarLedger_example =
    run_backtest_bar_mode-IsBarLedger start_equity (units 10) (pos 0) (repeated 32) barred refl

abbrev statistics : Statistics Fixed
statistics = record { mean = λ xs. pos 0; stdev = λ xs. pos 0; sqrt = λ x. x }

abbrev candidate : Candidate Fixed
candidate = record { fast_sma = 1; slow_sma = 2; stop_bps = units 1000; tp_r = units 2 }

abbrev splits : Splits
splits = record { count = 1; train = 3; test = 3 }

abbrev folds_result_of : Result (List (Fold Fixed)) → List (Fold Fixed)
folds_result_of (ok xs) = xs
folds_result_of (err e) = []

abbrev lowest : Fixed
lowest = negsuc 1_000_000_000_000

validated : List (Fold Fixed)
unfolding run_open
validated =
    folds_result_of (
      run_validation statistics params start_equity lowest splits (swing ++ swing) (candidate ∷ []))
