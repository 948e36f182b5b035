-- ===== src/Backtest/Tests.antt =====
-- Runs of the backtest broker on concrete inputs, and the theorems at concrete inputs.
use btc_laptop_agents.Prelude.{◌≡◌, refl, false, some, none, []}
use btc_laptop_agents.Prelude.Int.{pos}
use btc_laptop_agents.Float.{min, max}
use btc_laptop_agents.Float.Fixed.{Fixed, fixed_float}
use btc_laptop_agents.Paper.PositionEngine.{calculate_full_exit_pnl, exit_amounts}
use btc_laptop_agents.Paper.Exit.{exit_decision as paper_exit_decision}
use btc_laptop_agents.Paper.Sample.{buy, calm, crash, units, still_host, World, start_equity}
use btc_laptop_agents.Backtest.Simulator.{fixed_bps, should_fill, simulate_slippage, slipped}
use btc_laptop_agents.Backtest.Broker.{
  BacktestBroker, on_candle, close_all, manage_open, enter, try_fill, fill, exit_position,
  exit_decision, settle, client_order_id,
}
use btc_laptop_agents.Backtest.Books.{IsBalanced, total, on_candle-IsBalanced}

run_open : Unit {0}
unfolding on_candle close_all manage_open enter try_fill fill exit_position exit_decision settle
    client_order_id should_fill simulate_slippage slipped calculate_full_exit_pnl exit_amounts min
    max total
run_open = tt

abbrev flat : BacktestBroker Fixed World
flat = record {
  is_inverse = false;
  pos = none;
  starting_equity = start_equity;
  current_equity = start_equity;
  taker_fee = pos 0;
  simulator = record { slippage_model = fixed_bps; slippage_bps = pos 0 };
  order_history = [];
  world = record { clock = units 1000; cache = [] };
}

abbrev bought : BacktestBroker Fixed World
bought = (on_candle flat calm (some buy)).1

flat-IsBalanced : IsBalanced flat
unfolding run_open
flat-IsBalanced = record { balanced = refl }

bought-IsBalanced : IsBalanced bought
bought-IsBalanced = on_candle-IsBalanced flat calm (some buy) flat-IsBalanced

-- The crash takes the position out at its stop, at a loss.
stopped : (on_candle bought crash none).1.pos ≡ none
unfolding run_open
stopped = refl

on_candle-IsBalanced_example : IsBalanced (on_candle bought crash none).1
on_candle-IsBalanced_example = on_candle-IsBalanced bought crash none bought-IsBalanced
