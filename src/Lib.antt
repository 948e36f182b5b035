-- ===== src/Lib.antt =====
-- btc-laptop-agents: a trading system for Bitcoin perpetual futures, of which this library models the
-- part that decides about orders, positions and money.
--
-- The program's parts. Candles and ticks reach a broker (src/laptop_agents/paper/broker.py); the
-- broker validates each order (paper/broker_risk.py), fills or queues it, exits positions at stops,
-- targets, trailing stops and after too many bars, computes profit and fees (paper/position_engine.py)
-- and saves its state (paper/broker_state.py). The orders come from a pipeline of agents
-- (agents/supervisor.py): from the candles to a market context, a divergence and a setup, then through
-- the funding gates, the execution sentinel and the risk gate to the broker and the journal. A backtest
-- runs on a simpler broker (backtest/backtest_broker.py) or on a loop of its own (backtest/engine.py), and
-- live trading on a broker that talks to the exchange (execution/bitunix_broker.py).
-- A session (session/) is a set of tasks that share one runner: market data closes candles, each closed
-- candle is put to the agents, their order is vetted and queued, and the execution task brings it to the
-- broker after a latency, while other tasks watch the position, the equity, the age of the data, the kill
-- switch and the clock, and may ask for a shutdown. A simpler session polls for candles in one loop.
-- Calls of services go through a circuit breaker, a rate limiter and retries, and a task charges
-- funding three times a day. Paths in this library are from src/laptop_agents.
--
-- Files.
--   Prelude      shared names, Boolean tests, lists, exceptions as values, integers
--   Float        Python's float as a record of operations, the laws of doubles that the theorems use,
--                and a fixed-point instance on which the tests run
--   Host         the clock, the random generator, fresh ids, and cachetools' TTLCache, as a record of
--                operations on a state of the outside world
--   Trading      trading/helpers.py
--   Paper        paper/: Types (broker_types.py and the dictionaries), PositionEngine, Broker (the
--                state), Risk, Store (broker_state.py), Pricing, Events and Fill (_try_fill), Exit
--                (_exit, _check_exit, _check_tick_exit, on_tick, close_all), Orders (the other entry
--                points). The theorems stand in Risk.Limits, Exit.Decisions, Soundness, Idempotence,
--                Filling, Termination, Lifetime, Persistence and Placed; Sample and Tests hold inputs.
--   Agents       agents/: Types (state.py), Indicators (indicators.py), Context (market_intake.py and
--                cvd_divergence.py), Derivatives (derivatives_flows.py), Setups (setup_signal.py),
--                Sentinel (execution_risk.py), Resolve (supervisor.py), Gate (risk_gate.py and the
--                stages of Supervisor.step around it), Journal (journal_coach.py), Supervisor
--                (Supervisor.step). The theorems stand in Pipeline, Sweeps, Brackets, Entries, Steps,
--                Plans and Records
--   Backtest     backtest/: Simulator (fill_simulator.py) and Broker (backtest_broker.py); the theorems
--                stand in Books and in Agreement, which compares the two brokers. Segment, BarMode and
--                Validation are engine.py; their theorems stand in Ledger, BarLedger and Folds
--   Live         execution/bitunix_broker.py: Types (the state, the events, the exchange), Submit and
--                Sync (the two halves of on_candle), Broker (the entry points); the theorems stand in
--                Vetting, Ghosts, Books and Pending
--   Resilience   Breaker (resilience/error_circuit_breaker.py), Limiter (core/rate_limiter.py) and Retry
--                (resilience/retry.py); the theorems stand in Breaking, Limits and Attempts
--   Session      session/: Runner (the state of async_session.py, lifecycle.py), Strategy (strategy.py),
--                Execution (execution.py), MarketData (market_data.py), Monitors (watchdog.py,
--                heartbeat.py, kill_switch.py, timer.py, equity_sentinel.py, checkpoint.py), Funding
--                (funding.py), StaleData (stale_data.py), Ending (shutdown_handler.py), Startup
--                (state_sync.py), Timed (timed_session.py, trading/strategy.py). Tasks is the relation
--                whose steps are rounds of the tasks; its theorems stand in Tasks/, those on single
--                rounds in Closing and Windows, those on the timed session in Timed/
--   Data         Pages (data/providers/bitunix_futures.py), whose theorems stand in Sorted
--
-- How the model follows the code. A method takes the broker and returns its result, or the exception,
-- beside the new broker, since what was written before an exception stays written. Division by zero
-- raises; division by a literal that is not zero does not. Dictionaries with fixed keys are records,
-- keys read by `get` are optional. `time.time()` is read from the state of the world, which every draw
-- replaces, and is the same for two readings with no draw between them. `sum` adds from the left.
-- Log lines and the event file are not modelled. A session is any sequence of rounds of its tasks, each
-- taken as a whole up to the await at which the other tasks may change what it reads next.
--
-- Fuel. The loop of `_process_working_orders` is bounded by the number of working orders plus
-- the ten orders that the rate limit admits in a minute, plus one. The pages of `klines_paged` are bounded
-- by the candles asked for, of which each page brings one at least. `attempts` of Resilience.Retry
-- counts down the attempts that the policy allows, as the code's `range` does.
--
-- Not modelled. The requests of data/ and its streams, the dashboard, the reports, the command line, the
-- locks and the scripts are input and output. The creation and the seeding of a session, the loading and
-- merging of configurations, the grid text and the leaderboard of the walk-forward validation, and the
-- SQL of storage/ are left out.
pub mod Prelude
pub mod Float
pub mod Host
pub mod Trading
pub mod Paper
pub mod Resilience
pub mod Backtest
pub mod Agents
pub mod Session
pub mod Live
pub mod Data
