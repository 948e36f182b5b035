-- ===== src/Session/Sample.antt =====
-- A session for the tests: its candles, its agents, which always ask for the same order, and its clock.
use btc_laptop_agents.Prelude.{
  ℕ, String, true, false, none, some, Option, List, [], ◌∷◌, Result, ok, str_eq, if◌then◌else◌,
}
use btc_laptop_agents.Prelude.Int.{pos}
use btc_laptop_agents.Float.Fixed.{Fixed, fixed_float}
use btc_laptop_agents.Trading.Market.{Candle}
use btc_laptop_agents.Paper.Types.{long}
use btc_laptop_agents.Paper.Sample.{World, broker, calm, holding, units}
use btc_laptop_agents.Agents.Types.{Decision, Resolved, resolved}
use btc_laptop_agents.Agents.Types as Agent
use btc_laptop_agents.Resilience.Breaker.{closed}
use btc_laptop_agents.Session.Runner.{AsyncRunner, SessionConfig, completed}

-- The reading of the two timestamps of the samples.
abbrev pub parse_ts : String → ℕ
parse_ts ts =
    if str_eq ts "1700000000" then 99_940 else if str_eq ts "1700000060" then 100_000 else 0

-- The candle after `calm`.
abbrev pub later : Candle Fixed
later = record calm { ts = "1700000060" }

abbrev pub wanted : Resolved Fixed
wanted = record {
  side = long;
  entry_type = Agent.limit;
  entry = units 100;
  sl = units 90;
  tp = units 120;
  qty = units 1;
  rr = units 2;
  setup = "sweep";
}

abbrev pub buyers :
    List (Candle Fixed) → Candle Fixed → Unit {0} → Result (Decision Fixed) × Unit {0}
buyers history c a = (ok (resolved wanted), a)

abbrev pub config : SessionConfig Fixed
config = record {
  has_strategy = true;
  warmup_bars = 1;
  interval_sec = 60;
  stale_data_timeout_sec = units 120;
  max_stale_restarts = 3;
  max_daily_loss_usd = units 50;
}

-- A session that has seen one candle.
abbrev pub session : AsyncRunner Fixed World (Unit {0})
session = record {
  candles = calm ∷ [];
  latest_tick = none;
  last_tick_ts = none;
  last_candle_ts = some "1700000000";
  last_data_time = units 100_000;
  last_backfill_time = units 0;
  last_rest_poll_time = units 0;
  stale_restart_attempts = 0;
  consecutive_ws_errors = 0;
  errors = 0;
  iterations = 0;
  trades = 0;
  execution_queue = [];
  listening = false;
  executing = none;
  inflight_order_ids = [];
  kill_switch_triggered = false;
  kill_env = false;
  shutdown_event = false;
  stopped_reason = completed;
  funding_hour = none;
  starting_equity = units 10_000;
  max_equity = units 10_000;
  max_drawdown = pos 0;
  circuit_breaker = record {
    failure_threshold = 5;
    recovery_timeout = units 120;
    time_window = units 60;
    failures = [];
    state = closed;
    opened_at = pos 0;
  };
  broker = broker;
  agents = tt;
}

abbrev pub fetch : ℕ → Option (List (Candle Fixed))
fetch n = none

-- The session holds a position that has lost 60 of its 10,000: its limit is 50.
abbrev pub losing : AsyncRunner Fixed World (Unit {0})
losing = record session { broker = record holding { current_equity = units 9_940 } }
