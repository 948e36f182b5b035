-- ===== src/Session/TimedTests.antt =====
-- The timed session on concrete inputs.
use btc_laptop_agents.Prelude.{
  ℕ, ◌≡◌, refl, true, false, none, Option, List, [], ◌∷◌, Result, ok, arith,
}
use btc_laptop_agents.Prelude.Int.{pos}
use btc_laptop_agents.Float.Fixed.{Fixed, fixed_float}
use btc_laptop_agents.Trading.Market.{Candle}
use btc_laptop_agents.Paper.Sample.{World, still_host, broker, holding, crash, units}
use btc_laptop_agents.Paper.Types.{entry_price}
use btc_laptop_agents.Paper.PositionEngine.{exit_amounts, calculate_full_exit_pnl}
use btc_laptop_agents.Trading.Costs.{apply_slippage}
use btc_laptop_agents.Paper.Store.{save_state}
use btc_laptop_agents.Paper.Exit.{close_all, exit_position, book_exit}
use btc_laptop_agents.Paper.Orders.{shutdown}
use btc_laptop_agents.Resilience.Breaker.{closed}
use btc_laptop_agents.Session.Timed.{
  Signal, Poll, TimedConfig, TimedSession, completed, timed_rounds, close_session, finish_session,
}
use btc_laptop_agents.Session.Timed.Rounds.{spaced_failures_never_trip}

abbrev no_signal : List (Candle Fixed) → Result (Option Signal)
no_signal candles = ok none

abbrev config : TimedConfig Fixed
config = record {
  end_time = units 1_000_000;
  risk_pct = units 1;
  stop_bps = units 30;
  tp_r = units 2;
  supervised = true;
}

-- A poll that raises, with the clock at `now`.
abbrev broken : ℕ → Poll Fixed
broken now = record {
  started_at = units now;
  limited_at = units now;
  asked_at = units now;
  failed_at = units now;
  tripped_at = units now;
  kill_file = false;
  stop_requested = false;
  candles = none;
  order_id = "ord_1";
}

abbrev started : TimedSession Fixed World
started = record {
  running = true;
  stopped_reason = completed;
  iterations = 0;
  trades = 0;
  errors = 0;
  current_equity = units 10_000;
  candles = [];
  circuit_breaker = record {
    failure_threshold = 5;
    recovery_timeout = units 120;
    time_window = units 60;
    failures = [];
    state = closed;
    opened_at = pos 0;
  };
  broker = broker;
}

-- Six polls that raise, a minute after one another.
abbrev minutes : List (Poll Fixed)
minutes = broken 60 ∷ broken 120 ∷ broken 180 ∷ broken 240 ∷ broken 300 ∷ broken 360 ∷ []

spaced_failures_never_trip_example :
    (timed_rounds no_signal config minutes started).circuit_breaker.state ≡ closed
spaced_failures_never_trip_example =
    spaced_failures_never_trip no_signal config minutes started refl refl (omega arith) (
      (refl, (refl, (refl, (refl, tt)))),
      ((refl, (refl, (refl, tt))), ((refl, (refl, tt)), ((refl, tt), (tt, (tt, tt))))),
    )

timed_open : Unit {0}
unfolding finish_session close_session close_all exit_position book_exit save_state shutdown
    calculate_full_exit_pnl exit_amounts apply_slippage entry_price
timed_open = tt

-- The session ends with a position that loses 15 and the fees.
abbrev ended : TimedSession Fixed World
ended = finish_session (record started { broker = holding; candles = crash ∷ [] })

-- The result of the session has the equity from before the exit, unlike the broker.
last_exit_uncounted :
    (ended.current_equity ≡ units 10_000) × (ended.broker.current_equity ≡ pos 99_849_290)
unfolding timed_open
last_exit_uncounted = (refl, refl)
