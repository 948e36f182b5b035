-- ===== src/Session/Tests.antt =====
-- The rounds of the stale data task on concrete inputs.
use btc_laptop_agents.Prelude.{ℕ, String, ◌≡◌, refl, inl, true, false, some, none, [], ◌∷◌, arith}
use btc_laptop_agents.Float.Fixed.{Fixed, fixed_float}
use btc_laptop_agents.Paper.Sample.{calm, still_host, units}
use btc_laptop_agents.Float.{min}
use btc_laptop_agents.Trading.Sequence.{before, normalize_candle_order}
use btc_laptop_agents.Session.StaleData.{
  Runner, Inputs, take_latest, rest_poll, restart, recover, stale_round, stale_data_task, IsBounded,
  stale_data_task-IsBounded,
}

stale_open : Unit {0}
unfolding before normalize_candle_order take_latest rest_poll restart recover stale_round
    stale_data_task min
stale_open = tt

-- The watcher of the data after its last attempt, and a round a hundred seconds after the last data,
-- whose poll brings a new candle.
abbrev worn_out : Runner Fixed
worn_out = record {
  last_data_time = units 1000;
  last_rest_poll_time = units 1000;
  candles = [];
  last_candle_ts = none;
  stale_restart_attempts = 3;
  max_stale_restarts = 3;
  stale_data_timeout_sec = units 60;
  consecutive_ws_errors = 0;
  errors = 0;
  shutdown = false;
}

abbrev late_poll : Inputs Fixed
late_poll = record {
  checked_at = units 1100;
  polled_at = units 1100;
  refreshed_at = units 1101;
  restarted_at = units 1101;
  rest_candles = some (calm ∷ []);
  restart_raises = false;
}

abbrev parse_ts : String → ℕ
parse_ts ts = 1

-- The poll succeeds, the data is a moment old, and the session is shut down for stale data.
fresh_but_shut :
    ((stale_round parse_ts worn_out late_poll).last_data_time ≡ units 1101)
    × ((stale_round parse_ts worn_out late_poll).shutdown ≡ true)
unfolding stale_open
fresh_but_shut = (refl, refl)

stale_data_task-IsBounded_example :
    IsBounded (stale_data_task parse_ts worn_out (late_poll ∷ late_poll ∷ []))
stale_data_task-IsBounded_example =
    stale_data_task-IsBounded parse_ts worn_out (late_poll ∷ late_poll ∷ [])
      (record { attempts = omega arith; last_resort = inl refl })
