-- ===== src/Session/Runner.antt =====
-- The state that the tasks of a session share: `AsyncRunner` of session/async_session.py, with the
-- shutdown of session/lifecycle.py. The broker is the paper broker; `A` is the state of the agents. The
-- clock, the generator and fresh ids are those of the broker's world.
use btc_laptop_agents.Prelude.{
  ℕ, ◌+◌ as add, String, Bool, true, false, Option, List, leb, if◌then◌else◌,
}
use btc_laptop_agents.Trading.Market.{Candle, Tick}
use btc_laptop_agents.Paper.Types.{Order}
use btc_laptop_agents.Paper.Broker.{Broker}
use btc_laptop_agents.Resilience.Breaker.{ErrorCircuitBreaker}

-- The reasons that the tasks give for a shutdown; `completed` is what the runner starts with.
pub data StopReason : Type 0 where
  completed error_budget circuit_breaker_open kill_switch duration_limit max_loss_usd : StopReason
  memory_limit stale_data market_data_failed market_data_errors fatal_error : StopReason
  hard_stop_breached task_failed watchdog_frozen signal : StopReason

abbrev pub is_completed : StopReason → Bool
is_completed completed = true
is_completed _ = false

-- What waits in `execution_queue`: the order, its candle, the latency in milliseconds and the time.
pub record Payload (F : Type 0) : Type 0 where
  pub order : Order F
  pub candle : Candle F
  pub latency_ms : ℕ
  pub queued_at : F

-- `listening` says that `execution_task` has found the session running and waits for a payload, and
-- `executing` is the payload whose latency `execution_task` waits for; `kill_env` says that the
-- variable LA_KILL_SWITCH is TRUE; `funding_hour` is `last_funding_hour` of `funding_task`.
pub record AsyncRunner (F W A : Type 0) : Type 0 where
  pub candles : List (Candle F)
  pub latest_tick : Option (Tick F)
  pub last_tick_ts : Option String
  pub last_candle_ts : Option String
  pub last_data_time : F
  pub last_backfill_time : F
  pub last_rest_poll_time : F
  pub stale_restart_attempts : ℕ
  pub consecutive_ws_errors : ℕ
  pub errors : ℕ
  pub iterations : ℕ
  pub trades : ℕ
  pub execution_queue : List (Payload F)
  pub listening : Bool
  pub executing : Option (Payload F)
  pub inflight_order_ids : List String
  pub kill_switch_triggered : Bool
  pub kill_env : Bool
  pub shutdown_event : Bool
  pub stopped_reason : StopReason
  pub funding_hour : Option ℕ
  pub starting_equity : F
  pub max_equity : F
  pub max_drawdown : F
  pub circuit_breaker : ErrorCircuitBreaker F
  pub broker : Broker F W
  pub agents : A

-- What a session is configured with.
pub record SessionConfig (F : Type 0) : Type 0 where
  pub has_strategy : Bool
  pub warmup_bars : ℕ
  pub interval_sec : ℕ
  pub stale_data_timeout_sec : F
  pub max_stale_restarts : ℕ
  pub max_daily_loss_usd : F

-- `MAX_ERRORS_PER_SESSION`, and the size of `execution_queue`.
abbrev pub max_errors_per_session : ℕ
max_errors_per_session = 20

abbrev pub queue_size : ℕ
queue_size = 100

module _ {F W A : Type 0} where
  -- The first reason is kept.
  unfoldable pub request_shutdown : StopReason → AsyncRunner F W A → AsyncRunner F W A
  request_shutdown reason r = if r.shutdown_event then r else record r {
    shutdown_event = true;
    stopped_reason = if is_completed r.stopped_reason then reason else r.stopped_reason;
  }

  -- The callback of a task that ended with an exception.
  unfoldable pub handle_task_failed : AsyncRunner F W A → AsyncRunner F W A
  handle_task_failed r = request_shutdown task_failed (record r { errors = add r.errors 1 })

  -- An error that counts against the budget.
  unfoldable pub spend_error : AsyncRunner F W A → AsyncRunner F W A
  spend_error r =
      let r' = record r { errors = add r.errors 1 } in
      if leb max_errors_per_session r'.errors then request_shutdown error_budget r' else r'
