-- ===== src/Session/Tasks.antt =====
-- session/async_session.py: the tasks of a session as a step relation. A step is one round of a task,
-- up to its next await, and a session is any interleaving of them. Signals of the system are taken as
-- they are outside Windows.
pub mod Stops
pub mod Watchers
pub mod Proceeding
pub mod Orders
pub mod Executions
pub mod Data
pub mod Sessions
use btc_laptop_agents.Prelude.{ℕ, String, Bool, Option, List, Result, if◌then◌else◌}
use btc_laptop_agents.Float.{Float}
use btc_laptop_agents.Host.{Host}
use btc_laptop_agents.Trading.Market.{Candle}
use btc_laptop_agents.Paper.Types.{FillEvent}
use btc_laptop_agents.Agents.Types.{Decision}
use btc_laptop_agents.Session.Runner.{
  AsyncRunner, SessionConfig, signal, stale_data, request_shutdown, handle_task_failed,
}
use btc_laptop_agents.Session.Strategy.{put_world}
use btc_laptop_agents.Session.Execution.{listen, begin_execution, finish_execution}
use btc_laptop_agents.Session.Monitors.{
  watchdog_round, heartbeat_round, kill_switch_round, timer_round, sentinel_round, checkpoint_round,
  hardware_round,
}
use btc_laptop_agents.Session.MarketData.{Item, StreamError, take_item, stream_failed}
use btc_laptop_agents.Session.Funding.{Reading, funding_round}
use btc_laptop_agents.Session.StaleData.{Runner, Inputs, stale_round}

module _ {F W A : Type 0} ⦃fl : Float F⦄ ⦃host : Host F W (FillEvent F)⦄ where
  -- A round of `funding_task`. It waits for the rate, and then looks for no shutdown.
  unfoldable pub charge_funding : Reading → Option F → AsyncRunner F W A → AsyncRunner F W A
  charge_funding now rate r =
      let (b, hour) = funding_round now rate r.funding_hour r.broker in
      record r { broker = b; funding_hour = hour }

  -- What `stale_data_task` sees of the session.
  abbrev pub watched : SessionConfig F → AsyncRunner F W A → Runner F
  watched cfg r = record {
    last_data_time = r.last_data_time;
    last_rest_poll_time = r.last_rest_poll_time;
    candles = r.candles;
    last_candle_ts = r.last_candle_ts;
    stale_restart_attempts = r.stale_restart_attempts;
    max_stale_restarts = cfg.max_stale_restarts;
    stale_data_timeout_sec = cfg.stale_data_timeout_sec;
    consecutive_ws_errors = r.consecutive_ws_errors;
    errors = r.errors;
    shutdown = r.shutdown_event;
  }

  -- And what it leaves there.
  unfoldable pub put_watched : Runner F → AsyncRunner F W A → AsyncRunner F W A
  put_watched v r =
      let r' = record r {
        last_data_time = v.last_data_time;
        last_rest_poll_time = v.last_rest_poll_time;
        candles = v.candles;
        last_candle_ts = v.last_candle_ts;
        stale_restart_attempts = v.stale_restart_attempts;
        consecutive_ws_errors = v.consecutive_ws_errors;
        errors = v.errors;
      } in
      if v.shutdown then request_shutdown stale_data r' else r'

  unfoldable pub watch_data :
      (String → ℕ) → SessionConfig F → Inputs F → AsyncRunner F W A → AsyncRunner F W A
  watch_data parse_ts cfg i r =
      if r.shutdown_event then r else put_watched (stale_round parse_ts (watched cfg r) i) r

module _ {F W A : Type 0} ⦃fl : Float F⦄ ⦃host : Host F W (FillEvent F)⦄
    (agents : List (Candle F) → Candle F → A → Result (Decision F) × A) (cfg : SessionConfig F)
    (parse_ts : String → ℕ) (interval : String) where
  -- `elapse` is the world outside: the clock goes on.
  pub data Step (r : AsyncRunner F W A) : AsyncRunner F W A → Type 0 where
    elapse : (w : W) → Step r (put_world w r)
    market_data :
        (fetch : ℕ → Option (List (Candle F))) (item : Item F)
        → Step r (take_item agents cfg parse_ts interval fetch item r)
    stream_error : (e : StreamError) → Step r (stream_failed e r)
    listens : Step r (listen r)
    begin : Step r (begin_execution r)
    finish : (save_raises : Bool) → Step r (finish_execution save_raises r)
    watchdog : Step r (watchdog_round r)
    heartbeat :
        (memory_high rest_raises : Bool)
        → Step r (heartbeat_round memory_high rest_raises cfg.max_daily_loss_usd r)
    kill_switch : (kill_file : Bool) → Step r (kill_switch_round kill_file r)
    timer : (end_time : F) → Step r (timer_round end_time r)
    equity_sentinel : Step r (sentinel_round r)
    checkpoint : Step r (checkpoint_round r)
    hardware_watchdog : (frozen memory_high : Bool) → Step r (hardware_round frozen memory_high r)
    funding : (now : Reading) (rate : Option F) → Step r (charge_funding now rate r)
    stale : (i : Inputs F) → Step r (watch_data parse_ts cfg i r)
    signalled : Step r (request_shutdown signal r)
    failure : Step r (handle_task_failed r)

  pub data Reach (r : AsyncRunner F W A) : AsyncRunner F W A → Type 0 where
    here : Reach r r
    next : (s t : AsyncRunner F W A) → Reach r s → Step s t → Reach r t
