-- ===== src/Session/Monitors.antt =====
-- The tasks of session/ that watch a session: watchdog.py, heartbeat.py, kill_switch.py, timer.py,
-- equity_sentinel.py and checkpoint.py, one round of each. Logs, metrics and the files that only
-- monitors read are left out; what a round reads of the system is an argument.
use btc_laptop_agents.Prelude.{
  ◌+◌ as add, Bool, true, not, ◌&&◌, ◌||◌, none, some, is_some, Result, ok, err, length, last?, leb,
  if◌then◌else◌,
}
use btc_laptop_agents.Float.{Float, nought, lit, ◌+◌, ◌-◌, ◌*◌, ◌/◌, lt, ge, gt, truthy, max}
use btc_laptop_agents.Host.{Host}
use btc_laptop_agents.Trading.Market.{Tick}
use btc_laptop_agents.Paper.Types.{FillEvent}
use btc_laptop_agents.Paper.Store.{save_state}
use btc_laptop_agents.Paper.Exit.{on_tick, close_all}
use btc_laptop_agents.Paper.Orders.{shutdown, get_unrealized_pnl}
use btc_laptop_agents.Session.Runner.{
  AsyncRunner, error_budget, kill_switch, duration_limit, max_loss_usd, memory_limit,
  hard_stop_breached, watchdog_frozen, max_errors_per_session, request_shutdown, spend_error,
}

module _ {F W A : Type 0} ⦃fl : Float F⦄ ⦃host : Host F W (FillEvent F)⦄ where
  -- `watchdog_tick_task`: an exception is logged, and not counted.
  unfoldable pub check_tick : Tick F → AsyncRunner F W A → AsyncRunner F W A
  check_tick tick r =
      let (res, b) = on_tick r.broker tick in
      let r' = record r { broker = b } in
      elim res [
        | ok exits ↦ record r' { trades = add r'.trades (length exits) }
        | err e ↦
            if leb max_errors_per_session r'.errors then request_shutdown error_budget r' else r'
      ]

  unfoldable pub watchdog_round : AsyncRunner F W A → AsyncRunner F W A
  watchdog_round r =
      if r.shutdown_event || not (is_some r.broker.pos)
      then r
      else elim r.latest_tick [ none ↦ r | some tick ↦ check_tick tick r ]

  -- The price that the heartbeat values the position at.
  abbrev pub last_price : AsyncRunner F W A → F
  last_price r = elim r.latest_tick [
    | some tick ↦ tick.last
    | none ↦ elim (last? r.candles) [ none ↦ nought | some c ↦ c.close ]
  ]

  -- `broker.close_all`, whose exception is caught.
  abbrev pub close_quietly : F → AsyncRunner F W A → AsyncRunner F W A
  close_quietly px r = record r { broker = (close_all r.broker px).1 }

  -- The risk kill switch: no more orders, the open ones cancelled, the position closed.
  unfoldable pub trip_kill_switch : F → AsyncRunner F W A → AsyncRunner F W A
  trip_kill_switch price r =
      let r1 = request_shutdown max_loss_usd (record r { kill_switch_triggered = true }) in
      let r2 = record r1 { broker = shutdown r1.broker } in
      if truthy price && gt price nought then close_quietly price r2 else r2

  -- The greatest equity, and the deepest drawdown from it.
  unfoldable pub track_drawdown : F → AsyncRunner F W A → AsyncRunner F W A
  track_drawdown equity r =
      let top = max r.max_equity equity in
      let dd = if gt top nought then (top - equity) / top else nought in
      record r { max_equity = top; max_drawdown = max r.max_drawdown dd }

  abbrev pub is_breached : F → F → AsyncRunner F W A → Bool
  is_breached max_loss equity r =
      gt r.starting_equity nought
      && ge (r.starting_equity - equity) max_loss
      && not r.kill_switch_triggered

  -- `heartbeat_task`: `memory_high` is the test of the memory, and `rest_raises` says that reading the
  -- process or writing the heartbeat file raises.
  unfoldable pub valued : Bool → Bool → F → F → F → AsyncRunner F W A → AsyncRunner F W A
  valued memory_high rest_raises max_loss price unrealized r =
      let equity = r.broker.current_equity + unrealized in
      let r1 = track_drawdown equity r in
      let r2 = if is_breached max_loss equity r1 then trip_kill_switch price r1 else r1 in
      let r3 = if memory_high then request_shutdown memory_limit r2 else r2 in
      if rest_raises then spend_error r3 else r3

  unfoldable pub heartbeat_round : Bool → Bool → F → AsyncRunner F W A → AsyncRunner F W A
  heartbeat_round memory_high rest_raises max_loss r =
      if r.shutdown_event then r else elim (get_unrealized_pnl r.broker (last_price r)) [
        | err e ↦ spend_error r
        | ok unrealized ↦ valued memory_high rest_raises max_loss (last_price r) unrealized r
      ]

  -- `kill_switch_task`: `kill_file` says that kill.txt is there.
  unfoldable pub kill_switch_round : Bool → AsyncRunner F W A → AsyncRunner F W A
  kill_switch_round kill_file r =
      if r.shutdown_event
      then r
      else if kill_file || r.kill_env
      then record (request_shutdown kill_switch r) { kill_switch_triggered = true }
      else r

  -- `timer_task`, which looks at the clock alone.
  unfoldable pub timer_round : F → AsyncRunner F W A → AsyncRunner F W A
  timer_round end_time r =
      if lt (host.time r.broker.world) end_time then r else request_shutdown duration_limit r

  -- `equity_sentinel_task`, from the total equity on. An exception in `close_all` is caught, and the
  -- task goes on.
  unfoldable pub hard_stop : F → AsyncRunner F W A → AsyncRunner F W A
  hard_stop price r =
      let (res, b) = close_all r.broker price in
      let r' = record r { broker = b; kill_env = true } in
      elim res [ err e ↦ r' | ok exits ↦ request_shutdown hard_stop_breached r' ]

  abbrev pub sentinel_price : AsyncRunner F W A → F
  sentinel_price r = elim r.latest_tick [ none ↦ nought | some tick ↦ tick.last ]

  abbrev pub sentinel_pnl : AsyncRunner F W A → Result F
  sentinel_pnl r =
      if gt (sentinel_price r) nought
      then get_unrealized_pnl r.broker (sentinel_price r)
      else ok nought

  unfoldable pub sentinel_round : AsyncRunner F W A → AsyncRunner F W A
  sentinel_round r = if r.shutdown_event then r else elim (sentinel_pnl r) [
    | err e ↦ r
    | ok unrealized ↦
        if lt (r.broker.current_equity + unrealized) (r.starting_equity * lit 8 10)
        then hard_stop (sentinel_price r) r
        else r
  ]

  -- `checkpoint_task`, which saves the broker too, after a wait that a shutdown does not end.
  unfoldable pub checkpoint_round : AsyncRunner F W A → AsyncRunner F W A
  checkpoint_round r = record r { broker = save_state r.broker }

  -- `hardware_watchdog_thread`, up to the end of the process: whether the loop is frozen, and whether
  -- the memory is used up.
  unfoldable pub hardware_round : Bool → Bool → AsyncRunner F W A → AsyncRunner F W A
  hardware_round frozen memory_high r =
      if r.shutdown_event
      then r
      else if frozen
      then request_shutdown watchdog_frozen r
      else if memory_high
      then request_shutdown memory_limit r
      else r
