-- ===== src/Session/Tasks/Watchers.antt =====
-- The rounds of the tasks that leave the orders of a session alone.
use btc_laptop_agents.Prelude.{Bool, Result-both, if-both, if◌then◌else◌, arith}
use btc_laptop_agents.Session.Tasks.Stops.{
  IsAside, same-IsAside, chain-IsAside, request_shutdown-IsAside, spend_error-IsAside,
}
use btc_laptop_agents.Float.{Float, ◌+◌}
use btc_laptop_agents.Host.{Host}
use btc_laptop_agents.Paper.Types.{FillEvent}
use btc_laptop_agents.Paper.Orders.{get_unrealized_pnl}
use btc_laptop_agents.Session.Runner.{AsyncRunner, memory_limit, request_shutdown, spend_error}
use btc_laptop_agents.Session.Monitors.{
  check_tick, trip_kill_switch, track_drawdown, is_breached, valued, hard_stop, watchdog_round,
  heartbeat_round, kill_switch_round, timer_round, sentinel_round, checkpoint_round, hardware_round,
  last_price,
}

module _ {F W A : Type 0} ⦃fl : Float F⦄ ⦃host : Host F W (FillEvent F)⦄ where
  trip_kill_switch-IsAside :
      (price : F) (r : AsyncRunner F W A) → IsAside r (trip_kill_switch price r)
  unfolding trip_kill_switch request_shutdown
  trip_kill_switch-IsAside price r = ground arith

  track_drawdown-IsAside :
      (equity : F) (r : AsyncRunner F W A) → IsAside r (track_drawdown equity r)
  unfolding track_drawdown
  track_drawdown-IsAside equity r = ground arith

  hard_stop-IsAside : (price : F) (r : AsyncRunner F W A) → IsAside r (hard_stop price r)
  unfolding hard_stop request_shutdown
  hard_stop-IsAside price r = ground arith

  pub watchdog_round-IsAside : (r : AsyncRunner F W A) → IsAside r (watchdog_round r)
  unfolding watchdog_round check_tick request_shutdown
  watchdog_round-IsAside r = ground arith

  pub kill_switch_round-IsAside :
      (kill_file : Bool) (r : AsyncRunner F W A) → IsAside r (kill_switch_round kill_file r)
  unfolding kill_switch_round request_shutdown
  kill_switch_round-IsAside kill_file r = ground arith

  pub timer_round-IsAside :
      (end_time : F) (r : AsyncRunner F W A) → IsAside r (timer_round end_time r)
  unfolding timer_round request_shutdown
  timer_round-IsAside end_time r = ground arith

  pub sentinel_round-IsAside : (r : AsyncRunner F W A) → IsAside r (sentinel_round r)
  unfolding sentinel_round hard_stop request_shutdown
  sentinel_round-IsAside r = ground arith

  pub checkpoint_round-IsAside : (r : AsyncRunner F W A) → IsAside r (checkpoint_round r)
  unfolding checkpoint_round
  checkpoint_round-IsAside r = ground arith

  pub hardware_round-IsAside :
      (frozen memory_high : Bool) (r : AsyncRunner F W A)
      → IsAside r (hardware_round frozen memory_high r)
  unfolding hardware_round request_shutdown
  hardware_round-IsAside frozen memory_high r = ground arith

  valued-IsAside :
      (memory_high rest_raises : Bool) (max_loss price unrealized : F) (r : AsyncRunner F W A)
      → IsAside r (valued memory_high rest_raises max_loss price unrealized r)
  unfolding valued
  valued-IsAside memory_high rest_raises max_loss price unrealized r =
      let equity = r.broker.current_equity + unrealized in
      let r1 = track_drawdown equity r in
      let r2 = if is_breached max_loss equity r1 then trip_kill_switch price r1 else r1 in
      let r3 = if memory_high then request_shutdown memory_limit r2 else r2 in
      let h2 : IsAside r1 r2 =
        if-both (IsAside r1) (is_breached max_loss equity r1) (trip_kill_switch price r1) r1
          (trip_kill_switch-IsAside price r1) (same-IsAside r1) in
      let h3 : IsAside r2 r3 =
        if-both (IsAside r2) memory_high (request_shutdown memory_limit r2) r2
          (request_shutdown-IsAside memory_limit r2 (λ e. ground arith)) (same-IsAside r2) in
      let h4 : IsAside r3 (if rest_raises then spend_error r3 else r3) =
        if-both (IsAside r3) rest_raises (spend_error r3) r3 (spend_error-IsAside r3)
          (same-IsAside r3) in
      chain-IsAside r r1 _ (track_drawdown-IsAside equity r)
        (chain-IsAside r1 r2 _ h2 (chain-IsAside r2 r3 _ h3 h4))

  pub heartbeat_round-IsAside :
      (memory_high rest_raises : Bool) (max_loss : F) (r : AsyncRunner F W A)
      → IsAside r (heartbeat_round memory_high rest_raises max_loss r)
  unfolding heartbeat_round
  heartbeat_round-IsAside memory_high rest_raises max_loss r =
      if-both (IsAside r) r.shutdown_event r _ (same-IsAside r) (
        Result-both (IsAside r) (get_unrealized_pnl r.broker (last_price r)) (λ e. spend_error r)
          (λ u. valued memory_high rest_raises max_loss (last_price r) u r)
          (λ e. spend_error-IsAside r)
          (λ u. valued-IsAside memory_high rest_raises max_loss (last_price r) u r))
