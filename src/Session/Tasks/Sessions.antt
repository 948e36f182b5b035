-- ===== src/Session/Tasks/Sessions.antt =====
-- What holds of a session however its tasks interleave.
use btc_laptop_agents.Prelude.{
  ℕ, String, true, false, Bool-cases, ◌⊎◌, ◌∙◌, ◌≡◌, ◌≤◌, Option, none, some, List, [], Result,
  length, refl, arith,
}
use btc_laptop_agents.Float.{Float}
use btc_laptop_agents.Host.{Host}
use btc_laptop_agents.Trading.Market.{Candle}
use btc_laptop_agents.Paper.Types.{FillEvent}
use btc_laptop_agents.Agents.Types.{Decision}
use btc_laptop_agents.Resilience.Breaker.{closed}
use btc_laptop_agents.Session.Runner.{AsyncRunner, SessionConfig, signal, circuit_breaker_open}
use btc_laptop_agents.Session.Execution.{is_duplicate}
use btc_laptop_agents.Session.MarketData.{candle, seen_ts, take_candle, take_item}
use btc_laptop_agents.Session.Tasks.{
  Step, elapse, market_data, stream_error, listens, begin, finish, watchdog, heartbeat, kill_switch,
  timer, equity_sentinel, checkpoint, hardware_watchdog, funding, stale, signalled, failure, Reach,
  here, next,
}
use btc_laptop_agents.Session.Tasks.Stops.{handle_task_failed-IsAside, request_shutdown-IsAside}
use btc_laptop_agents.Session.Tasks.Watchers.{
  watchdog_round-IsAside, heartbeat_round-IsAside, kill_switch_round-IsAside, timer_round-IsAside,
  sentinel_round-IsAside, checkpoint_round-IsAside, hardware_round-IsAside,
}
use btc_laptop_agents.Session.Tasks.Proceeding.{
  IsVetted, IsLocked, is_halted, Proceeds, aside-Proceeds, same-Proceeds, chain-Proceeds,
}
use btc_laptop_agents.Session.Tasks.Orders.{put_world-IsAside}
use btc_laptop_agents.Session.Tasks.Executions.{
  listen-Proceeds, begin_execution-Proceeds, finish_execution-Proceeds,
}
use btc_laptop_agents.Session.Tasks.Data.{
  stream_failed-IsAside, charge_funding-IsAside, watch_data-Proceeds, take_item-Proceeds,
}

module _ {F W A : Type 0} ⦃fl : Float F⦄ where
  -- A session that has handled no order yet.
  pub record IsFresh (r : AsyncRunner F W A) : Type 0 where
    pub unqueued : r.execution_queue ≡ []
    pub idle : r.executing ≡ none
    pub free : r.inflight_order_ids ≡ []
    pub unkilled : r.kill_switch_triggered ≡ false

  pub record IsOrderly (r : AsyncRunner F W A) : Type 0 where
    pub vetted : IsVetted r
    pub locked : IsLocked r
    pub told : (r.kill_switch_triggered ≡ false) ⊎ (r.shutdown_event ≡ true)

  fresh-IsVetted : (r : AsyncRunner F W A) → IsFresh r → IsVetted r
  fresh-IsVetted r f = record {
    queued = rw f.unqueued tt;
    waits = rw f.idle tt;
    fits = rw f.unqueued (omega arith);
  }

  fresh-IsLocked : (r : AsyncRunner F W A) → IsFresh r → IsLocked r
  fresh-IsLocked r f = record { alone = λ l. f.idle; ids = f.free ∙ rw f.idle refl }

free : (id : Option String) → is_duplicate id [] ≡ false
free none = refl
free (some k) = ground arith

module _ {F W A : Type 0} ⦃fl : Float F⦄ ⦃host : Host F W (FillEvent F)⦄
    (agents : List (Candle F) → Candle F → A → Result (Decision F) × A) (cfg : SessionConfig F)
    (parse_ts : String → ℕ) (interval : String) where
  Step-Proceeds :
      (r s : AsyncRunner F W A) → Step agents cfg parse_ts interval r s → Proceeds parse_ts r s
  Step-Proceeds r _ (elapse w) = aside-Proceeds parse_ts r _ (put_world-IsAside parse_ts w r)
  Step-Proceeds r _ (market_data fetch item) =
      take_item-Proceeds agents cfg parse_ts interval fetch item r
  Step-Proceeds r _ (stream_error e) =
      aside-Proceeds parse_ts r _ (stream_failed-IsAside parse_ts e r)
  Step-Proceeds r _ listens = listen-Proceeds parse_ts r
  Step-Proceeds r _ begin = begin_execution-Proceeds parse_ts r
  Step-Proceeds r _ (finish save_raises) = finish_execution-Proceeds parse_ts save_raises r
  Step-Proceeds r _ watchdog = aside-Proceeds parse_ts r _ (watchdog_round-IsAside r)
  Step-Proceeds r _ (heartbeat memory_high rest_raises) =
      aside-Proceeds parse_ts r _
        (heartbeat_round-IsAside memory_high rest_raises cfg.max_daily_loss_usd r)
  Step-Proceeds r _ (kill_switch kill_file) =
      aside-Proceeds parse_ts r _ (kill_switch_round-IsAside kill_file r)
  Step-Proceeds r _ (timer end_time) = aside-Proceeds parse_ts r _ (timer_round-IsAside end_time r)
  Step-Proceeds r _ equity_sentinel = aside-Proceeds parse_ts r _ (sentinel_round-IsAside r)
  Step-Proceeds r _ checkpoint = aside-Proceeds parse_ts r _ (checkpoint_round-IsAside r)
  Step-Proceeds r _ (hardware_watchdog frozen memory_high) =
      aside-Proceeds parse_ts r _ (hardware_round-IsAside frozen memory_high r)
  Step-Proceeds r _ (funding now rate) =
      aside-Proceeds parse_ts r _ (charge_funding-IsAside parse_ts now rate r)
  Step-Proceeds r _ (stale i) = watch_data-Proceeds parse_ts cfg i r
  Step-Proceeds r _ signalled =
      aside-Proceeds parse_ts r _ (request_shutdown-IsAside signal r (λ e. ground arith))
  Step-Proceeds r _ failure = aside-Proceeds parse_ts r _ (handle_task_failed-IsAside r)

  Reach-Proceeds :
      (r s : AsyncRunner F W A) → Reach agents cfg parse_ts interval r s → Proceeds parse_ts r s
  Reach-Proceeds r _ here = same-Proceeds parse_ts r
  Reach-Proceeds r t (next s _ rs st) =
      chain-Proceeds parse_ts r s t (Reach-Proceeds r s rs) (Step-Proceeds s t st)

  -- However the tasks of a session interleave, from a start at which nothing is queued or on its way:
  -- each order that waits in the queue, and the one whose latency the execution task waits for, has
  -- passed the tests of the strategy; the queue holds at most 100; the only id in flight is that of the
  -- order that waits for its latency; and where the kill switch is set, the session is shut down.
  pub session-IsOrderly :
      (r s : AsyncRunner F W A) → IsFresh r → Reach agents cfg parse_ts interval r s → IsOrderly s
  session-IsOrderly r s f rs =
      let h = Reach-Proceeds r s rs in
      record {
        vetted = h.vetted (fresh-IsVetted r f);
        locked = h.locked (fresh-IsLocked r f);
        told = ground (arith, h.heeds.told, f.unkilled, Bool-cases s.kill_switch_triggered);
      }

  -- The guard against duplicates never drops an order: in a session from a start at which nothing is
  -- queued or on its way, no id counts as one in flight when the execution task waits for its next order.
  pub no_order_is_duplicate :
      (r s : AsyncRunner F W A) (id : Option String)
      → IsFresh r
      → Reach agents cfg parse_ts interval r s
      → s.listening ≡ true
      → is_duplicate id s.inflight_order_ids ≡ false
  no_order_is_duplicate r s id f rs l =
      let locked = (session-IsOrderly r s f rs).locked in
      let empty : s.inflight_order_ids ≡ [] = locked.ids ∙ rw (locked.alone l) refl in
      rw empty (free id)

  -- A shutdown is final: whatever the tasks do after it, the session stays shut down for the first
  -- reason that was given, and the queue of orders never grows.
  pub shutdown_is_final :
      (r s : AsyncRunner F W A)
      → r.shutdown_event ≡ true
      → Reach agents cfg parse_ts interval r s
      → (s.shutdown_event ≡ true)
        × (s.stopped_reason ≡ r.stopped_reason)
        × (length s.execution_queue ≤ length r.execution_queue)
  shutdown_is_final r s d rs =
      let h = Reach-Proceeds r s rs in (h.heeds.stays d, h.heeds.reason d, h.idle (ground arith))

  -- Once the kill switch is set, or a shutdown while the execution task does not wait for an order, and
  -- where no order waits for its latency: whatever the tasks do, no order of the queue is taken to the
  -- broker any more, and none is added to the queue.
  pub halted_session_starts_no_order :
      (r s : AsyncRunner F W A)
      → is_halted r ≡ true
      → r.executing ≡ none
      → Reach agents cfg parse_ts interval r s
      → (s.executing ≡ none) × (length s.execution_queue ≤ length r.execution_queue)
  halted_session_starts_no_order r s d e rs =
      let h = Reach-Proceeds r s rs in ((h.quiet d e).1, h.idle (ground arith))

  -- The circuit breaker of a session whose breaker is closed never changes, since no task reports a
  -- failure to it, and the session never stops because the breaker is open.
  pub session_breaker_never_trips :
      (r s : AsyncRunner F W A)
      → r.circuit_breaker.state ≡ closed
      → Reach agents cfg parse_ts interval r s
      → (s.circuit_breaker ≡ r.circuit_breaker)
        × (s.stopped_reason ≡ circuit_breaker_open → r.stopped_reason ≡ circuit_breaker_open)
  session_breaker_never_trips r s c rs =
      let h = Reach-Proceeds r s rs in (h.breaker c, h.untripped c)

  stale_candle_ignored :
      (fetch : ℕ → Option (List (Candle F))) (c : Candle F) (r : AsyncRunner F W A)
      → parse_ts c.ts ≤ seen_ts parse_ts r.last_candle_ts
      → take_item agents cfg parse_ts interval fetch (candle c) r ≡ r
  unfolding take_item take_candle
  stale_candle_ignored fetch c r h = ground arith

  -- Once a candle was taken, no later update of it is: however long the session goes on, a candle with
  -- the same timestamp changes nothing.
  pub candle_updates_ignored :
      (fetch : ℕ → Option (List (Candle F))) (c update : Candle F) (r s : AsyncRunner F W A)
      → r.last_candle_ts ≡ some c.ts
      → update.ts ≡ c.ts
      → Reach agents cfg parse_ts interval r s
      → take_item agents cfg parse_ts interval fetch (candle update) s ≡ s
  candle_updates_ignored fetch c update r s e u rs =
      let h = Reach-Proceeds r s rs in stale_candle_ignored fetch update s (ground (arith, h.seen))
