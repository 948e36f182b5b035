-- ===== src/Session/Closing.antt =====
-- What the end of a session leaves: the risk limit of the heartbeat, and `perform_shutdown`.
use btc_laptop_agents.Prelude.{
  Bool, true, false, ◌≡◌, refl, ◌∙◌, none, some, List, [], Result, ok, err, if-both, if◌then◌else◌,
  arith,
}
use btc_laptop_agents.Float.{Float, nought, ◌+◌, ◌-◌, gt, ge, truthy}
use btc_laptop_agents.Host.{Host}
use btc_laptop_agents.Paper.Types.{ExitEvent, FillEvent}
use btc_laptop_agents.Paper.Broker.{Broker}
use btc_laptop_agents.Paper.Store.{snapshot, save_state}
use btc_laptop_agents.Paper.Exit.{exit_position, book_exit, close_all}
use btc_laptop_agents.Paper.Orders.{shutdown, get_unrealized_pnl}
use btc_laptop_agents.Session.Runner.{
  AsyncRunner, StopReason, completed, max_loss_usd, memory_limit, request_shutdown, spend_error,
}
use btc_laptop_agents.Session.Monitors.{
  last_price, trip_kill_switch, track_drawdown, valued, heartbeat_round, is_breached,
}
use btc_laptop_agents.Session.Ending.{
  drain_queue, closing_price, close_at, close_position, shut_broker, perform_shutdown,
}

module _ {F W : Type 0} ⦃fl : Float F⦄ ⦃host : Host F W (FillEvent F)⦄ where
  close_all-flat :
      (b : Broker F W) (px : F) (exits : List (ExitEvent F))
      → (close_all b px).0 ≡ ok exits
      → (close_all b px).1.pos ≡ none
  unfolding close_all
  close_all-flat b px exits h = ground arith

  close_at-flat :
      (b : Broker F W) (px : F) (exits : List (ExitEvent F))
      → truthy px ≡ true
      → gt px nought ≡ true
      → (close_at (some px) b).0 ≡ ok exits
      → (close_at (some px) b).1.pos ≡ none
  unfolding close_at
  close_at-flat b px exits t g h = ground (arith, close_all-flat b px exits)

  close_all-working :
      (b : Broker F W) (px : F) → (close_all b px).1.working_orders ≡ b.working_orders
  unfolding close_all exit_position book_exit save_state
  close_all-working b px = ground arith

  -- What a shutdown of the broker leaves in memory and in its file.
  shutdown-saved :
      (b : Broker F W)
      → ((shutdown b).working_orders ≡ [])
        × ((shutdown b).pos ≡ b.pos)
        × (b.persistent ≡ true → (shutdown b).saved ≡ some (snapshot (shutdown b)))
  unfolding shutdown save_state
  shutdown-saved b = ground arith

module _ {F W A : Type 0} ⦃fl : Float F⦄ ⦃host : Host F W (FillEvent F)⦄ where
  -- The session as `perform_shutdown` closes its position.
  abbrev pub drained : AsyncRunner F W A → AsyncRunner F W A
  drained r = drain_queue (record r { broker = shutdown r.broker })

  close_position-queue :
      (r : AsyncRunner F W A) → (close_position r).1.execution_queue ≡ r.execution_queue
  unfolding close_position
  close_position-queue r = ground arith

  close_position-flat :
      (r : AsyncRunner F W A) (px : F) (exits : List (ExitEvent F))
      → closing_price r ≡ some px
      → truthy px ≡ true
      → gt px nought ≡ true
      → (close_position r).0 ≡ ok exits
      → (close_position r).1.broker.pos ≡ none
  unfolding close_position
  close_position-flat r px exits c t g h =
      let flat = close_at-flat r.broker px exits t g in ground arith

  shut_broker-ok :
      (x : Result (List (ExitEvent F)) × AsyncRunner F W A) (exits : List (ExitEvent F))
      → x.0 ≡ ok exits
      → shut_broker x ≡ record x.1 { broker = shutdown x.1.broker }
  shut_broker-ok (ok _, r) exits h = refl
  shut_broker-ok (err e, r) exits h = ground arith

  -- The end of a session in which the exit of the position does not raise: nothing waits in the queue or
  -- among the working orders, and a broker that saves its state has saved just that. So an order that
  -- was still in the queue is kept nowhere.
  pub perform_shutdown_lem :
      (r : AsyncRunner F W A) (exits : List (ExitEvent F))
      → (close_position (drained r)).0 ≡ ok exits
      → (close_position (drained r)).1.broker.persistent ≡ true
      → ((perform_shutdown r).execution_queue ≡ [])
        × ((perform_shutdown r).broker.working_orders ≡ [])
        × ((perform_shutdown r).broker.saved ≡ some (snapshot (perform_shutdown r).broker))
  unfolding perform_shutdown drain_queue
  perform_shutdown_lem r exits h p =
      let (w, _, s) = shutdown-saved (close_position (drained r)).1.broker in
      rw (shut_broker-ok (close_position (drained r)) exits h)
        (close_position-queue (drained r), w, s p)

  -- Where the session has a last price, above 0, no position is left after it.
  pub perform_shutdown-flat :
      (r : AsyncRunner F W A) (px : F) (exits : List (ExitEvent F))
      → closing_price r ≡ some px
      → truthy px ≡ true
      → gt px nought ≡ true
      → (close_position (drained r)).0 ≡ ok exits
      → (perform_shutdown r).broker.pos ≡ none
  unfolding perform_shutdown drain_queue
  perform_shutdown-flat r px exits c t g h =
      let (_, e, _) = shutdown-saved (close_position (drained r)).1.broker in
      rw (shut_broker-ok (close_position (drained r)) exits h)
        (e ∙ close_position-flat (drained r) px exits c t g h)

  -- The session is stopped by its risk limit: no order goes to the broker, and none waits there.
  pub record IsCutOff (r : AsyncRunner F W A) : Type 0 where
    pub killed : r.kill_switch_triggered ≡ true
    pub stopped : r.shutdown_event ≡ true
    pub reason : r.stopped_reason ≡ max_loss_usd
    pub cancelled : r.broker.working_orders ≡ []

  -- The equity that the heartbeat counts.
  abbrev pub marked_equity : AsyncRunner F W A → F → F
  marked_equity r unrealized = r.broker.current_equity + unrealized

  trip_kill_switch_lem :
      (price : F) (r : AsyncRunner F W A)
      → r.shutdown_event ≡ false
      → r.stopped_reason ≡ completed
      → IsCutOff (trip_kill_switch price r)
  unfolding trip_kill_switch request_shutdown
  trip_kill_switch_lem price r d c =
      let kept = close_all-working (shutdown r.broker) price in
      let (gone, _, _) = shutdown-saved r.broker in ground arith

  request_shutdown-cut :
      (reason : StopReason) (r : AsyncRunner F W A)
      → IsCutOff r
      → IsCutOff (request_shutdown reason r)
  unfolding request_shutdown
  request_shutdown-cut reason r h = ground (arith, h.killed, h.stopped, h.reason, h.cancelled)

  spend_error-cut : (r : AsyncRunner F W A) → IsCutOff r → IsCutOff (spend_error r)
  unfolding spend_error request_shutdown
  spend_error-cut r h = ground (arith, h.killed, h.stopped, h.reason, h.cancelled)

  valued-cut :
      (memory_high rest_raises : Bool) (max_loss price unrealized : F) (r : AsyncRunner F W A)
      → r.shutdown_event ≡ false
      → r.stopped_reason ≡ completed
      → is_breached max_loss (marked_equity r unrealized) r ≡ true
      → IsCutOff (valued memory_high rest_raises max_loss price unrealized r)
  unfolding valued track_drawdown
  valued-cut memory_high rest_raises max_loss price unrealized r d c b =
      let r1 = track_drawdown (marked_equity r unrealized) r in
      let r2 = trip_kill_switch price r1 in
      let r3 = if memory_high then request_shutdown memory_limit r2 else r2 in
      let h2 : IsCutOff r2 = trip_kill_switch_lem price r1 d c in
      let h3 : IsCutOff r3 =
        if-both IsCutOff memory_high (request_shutdown memory_limit r2) r2
          (request_shutdown-cut memory_limit r2 h2) h2 in
      rw b (if-both IsCutOff rest_raises (spend_error r3) r3 (spend_error-cut r3 h3) h3)

  -- A session with no shutdown, no reason for one and the kill switch off, which started with an equity
  -- above 0 and whose position can be valued: where its equity with that position has fallen below the
  -- starting equity by the daily loss limit or more, the next heartbeat cuts it off, whether or not the
  -- rest of that round raises. The kill switch is set, the session is shut down with the reason
  -- "max_loss_usd", and the broker has no working order.
  pub heartbeat_round-cut :
      (memory_high rest_raises : Bool) (max_loss unrealized : F) (r : AsyncRunner F W A)
      → r.shutdown_event ≡ false
      → r.kill_switch_triggered ≡ false
      → r.stopped_reason ≡ completed
      → get_unrealized_pnl r.broker (last_price r) ≡ ok unrealized
      → gt r.starting_equity nought ≡ true
      → ge (r.starting_equity - marked_equity r unrealized) max_loss ≡ true
      → IsCutOff (heartbeat_round memory_high rest_raises max_loss r)
  unfolding heartbeat_round
  heartbeat_round-cut memory_high rest_raises max_loss unrealized r d k c u s l =
      let breached : is_breached max_loss (marked_equity r unrealized) r ≡ true =
        rw (s, l, k) refl in
      rw (d, u)
        (valued-cut memory_high rest_raises max_loss (last_price r) unrealized r d c breached)
