-- ===== src/Session/Tasks/Executions.antt =====
-- The steps of the execution task.
use btc_laptop_agents.Paper.Broker.{Broker}
use btc_laptop_agents.Prelude.{
  ℕ, String, Bool, true, false, ◌≡◌, ◌≢◌, ◌∙◌, eq_iff, refl, Option, none, some, List, [], ◌∷◌,
  Option-split, if-split, if-both, Result-both, arith,
}
use btc_laptop_agents.Float.{Float}
use btc_laptop_agents.Host.{Host}
use btc_laptop_agents.Paper.Types.{FillEvent}
use btc_laptop_agents.Paper.Orders.{on_candle}
use btc_laptop_agents.Resilience.Breaker.{ErrorCircuitBreaker, closed, allow_request}
use btc_laptop_agents.Session.Runner.{
  circuit_breaker_open, AsyncRunner, Payload, request_shutdown, spend_error,
}
use btc_laptop_agents.Session.Execution.{
  lock_id, unlock_id, listen, start_payload, take_payload, begin_execution, ask_breaker,
  check_breaker, executed, finish_execution,
}
use btc_laptop_agents.Session.Tasks.Stops.{IsAside, chain-IsAside, spend_error-IsAside}
use btc_laptop_agents.Session.Tasks.Proceeding.{
  Proceeds, aside-Proceeds, same-Proceeds, chain-Proceeds,
}

unlock-lock : (id : Option String) → unlock_id id (lock_id id []) ≡ []
unlock-lock none = refl
unlock-lock (some k) = ground (arith, eq_iff k k)

module _ {F : Type 0} ⦃fl : Float F⦄ where
  -- A breaker that refuses is not closed.
  refused-tripped :
      (now : F) (c : ErrorCircuitBreaker F) → (allow_request now c).0 ≡ false → c.state ≢ closed
  unfolding allow_request
  refused-tripped now c h e = ground arith

module _ {F W A : Type 0} ⦃fl : Float F⦄ ⦃host : Host F W (FillEvent F)⦄
    (parse_ts : String → ℕ) where
  pub listen-Proceeds : (r : AsyncRunner F W A) → Proceeds parse_ts r (listen r)
  unfolding listen
  listen-Proceeds r = ground arith

  start_payload-Proceeds :
      (p : Payload F) (ps : List (Payload F)) (r : AsyncRunner F W A)
      → r.execution_queue ≡ p ∷ ps
      → r.listening ≡ true
      → Proceeds parse_ts r (start_payload p (record r { listening = false; execution_queue = ps }))
  unfolding start_payload
  start_payload-Proceeds p ps r q l = ground arith

  take_payload-Proceeds :
      (ps : List (Payload F)) (r : AsyncRunner F W A)
      → r.execution_queue ≡ ps
      → r.listening ≡ true
      → Proceeds parse_ts r (take_payload ps (record r { listening = false }))
  take_payload-Proceeds [] r q l = ground arith
  take_payload-Proceeds (p ∷ ps) r q l = start_payload-Proceeds p ps r q l

  pub begin_execution-Proceeds : (r : AsyncRunner F W A) → Proceeds parse_ts r (begin_execution r)
  unfolding begin_execution
  begin_execution-Proceeds r =
      if-split (Proceeds parse_ts r) r.listening _ r
        (take_payload-Proceeds r.execution_queue r refl) (λ e. same-Proceeds parse_ts r)

  broker-IsAside : (b : Broker F W) (r : AsyncRunner F W A) → IsAside r (record r { broker = b })
  broker-IsAside b r = ground arith

  booked-IsAside :
      (b : Broker F W) (n : ℕ) (r : AsyncRunner F W A)
      → IsAside r (record r { broker = b; trades = n })
  booked-IsAside b n r = ground arith

  executed-waits :
      (save_raises : Bool) (p : Payload F) (r : AsyncRunner F W A)
      → ((executed save_raises p r).executing ≡ r.executing)
        × ((executed save_raises p r).inflight_order_ids ≡ r.inflight_order_ids)
        × ((executed save_raises p r).listening ≡ r.listening)
  unfolding executed ask_breaker check_breaker spend_error request_shutdown
  executed-waits save_raises p r = ground arith

  -- The order is done with, and its id is released.
  released-Proceeds :
      (p : Payload F) (r : AsyncRunner F W A)
      → r.executing ≡ some p
      → Proceeds parse_ts r (record r {
        executing = none;
        inflight_order_ids = unlock_id p.order.client_order_id r.inflight_order_ids;
      })
  released-Proceeds p r e = record {
    heeds = ground arith;
    vetted = λ v. record { queued = v.queued; waits = tt; fits = v.fits };
    locked = λ l. record {
      alone = λ h. refl;
      ids =
          let ids : r.inflight_order_ids ≡ lock_id p.order.client_order_id [] = l.ids ∙ rw e refl in
          rw ids (unlock-lock p.order.client_order_id);
    };
    idle = ground arith;
    quiet = ground arith;
    breaker = λ c. refl;
    untripped = λ c h. h;
    seen = omega arith;
  }

  allow_request-Proceeds :
      (now : F) (r : AsyncRunner F W A)
      → Proceeds parse_ts r (record r { circuit_breaker = (allow_request now r.circuit_breaker).1 })
  unfolding allow_request
  allow_request-Proceeds now r = ground arith

  refused-Proceeds :
      (c : ErrorCircuitBreaker F) (r : AsyncRunner F W A)
      → r.circuit_breaker.state ≢ closed
      → Proceeds parse_ts r
          (request_shutdown circuit_breaker_open (record r { circuit_breaker = c }))
  unfolding request_shutdown
  refused-Proceeds c r h = ground arith

  ask_breaker-Proceeds : (r : AsyncRunner F W A) → Proceeds parse_ts r (ask_breaker r)
  unfolding ask_breaker
  ask_breaker-Proceeds r =
      let now = host.time r.broker.world in
      if-split (Proceeds parse_ts r) (allow_request now r.circuit_breaker).0 _ _
        (λ e. allow_request-Proceeds now r)
        (λ e. refused-Proceeds _ r (refused-tripped now r.circuit_breaker e))

  check_breaker-Proceeds :
      (save_raises : Bool) (r : AsyncRunner F W A)
      → Proceeds parse_ts r (check_breaker save_raises r)
  unfolding check_breaker
  check_breaker-Proceeds save_raises r =
      let spent = aside-Proceeds parse_ts _ _ (spend_error-IsAside (ask_breaker r)) in
      if-both (Proceeds parse_ts r) save_raises _ _
        (chain-Proceeds parse_ts r _ _ (ask_breaker-Proceeds r) spent) (ask_breaker-Proceeds r)

  -- The broker's answer, before the breaker is asked.
  executed-Proceeds :
      (save_raises : Bool) (p : Payload F) (r : AsyncRunner F W A)
      → Proceeds parse_ts r (executed save_raises p r)
  unfolding executed
  executed-Proceeds save_raises p r =
      let (res, b) = on_candle r.broker p.candle (some p.order) r.latest_tick in
      Result-both (Proceeds parse_ts r) res _ _
        (λ e. aside-Proceeds parse_ts r _ (
          chain-IsAside r (record r { broker = b }) _ (broker-IsAside b r) (spend_error-IsAside _)))
        (λ events.
          chain-Proceeds parse_ts r _ _ (aside-Proceeds parse_ts r _ (booked-IsAside b _ r))
            (check_breaker-Proceeds save_raises _))

  pub finish_execution-Proceeds :
      (save_raises : Bool) (r : AsyncRunner F W A)
      → Proceeds parse_ts r (finish_execution save_raises r)
  unfolding finish_execution
  finish_execution-Proceeds save_raises r =
      Option-split (Proceeds parse_ts r) r.executing r _ (λ e. same-Proceeds parse_ts r)
        (λ p e.
          chain-Proceeds parse_ts r _ _ (executed-Proceeds save_raises p r) (
            released-Proceeds p (executed save_raises p r)
              ((executed-waits save_raises p r).0 ∙ e)))
