-- ===== src/Session/Execution.antt =====
-- session/execution.py: `execution_task`, in three parts, since other tasks run while it waits for an
-- order and for the order's latency: the test of its loop, the payload, and what follows the latency. In
-- a dry run the last follows the second at once.
use btc_laptop_agents.Prelude.{
  ◌+◌ as add, String, Bool, true, false, not, ◌&&◌, ◌||◌, Option, none, some, List, [], ◌∷◌, ok,
  err, length, str_eq, keep_if, if◌then◌else◌,
}
use btc_laptop_agents.Float.{Float}
use btc_laptop_agents.Host.{Host}
use btc_laptop_agents.Paper.Types.{FillEvent}
use btc_laptop_agents.Paper.Orders.{on_candle}
use btc_laptop_agents.Resilience.Breaker.{allow_request}
use btc_laptop_agents.Session.Runner.{
  AsyncRunner, Payload, circuit_breaker_open, request_shutdown, spend_error,
}

abbrev pub is_inflight : String → List String → Bool
is_inflight k [] = false
is_inflight k (x ∷ xs) = str_eq k x || is_inflight k xs

-- `client_order_id in runner._inflight_order_ids`, where the order has one that is not empty.
abbrev pub is_duplicate : Option String → List String → Bool
is_duplicate none ids = false
is_duplicate (some k) ids = not (str_eq k "") && is_inflight k ids

abbrev pub lock_id : Option String → List String → List String
lock_id none ids = ids
lock_id (some k) ids = if str_eq k "" then ids else k ∷ ids

abbrev pub unlock_id : Option String → List String → List String
unlock_id none ids = ids
unlock_id (some k) ids = keep_if (λ x. not (str_eq k x)) ids

module _ {F W A : Type 0} ⦃fl : Float F⦄ ⦃host : Host F W (FillEvent F)⦄ where
  -- The loop's test, where no order is waited for: a shutdown ends the task.
  unfoldable pub listen : AsyncRunner F W A → AsyncRunner F W A
  listen r = elim r.executing [
    | some p ↦ r
    | none ↦ if r.shutdown_event then r else record r { listening = true }
  ]

  -- With the payload that was taken from the queue. A duplicate releases the id too.
  unfoldable pub start_payload : Payload F → AsyncRunner F W A → AsyncRunner F W A
  start_payload p r =
      if r.kill_switch_triggered
      then r
      else if not p.order.go
      then r
      else if is_duplicate p.order.client_order_id r.inflight_order_ids
      then record r { inflight_order_ids = unlock_id p.order.client_order_id r.inflight_order_ids }
      else record r {
        executing = some p;
        inflight_order_ids = lock_id p.order.client_order_id r.inflight_order_ids;
      }

  -- The queue's answer, or the timeout where it is empty.
  abbrev pub take_payload : List (Payload F) → AsyncRunner F W A → AsyncRunner F W A
  take_payload [] r = r
  take_payload (p ∷ ps) r = start_payload p (record r { execution_queue = ps })

  -- A shutdown that came in the meantime does not keep the payload from being taken.
  unfoldable pub begin_execution : AsyncRunner F W A → AsyncRunner F W A
  begin_execution r =
      if r.listening then take_payload r.execution_queue (record r { listening = false }) else r

  -- The breaker is asked after each order.
  unfoldable pub ask_breaker : AsyncRunner F W A → AsyncRunner F W A
  ask_breaker r =
      let (allowed, c) = allow_request (host.time r.broker.world) r.circuit_breaker in
      let r' = record r { circuit_breaker = c } in
      if allowed then r' else request_shutdown circuit_breaker_open r'

  -- Then the state is saved, which may raise.
  unfoldable pub check_breaker : Bool → AsyncRunner F W A → AsyncRunner F W A
  check_breaker save_raises r = if save_raises then spend_error (ask_breaker r) else ask_breaker r

  unfoldable pub executed : Bool → Payload F → AsyncRunner F W A → AsyncRunner F W A
  executed save_raises p r =
      let (res, b) = on_candle r.broker p.candle (some p.order) r.latest_tick in
      let r' = record r { broker = b } in
      elim res [
        | err e ↦ spend_error r'
        | ok events ↦
            check_breaker save_raises (record r' {
              trades = add (add r'.trades (length events.fills)) (length events.exits);
            })
      ]

  -- After the wait: the order goes to the broker with the tick of that moment, and its id is released.
  unfoldable pub finish_execution : Bool → AsyncRunner F W A → AsyncRunner F W A
  finish_execution save_raises r = elim r.executing [
    | none ↦ r
    | some p ↦
        let r' = executed save_raises p r in
        record r' {
          executing = none;
          inflight_order_ids = unlock_id p.order.client_order_id r'.inflight_order_ids;
        }
  ]
