-- ===== src/Session/Tasks/Proceeding.antt =====
-- What every step of a session keeps: the vetting of the orders, the size of their queue, and what a
-- shutdown, a killed session and a breaker that never tripped mean for it.
use btc_laptop_agents.Prelude.{
  ℕ, String, Bool, true, ◌||◌, ◌&&◌, not, ◌≡◌, ◌≤◌, ◌∙◌, Option, none, some, List, [], All, length,
  arith,
}
use btc_laptop_agents.Float.{Float}
use btc_laptop_agents.Resilience.Breaker.{closed}
use btc_laptop_agents.Session.Runner.{AsyncRunner, Payload, circuit_breaker_open, queue_size}
use btc_laptop_agents.Session.Strategy.{passes}
use btc_laptop_agents.Session.Execution.{lock_id}
use btc_laptop_agents.Session.MarketData.{seen_ts}
use btc_laptop_agents.Session.Tasks.Stops.{Heeds, IsAside, same-IsAside, chain-Heeds}

module _ {F : Type 0} ⦃fl : Float F⦄ where
  -- The order of the payload has passed the tests of the strategy.
  abbrev pub IsSound : Payload F → Type 0
  IsSound p = passes p.order ≡ true

  abbrev pub IsSoundWait : Option (Payload F) → Type 0
  IsSoundWait none = Unit
  IsSoundWait (some p) = IsSound p

  abbrev pub waiting_ids : Option (Payload F) → List String
  waiting_ids none = []
  waiting_ids (some p) = lock_id p.order.client_order_id []

module _ {F W A : Type 0} ⦃fl : Float F⦄ where
  -- No order that waits in the queue is taken any more.
  abbrev pub is_halted : AsyncRunner F W A → Bool
  is_halted r = r.kill_switch_triggered || r.shutdown_event && not r.listening

  -- The ids in flight are the id of the order that waits for its latency; the task that waits for an
  -- order has none.
  pub record IsLocked (r : AsyncRunner F W A) : Type 0 where
    pub alone : r.listening ≡ true → r.executing ≡ none
    pub ids : r.inflight_order_ids ≡ waiting_ids r.executing

  pub record IsVetted (r : AsyncRunner F W A) : Type 0 where
    pub queued : All IsSound r.execution_queue
    pub waits : IsSoundWait r.executing
    pub fits : length r.execution_queue ≤ queue_size

module _ {F W A : Type 0} ⦃fl : Float F⦄ (parse_ts : String → ℕ) where
  pub record Proceeds (r s : AsyncRunner F W A) : Type 0 where
    pub heeds : Heeds r s
    pub vetted : IsVetted r → IsVetted s
    pub locked : IsLocked r → IsLocked s
    pub idle :
        (r.shutdown_event || r.kill_switch_triggered) ≡ true
        → length s.execution_queue ≤ length r.execution_queue
    pub quiet :
        is_halted r ≡ true → r.executing ≡ none → (is_halted s ≡ true) × (s.executing ≡ none)
    pub breaker : r.circuit_breaker.state ≡ closed → s.circuit_breaker ≡ r.circuit_breaker
    pub untripped :
        r.circuit_breaker.state ≡ closed
        → s.stopped_reason ≡ circuit_breaker_open
        → r.stopped_reason ≡ circuit_breaker_open
    pub seen : seen_ts parse_ts r.last_candle_ts ≤ seen_ts parse_ts s.last_candle_ts

  stopped-Heeds :
      (r s : AsyncRunner F W A)
      → Heeds r s
      → (r.shutdown_event || r.kill_switch_triggered) ≡ true
      → (s.shutdown_event || s.kill_switch_triggered) ≡ true
  stopped-Heeds r s h d = ground (arith, h.stays, h.killed)

  halted-IsAside : (r s : AsyncRunner F W A) → IsAside r s → is_halted r ≡ true → is_halted s ≡ true
  halted-IsAside r s h d = ground (arith, h.heeds.stays, h.heeds.killed, h.listening)

  pub aside-Proceeds : (r s : AsyncRunner F W A) → IsAside r s → Proceeds r s
  aside-Proceeds r s h = record {
    heeds = h.heeds;
    vetted = λ v. record {
      queued = rw h.queue v.queued;
      waits = rw h.waiting v.waits;
      fits = rw h.queue v.fits;
    };
    locked = λ l. record {
      alone = λ e. h.waiting ∙ l.alone (rw⁻¹ h.listening e);
      ids = rw h.waiting (h.inflight ∙ l.ids);
    };
    idle = λ d. ground (arith, h.queue);
    quiet = λ d e. (halted-IsAside r s h d, h.waiting ∙ e);
    breaker = λ c. h.breaker;
    untripped = λ c e. h.untripped e;
    seen = ground (arith, h.seen);
  }

  pub same-Proceeds : (r : AsyncRunner F W A) → Proceeds r r
  same-Proceeds r = aside-Proceeds r r (same-IsAside r)

  pub chain-Proceeds : (r s t : AsyncRunner F W A) → Proceeds r s → Proceeds s t → Proceeds r t
  chain-Proceeds r s t h k = record {
    heeds = chain-Heeds r s t h.heeds k.heeds;
    vetted = λ v. k.vetted (h.vetted v);
    locked = λ l. k.locked (h.locked l);
    idle = λ d. omega (arith, h.idle d, k.idle (stopped-Heeds r s h.heeds d));
    quiet = λ d e. let (d', e') = h.quiet d e in k.quiet d' e';
    breaker = λ c.
        let e = h.breaker c in
        let c' : s.circuit_breaker.state ≡ closed = rw e c in k.breaker c' ∙ e;
    untripped = λ c e.
        let c' : s.circuit_breaker.state ≡ closed = rw (h.breaker c) c in
        h.untripped c (k.untripped c' e);
    seen = omega (arith, h.seen, k.seen);
  }
