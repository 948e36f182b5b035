-- ===== src/Session/Tasks/Stops.antt =====
-- A shutdown and the kill switch stay, with the reason of the shutdown: what the steps of a session
-- have in common, and the rounds of the tasks that leave its orders alone.
use btc_laptop_agents.Prelude.{true, ◌≡◌, ◌≢◌, ◌⊎◌, inl, refl, ◌∙◌, arith}
use btc_laptop_agents.Session.Runner.{
  AsyncRunner, StopReason, circuit_breaker_open, request_shutdown, handle_task_failed, spend_error,
}

module _ {F W A : Type 0} where
  -- What was stopped before is stopped after, for the same reason, and so is what was killed.
  pub record Heeds (r s : AsyncRunner F W A) : Type 0 where
    pub stays : r.shutdown_event ≡ true → s.shutdown_event ≡ true
    pub reason : r.shutdown_event ≡ true → s.stopped_reason ≡ r.stopped_reason
    pub killed : r.kill_switch_triggered ≡ true → s.kill_switch_triggered ≡ true
    pub told :
        s.kill_switch_triggered ≡ true
        → (r.kill_switch_triggered ≡ true) ⊎ (s.shutdown_event ≡ true)

  -- And the queue, the order that waits, the breaker and the last candle are as they were.
  pub record IsAside (r s : AsyncRunner F W A) : Type 0 where
    pub heeds : Heeds r s
    pub queue : s.execution_queue ≡ r.execution_queue
    pub waiting : s.executing ≡ r.executing
    pub listening : s.listening ≡ r.listening
    pub inflight : s.inflight_order_ids ≡ r.inflight_order_ids
    pub breaker : s.circuit_breaker ≡ r.circuit_breaker
    pub seen : s.last_candle_ts ≡ r.last_candle_ts
    pub untripped :
        s.stopped_reason ≡ circuit_breaker_open → r.stopped_reason ≡ circuit_breaker_open

  pub same-Heeds : (r : AsyncRunner F W A) → Heeds r r
  same-Heeds r = record { stays = λ h. h; reason = λ h. refl; killed = λ h. h; told = inl }

  pub chain-Heeds : (r s t : AsyncRunner F W A) → Heeds r s → Heeds s t → Heeds r t
  chain-Heeds r s t h k = record {
    stays = λ d. k.stays (h.stays d);
    reason = λ d. k.reason (h.stays d) ∙ h.reason d;
    killed = λ d. k.killed (h.killed d);
    told = λ d. ground (arith, h.told, k.told d, k.stays);
  }

  pub same-IsAside : (r : AsyncRunner F W A) → IsAside r r
  same-IsAside r = record {
    heeds = same-Heeds r;
    queue = refl;
    waiting = refl;
    listening = refl;
    inflight = refl;
    breaker = refl;
    seen = refl;
    untripped = λ h. h;
  }

  pub chain-IsAside : (r s t : AsyncRunner F W A) → IsAside r s → IsAside s t → IsAside r t
  chain-IsAside r s t h k = record {
    heeds = chain-Heeds r s t h.heeds k.heeds;
    queue = k.queue ∙ h.queue;
    waiting = k.waiting ∙ h.waiting;
    listening = k.listening ∙ h.listening;
    inflight = k.inflight ∙ h.inflight;
    breaker = k.breaker ∙ h.breaker;
    seen = k.seen ∙ h.seen;
    untripped = λ e. h.untripped (k.untripped e);
  }

  pub request_shutdown-IsAside :
      (reason : StopReason) (r : AsyncRunner F W A)
      → reason ≢ circuit_breaker_open
      → IsAside r (request_shutdown reason r)
  unfolding request_shutdown
  request_shutdown-IsAside reason r h = ground arith

  pub spend_error-IsAside : (r : AsyncRunner F W A) → IsAside r (spend_error r)
  unfolding spend_error request_shutdown
  spend_error-IsAside r = ground arith

  pub handle_task_failed-IsAside : (r : AsyncRunner F W A) → IsAside r (handle_task_failed r)
  unfolding handle_task_failed request_shutdown
  handle_task_failed-IsAside r = ground arith
