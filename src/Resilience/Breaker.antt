-- ===== src/Resilience/Breaker.antt =====
-- resilience/error_circuit_breaker.py. Readings of `time.time()` are arguments: a failure reads the
-- clock once, and once more if it trips the breaker.
use btc_laptop_agents.Prelude.{
  ℕ, Bool, true, false, List, [], ◌∷◌, ◌++◌, length, keep_if, leb, if◌then◌else◌,
}
use btc_laptop_agents.Float.{Float, ◌-◌, gt, le}

pub data Phase : Type 0 where
  closed tripped half_open : Phase

pub record ErrorCircuitBreaker (F : Type 0) : Type 0 where
  pub failure_threshold : ℕ
  pub recovery_timeout : F
  pub time_window : F
  pub failures : List F
  pub state : Phase
  pub opened_at : F

module _ {F : Type 0} ⦃fl : Float F⦄ where
  unfoldable pub prune_failures : F → ErrorCircuitBreaker F → ErrorCircuitBreaker F
  prune_failures now b = record b {
    failures = keep_if (λ t. le (now - t) b.time_window) b.failures;
  }

  unfoldable pub trip : F → ErrorCircuitBreaker F → ErrorCircuitBreaker F
  trip now b = elim b.state [ tripped ↦ b | _ ↦ record b { state = tripped; opened_at = now } ]

  unfoldable pub reset : ErrorCircuitBreaker F → ErrorCircuitBreaker F
  reset b = record b { state = closed; failures = [] }

  -- `later` is the reading of the clock in `_trip`.
  unfoldable pub record_failure : F → F → ErrorCircuitBreaker F → ErrorCircuitBreaker F
  record_failure now later b =
      let b' = prune_failures now (record b { failures = b.failures ++ now ∷ [] }) in
      if leb b.failure_threshold (length b'.failures) then trip later b' else b'

  unfoldable pub record_success : ErrorCircuitBreaker F → ErrorCircuitBreaker F
  record_success b = elim b.state [ half_open ↦ reset b | _ ↦ b ]

  unfoldable pub allow_request : F → ErrorCircuitBreaker F → Bool × ErrorCircuitBreaker F
  allow_request now b = elim b.state [
    | closed ↦ (true, b)
    | half_open ↦ (true, b)
    | tripped ↦
        if gt (now - b.opened_at) b.recovery_timeout
        then (true, record b { state = half_open })
        else (false, b)
  ]

  -- Sequences of calls from one state of the breaker to another, with the times of the requests.
  pub data Run : ErrorCircuitBreaker F → List F → ErrorCircuitBreaker F → Type 0 where
    done : (b : ErrorCircuitBreaker F) → Run b [] b
    failure :
        (now later : F) (b c : ErrorCircuitBreaker F) (times : List F)
        → Run (record_failure now later b) times c
        → Run b times c
    success :
        (b c : ErrorCircuitBreaker F) (times : List F)
        → Run (record_success b) times c
        → Run b times c
    request :
        (now : F) (b c : ErrorCircuitBreaker F) (times : List F)
        → Run (allow_request now b).1 times c
        → Run b (now ∷ times) c
