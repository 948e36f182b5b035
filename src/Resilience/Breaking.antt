-- ===== src/Resilience/Breaking.antt =====
-- The circuit breaker's state machine: what every sequence of calls keeps.
use btc_laptop_agents.Prelude.{
  ◌<◌, ◌≤◌, ◌≡◌, ◌≢◌, ◌↔◌, false, List, [], ◌∷◌, ◌++◌, length, keep_if, All, arith,
}
use btc_laptop_agents.Float.{Float, ◌-◌, gt, le}
use btc_laptop_agents.Resilience.Breaker.{
  closed, tripped, ErrorCircuitBreaker, prune_failures, trip, reset, record_failure, record_success,
  allow_request, Run, done, failure, success, request,
}

module _ {F : Type 0} ⦃fl : Float F⦄ where
  -- A closed breaker counts fewer failures than the threshold, which is above zero.
  pub record IsQuiet (b : ErrorCircuitBreaker F) : Type 0 where
    pub positive : 0 < b.failure_threshold
    pub below : b.state ≡ closed → length b.failures < b.failure_threshold

  record_failure-IsQuiet :
      (now later : F) (b : ErrorCircuitBreaker F) → IsQuiet b → IsQuiet (record_failure now later b)
  unfolding record_failure prune_failures trip
  record_failure-IsQuiet now later b h = ground arith

  record_success-IsQuiet : (b : ErrorCircuitBreaker F) → IsQuiet b → IsQuiet (record_success b)
  unfolding record_success reset
  record_success-IsQuiet b h = ground arith

  allow_request-IsQuiet :
      (now : F) (b : ErrorCircuitBreaker F) → IsQuiet b → IsQuiet (allow_request now b).1
  unfolding allow_request
  allow_request-IsQuiet now b h = ground arith

  -- Whatever is called, in whatever order and at whatever times, a breaker that counts fewer failures
  -- than its threshold while it is closed still does so afterwards.
  Run-IsQuiet :
      (b c : ErrorCircuitBreaker F) (times : List F) → Run b times c → IsQuiet b → IsQuiet c
  Run-IsQuiet b c times (done _) h = h
  Run-IsQuiet b c times (failure now later _ _ _ rest) h =
      Run-IsQuiet _ c times rest (record_failure-IsQuiet now later b h)
  Run-IsQuiet b c times (success _ _ _ rest) h =
      Run-IsQuiet _ c times rest (record_success-IsQuiet b h)
  Run-IsQuiet b c times (request now _ _ _ rest) h =
      Run-IsQuiet _ c _ rest (allow_request-IsQuiet now b h)

  -- The request comes before the recovery timeout has passed.
  abbrev pub IsEarly : ErrorCircuitBreaker F → F → Type 0
  IsEarly b now = gt (now - b.opened_at) b.recovery_timeout ≡ false

  -- The breaker is still tripped, since the same time.
  pub record IsTrippedAs (b c : ErrorCircuitBreaker F) : Type 0 where
    pub still : c.state ≡ tripped
    pub since : c.opened_at ≡ b.opened_at
    pub timeout : c.recovery_timeout ≡ b.recovery_timeout

  record_failure-IsTrippedAs :
      (now later : F) (a b : ErrorCircuitBreaker F)
      → IsTrippedAs a b
      → IsTrippedAs a (record_failure now later b)
  unfolding record_failure prune_failures trip
  record_failure-IsTrippedAs now later a b h = ground arith

  record_success-IsTrippedAs :
      (a b : ErrorCircuitBreaker F) → IsTrippedAs a b → IsTrippedAs a (record_success b)
  unfolding record_success reset
  record_success-IsTrippedAs a b h = ground arith

  allow_request-refused :
      (now : F) (a b : ErrorCircuitBreaker F)
      → IsTrippedAs a b
      → IsEarly a now
      → allow_request now b ≡ (false, b)
  unfolding allow_request
  allow_request-refused now a b h early = ground arith

  allow_request-IsTrippedAs :
      (now : F) (a b : ErrorCircuitBreaker F)
      → IsTrippedAs a b
      → IsEarly a now
      → IsTrippedAs a (allow_request now b).1
  unfolding allow_request
  allow_request-IsTrippedAs now a b h early = ground arith

  -- A breaker that is tripped as `a` was refuses a request that comes before the recovery timeout of
  -- `a` has passed, after any failures, successes and requests that were as early.
  pub allow_request_refuses :
      (a b c : ErrorCircuitBreaker F) (times : List F)
      → Run b times c
      → IsTrippedAs a b
      → All (IsEarly a) times
      → (now : F) → IsEarly a now
      → allow_request now c ≡ (false, c)
  allow_request_refuses a b c times (done _) t es now e = allow_request-refused now a b t e
  allow_request_refuses a b c times (failure now later _ _ _ rest) t es at e =
      allow_request_refuses a _ c times rest (record_failure-IsTrippedAs now later a b t) es at e
  allow_request_refuses a b c times (success _ _ _ rest) t es at e =
      allow_request_refuses a _ c times rest (record_success-IsTrippedAs a b t) es at e
  allow_request_refuses a b c times (request now _ _ _ rest) t (e', es) at e =
      allow_request_refuses a _ c _ rest (allow_request-IsTrippedAs now a b t e') es at e

  -- A failure trips a breaker that is not tripped exactly if the failures of the time window, itself
  -- included, are at least as many as the threshold; a probe of a half-open breaker that fails is no exception.
  record_failure-trips :
      (now later : F) (b : ErrorCircuitBreaker F)
      → b.state ≢ tripped
      → ((record_failure now later b).state ≡ tripped) ↔ (
          b.failure_threshold
          ≤ length (keep_if (λ t. le (now - t) b.time_window) (b.failures ++ now ∷ [])))
  unfolding record_failure prune_failures trip
  record_failure-trips now later b h = ground arith
