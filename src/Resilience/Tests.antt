-- ===== src/Resilience/Tests.antt =====
-- Runs of the guards on concrete inputs, and the theorems at concrete inputs.
use btc_laptop_agents.Prelude.{ℕ, zero, suc, ◌*◌, ◌≡◌, ◌⊎◌, inl, inr, refl, false, [], ◌∷◌, arith}
use btc_laptop_agents.Prelude.Int.{pos}
use btc_laptop_agents.Float.{min, max}
use btc_laptop_agents.Float.Fixed.{Fixed, fixed_float}
use btc_laptop_agents.Resilience.Breaker.{
  Phase, ErrorCircuitBreaker, closed, record_failure, prune_failures, trip, reset, record_success,
  allow_request, Run, done, failure, success, request,
}
use btc_laptop_agents.Resilience.Breaking.{IsQuiet, IsTrippedAs, IsEarly, allow_request_refuses}
use btc_laptop_agents.Resilience.Limiter.{RateLimiter, refill, reserve_slot}
use btc_laptop_agents.Resilience.Retry.{RetryPolicy, returned, with_retry, attempts, back_off}

run_open : Unit {0}
unfolding record_failure prune_failures trip reset record_success allow_request refill reserve_slot
    min max with_retry attempts back_off
run_open = tt

abbrev seconds : ℕ → Fixed
seconds n = pos (n * 10_000)

-- Two failures in a minute trip it, for two minutes.
abbrev fresh : ErrorCircuitBreaker Fixed
fresh = record {
  failure_threshold = 2;
  recovery_timeout = seconds 120;
  time_window = seconds 60;
  failures = [];
  state = closed;
  opened_at = seconds 0;
}

abbrev failed_twice : ErrorCircuitBreaker Fixed
failed_twice =
    record_failure (seconds 11) (seconds 12) (record_failure (seconds 10) (seconds 10) fresh)

trips_at : failed_twice.opened_at ≡ seconds 12
unfolding run_open
trips_at = refl

-- After the timeout one request probes, and a failed probe, alone in its window, does not trip.
probes :
    (record_failure (seconds 140) (seconds 140) (allow_request (seconds 133) failed_twice).1).state
    ≡ Phase.half_open
unfolding run_open
probes = refl

two_failures : Run fresh (seconds 13 ∷ []) (allow_request (seconds 13) failed_twice).1
two_failures =
    failure (seconds 10) (seconds 10) fresh _ _
      (failure (seconds 11) (seconds 12) _ _ _ (request (seconds 13) failed_twice _ _ (done _)))

fresh-IsQuiet : IsQuiet fresh
fresh-IsQuiet = record { positive = omega arith; below = λ _. omega arith }

failed_twice-IsTrippedAs : IsTrippedAs failed_twice failed_twice
unfolding run_open
failed_twice-IsTrippedAs = record { still = refl; since = refl; timeout = refl }

early : IsEarly failed_twice (seconds 14)
unfolding run_open
early = refl

allow_request_refuses_example :
    allow_request (seconds 14) (record_success failed_twice) ≡ (false, record_success failed_twice)
allow_request_refuses_example =
    allow_request_refuses failed_twice failed_twice (record_success failed_twice) []
      (success failed_twice _ _ (done _)) failed_twice-IsTrippedAs tt (seconds 14) early

abbrev bucket : RateLimiter Fixed
bucket = record {
  sustained_rps = pos 200_000;
  burst = pos 500_000;
  tokens = pos 500_000;
  last_update = seconds 5;
  total_wait_seconds = seconds 0;
}

-- Fails while the world is below two.
abbrev flaky : ℕ → (ℕ ⊎ ℕ) × ℕ
flaky zero = (inr 0, 1)
flaky (suc zero) = (inr 1, 2)
flaky (suc (suc n)) = (inl 7, 2)

abbrev nap : Fixed → ℕ → ℕ
nap s n = n

abbrev thrice : RetryPolicy Fixed
thrice = record { max_attempts = 3; base_delay = pos 1000 }

third_time : with_retry nap flaky thrice 0 ≡ (returned 7, 2)
unfolding run_open
third_time = refl
