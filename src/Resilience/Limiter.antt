-- ===== src/Resilience/Limiter.antt =====
-- core/rate_limiter.py: the token bucket. The reading of the clock is an argument; the lock makes a
-- reservation one step.
use btc_laptop_agents.Prelude.{Result, ok, err, if◌then◌else◌}
use btc_laptop_agents.Float.{Float, nought, one, lit, ◌+◌, ◌-◌, ◌*◌, ◌//◌, eq, ge, gt, min, max}

pub record RateLimiter (F : Type 0) : Type 0 where
  pub sustained_rps : F
  pub burst : F
  pub tokens : F
  pub last_update : F
  pub total_wait_seconds : F

module _ {F : Type 0} ⦃fl : Float F⦄ where
  unfoldable pub refill : F → RateLimiter F → RateLimiter F
  refill now l =
      let elapsed = max now l.last_update - l.last_update in
      record l { tokens = min l.burst (l.tokens + elapsed * l.sustained_rps) }

  -- The delay needed for one token.
  unfoldable pub reserve_slot : F → RateLimiter F → Result F × RateLimiter F
  reserve_slot now l =
      let effective_now = max now l.last_update in
      let l' = refill now l in
      if ge l'.tokens one
      then (
        ok nought,
        record l' {
          tokens = l'.tokens - one;
          last_update = if eq effective_now now then effective_now else l.last_update;
        },
      )
      else elim ((one - l'.tokens) // l.sustained_rps) [
        | err e ↦ (err e, l')
        | ok seconds ↦
            let delay = effective_now - now + seconds in
            (ok delay, record l' { tokens = nought; last_update = now + delay })
      ]

  -- `wait` and `wait_sync`: the delay, and the total where it is worth a sleep.
  unfoldable pub wait : F → RateLimiter F → Result F × RateLimiter F
  wait now l =
      let (r, l') = reserve_slot now l in
      elim r [
        | err e ↦ (err e, l')
        | ok delay ↦
            if gt delay (lit 1 1000)
            then (ok delay, record l' { total_wait_seconds = l'.total_wait_seconds + delay })
            else (ok delay, l')
      ]
