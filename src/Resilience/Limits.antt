-- ===== src/Resilience/Limits.antt =====
-- The token bucket's bounds.
use btc_laptop_agents.Prelude.{◌≡◌, true, false, Result, ok, arith}
use btc_laptop_agents.Float.{Float, nought, one, ge, eq, ◌+◌, ◌-◌, ◌*◌, max}
use btc_laptop_agents.Float.Laws.{IsOrdered, ◌≼◌, min-le_left}
use btc_laptop_agents.Resilience.Limiter.{RateLimiter, refill, reserve_slot}

module _ {F : Type 0} ⦃fl : Float F⦄ (laws : IsOrdered F) where
  -- A reservation that was answered: a delay of zero for a token that was there, and no more tokens
  -- than the burst, nor fewer than none.
  pub record IsReserved (now : F) (l : RateLimiter F) (r : Result F) (after : RateLimiter F)
      : Type 0 where
    pub delay : F
    pub answered : r ≡ ok delay
    pub free : ge (refill now l).tokens one ≡ true → delay ≡ nought
    pub spent : ge (refill now l).tokens one ≡ false → after.tokens ≡ nought
    pub no_debt : nought ≼ after.tokens
    pub in_burst : after.tokens ≼ l.burst

  one_finite : fl.is_finite one ≡ true
  one_finite = laws.lit_finite 1 (omega arith)

  nought-le-one : ◌≼◌ {F = F} nought one
  nought-le-one = laws.le_of_lt nought one (laws.lit-lt 0 1 (omega arith) (omega arith))

  refill-le : (now : F) (l : RateLimiter F) → l.burst ≼ l.burst → (refill now l).tokens ≼ l.burst
  unfolding refill
  refill-le now l h =
      min-le_left laws l.burst
        (l.tokens + (max now l.last_update - l.last_update) * l.sustained_rps) h

  taken-le : (t burst : F) → one ≼ t → t ≼ burst → (nought ≼ t - one) × (t - one ≼ burst)
  taken-le t burst h k = (
    laws.minus_nonneg t one one_finite h,
    laws.le_trans (t - one) t burst
        (laws.minus_le t one one_finite nought-le-one (laws.number_of_le one t h).1) k,
  )

  -- Where the burst is not negative and the rate not zero, a reservation is answered whatever the
  -- clock and the bucket say, and leaves between no token and the burst.
  reserve_slot-IsReserved :
      (now : F) (l : RateLimiter F)
      → nought ≼ l.burst
      → eq l.sustained_rps nought ≡ false
      → IsReserved now l (reserve_slot now l).0 (reserve_slot now l).1
  unfolding reserve_slot
  reserve_slot-IsReserved now l h k = ground (
    arith,
    refill-le now l (laws.number_of_le nought l.burst h).1,
    taken-le (refill now l).tokens l.burst,
    laws.nought_number,
  )
