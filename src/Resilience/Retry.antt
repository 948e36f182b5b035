-- ===== src/Resilience/Retry.antt =====
-- resilience/retry.py. The operation and the sleep act on a state of the world; an operation returns
-- a value or raises an exception of a type of its own.
use btc_laptop_agents.Prelude.{
  ℕ, zero, suc, ◌+◌ as add, ◌-◌ as less, ◌^◌, ◌⊎◌, inl, inr, Option, none, some, ltb, if◌then◌else◌,
}
use btc_laptop_agents.Float.{Float, lit, ◌*◌}

pub record RetryPolicy (F : Type 0) : Type 0 where
  pub max_attempts : ℕ
  pub base_delay : F

-- How a decorated call ends: with a value, an exception of the operation, or the RuntimeError of a
-- policy without attempts.
pub data Ending (A E : Type 0) : Type 0 where
  returned : A → Ending A E
  raised : E → Ending A E
  no_attempts : Ending A E

module _ {F W A E : Type 0} ⦃fl : Float F⦄ (sleep : F → W → W) (func : W → (A ⊎ E) × W)
    (policy : RetryPolicy F) where
  -- What follows a failed attempt.
  unfoldable pub back_off : ℕ → W → W
  back_off attempt w =
      if ltb attempt (less policy.max_attempts 1)
      then sleep (policy.base_delay * lit (2 ^ attempt) 1) w
      else w

  abbrev pub give_up : Option E → Ending A E
  give_up none = no_attempts
  give_up (some e) = raised e

  -- The loop, with the attempts left, the number of the attempt and the last exception.
  unfoldable pub attempts : ℕ → ℕ → Option E → W → Ending A E × W
  attempts zero attempt last w = (give_up last, w)
  attempts (suc left) attempt last w =
      let (r, w') = func w in
      elim r [
        | inl a ↦ (returned a, w')
        | inr e ↦ attempts left (add attempt 1) (some e) (back_off attempt w')
      ]

  unfoldable pub with_retry : W → Ending A E × W
  with_retry w = attempts policy.max_attempts 0 none w
