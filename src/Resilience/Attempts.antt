-- ===== src/Resilience/Attempts.antt =====
-- What a decorated call does: an independent description of the attempts, which `with_retry` meets.
use btc_laptop_agents.Prelude.{ℕ, suc, ◌+◌ as add, ◌<◌, ◌≡◌, ◌⊎◌, inl, inr, Option, none, some}
use btc_laptop_agents.Float.{Float}
use btc_laptop_agents.Resilience.Retry.{RetryPolicy, Ending, returned, back_off, give_up}

module _ {F W A E : Type 0} ⦃fl : Float F⦄ (sleep : F → W → W) (func : W → (A ⊎ E) × W)
    (policy : RetryPolicy F) where
  -- From the world `start`, the first so many attempts raise, the last of them the given exception,
  -- each followed by its delay.
  pub data Failing (start : W) : ℕ → Option E → W → Type 0 where
    none_yet : Failing start 0 none start
    once_more :
        {n : ℕ} {last : Option E} {w : W} (e : E)
        → Failing start n last w
        → (func w).0 ≡ inr e
        → Failing start (suc n) (some e) (back_off sleep func policy n (func w).1)

  -- The first attempt that returns ends the call; without one, the last exception does, after as many
  -- attempts as the policy allows.
  pub data Retried (start : W) : Ending A E × W → Type 0 where
    returns :
        {n : ℕ} {last : Option E} {w : W} (a : A)
        → n < policy.max_attempts
        → Failing start n last w
        → (func w).0 ≡ inl a
        → Retried start (returned a, (func w).1)
    exhausted :
        {last : Option E} {w : W}
        → Failing start policy.max_attempts last w
        → Retried start (give_up sleep func policy last, w)
