-- ===== src/Host.antt =====
-- What the brokers take from outside the repository: the clock, the random number generator, fresh
-- identifiers, and the cache of cachetools' `TTLCache`, whose entries come and go with the clock.
-- `W` is the state of all of these.
use btc_laptop_agents.Prelude.{ℕ, String, Option, ◌≡◌}

pub record Host (F W : Type 0) (Cached : Type 0) : Type 0 where
  pub time : W → F
  pub iso_now : W → String
  pub uniform : F → F → W → F × W
  pub randint : ℕ → ℕ → W → ℕ × W
  pub uuid_hex : W → String × W
  pub cache_get : String → W → Option Cached
  pub cache_set : String → Cached → W → W

-- A host whose clock reads the same throughout one call.
pub record IsSteady {F W Cached : Type 0} (host : Host F W Cached) : Type 0 where
  pub uniform_time : (a b : F) (w : W) → host.time (host.uniform a b w).1 ≡ host.time w
  pub randint_time : (a b : ℕ) (w : W) → host.time (host.randint a b w).1 ≡ host.time w
  pub uuid_time : (w : W) → host.time (host.uuid_hex w).1 ≡ host.time w
  pub cache_time :
      (k : String) (v : Cached) (w : W) → host.time (host.cache_set k v w) ≡ host.time w
