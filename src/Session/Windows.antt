-- ===== src/Session/Windows.antt =====
-- Funding is charged once in a funding window.
use btc_laptop_agents.Prelude.{ℕ, ◌≡◌, ◌⊎◌, refl, Option, some, List, [], ◌∷◌, All, arith}
use btc_laptop_agents.Float.{Float}
use btc_laptop_agents.Host.{Host}
use btc_laptop_agents.Paper.Types.{FillEvent}
use btc_laptop_agents.Paper.Broker.{Broker}
use btc_laptop_agents.Session.Funding.{
  Reading, first_hour, is_due, next_hour, funding_round, funding_rounds,
}

module _ {F : Type 0} where
  -- A round in the first minute of the hour `h`.
  pub record IsIn (h : ℕ) (x : Reading × Option F) : Type 0 where
    pub same_hour : x.0.hour ≡ h
    pub on_the_hour : x.0.minute ≡ 0

abbrev pub IsWindow : ℕ → Type 0
IsWindow h = (h ≡ 0) ⊎ (h ≡ 8) ⊎ (h ≡ 16)

module _ {F W : Type 0} ⦃fl : Float F⦄ ⦃host : Host F W (FillEvent F)⦄ where
  funding_round-charged :
      (h : ℕ) (now : Reading) (rate : Option F) (b : Broker F W)
      → IsIn h (now, rate)
      → funding_round now rate (some h) b ≡ (b, some h)
  unfolding funding_round is_due next_hour
  funding_round-charged h now rate b i = ground arith

  funding_rounds-charged :
      (h : ℕ) (xs : List (Reading × Option F)) (b : Broker F W)
      → All (IsIn h) xs
      → funding_rounds xs (some h) b ≡ (b, some h)
  unfolding funding_rounds
  funding_rounds-charged h [] b i = refl
  funding_rounds-charged h ((now, rate) ∷ xs) b (i, is) =
      rw (funding_round-charged h now rate b i) (funding_rounds-charged h xs b is)

  funding_round-marks :
      (h : ℕ) (now : Reading) (rate : Option F) (last : Option ℕ) (b : Broker F W)
      → IsWindow h
      → IsIn h (now, rate)
      → (funding_round now rate last b).1 ≡ some h
  unfolding funding_round is_due next_hour
  funding_round-marks h now rate last b w i = ground arith

  -- However often the clock is read in the first minute of a funding window, and whatever rates the
  -- provider gives, only the first round can charge: the rounds after it change nothing, also where
  -- the first one got no rate.
  funding_rounds_once :
      (h : ℕ) (now : Reading) (rate : Option F) (xs : List (Reading × Option F)) (last : Option ℕ)
      (b : Broker F W)
      → IsWindow h
      → All (IsIn h) ((now, rate) ∷ xs)
      → funding_rounds ((now, rate) ∷ xs) last b ≡ funding_round now rate last b
  unfolding funding_rounds
  funding_rounds_once h now rate xs last b w (i, is) =
      let marked = funding_round-marks h now rate last b w i in
      let rest = funding_rounds-charged h xs (funding_round now rate last b).0 is in grind arith

  -- A task that starts in the first minute of a window charges nothing in that minute.
  funding_rounds_started :
      (start : Reading) (xs : List (Reading × Option F)) (b : Broker F W)
      → start.minute ≡ 0
      → All (IsIn start.hour) xs
      → (funding_rounds xs (first_hour start) b).0 ≡ b
  unfolding first_hour
  funding_rounds_started start xs b h is = ground (arith, funding_rounds-charged start.hour xs b is)
