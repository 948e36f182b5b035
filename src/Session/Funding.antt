-- ===== src/Session/Funding.antt =====
-- session/funding.py: the rounds of `funding_task`, each with its reading of the clock and the rate that
-- the provider gave, none where it has no such method or raised.
use btc_laptop_agents.Prelude.{
  ℕ, Bool, true, not, ◌&&◌, ◌||◌, ◌==◌, Option, none, some, List, [], ◌∷◌, if◌then◌else◌,
}
use btc_laptop_agents.Float.{Float}
use btc_laptop_agents.Host.{Host}
use btc_laptop_agents.Paper.Types.{FillEvent}
use btc_laptop_agents.Paper.Broker.{Broker}
use btc_laptop_agents.Paper.Orders.{apply_funding}

-- The hour and the minute of a reading.
pub record Reading : Type 0 where
  pub hour : ℕ
  pub minute : ℕ

-- `now.hour != last_funding_hour`
abbrev pub is_new_hour : ℕ → Option ℕ → Bool
is_new_hour h none = true
is_new_hour h (some k) = not (h == k)

-- Before the loop: no charge in the minute of the start.
unfoldable pub first_hour : Reading → Option ℕ
first_hour now = if now.minute == 0 then some now.hour else none

unfoldable pub is_due : Reading → Option ℕ → Bool
is_due now last =
    (now.hour == 0 || now.hour == 8 || now.hour == 16)
    && now.minute == 0
    && is_new_hour now.hour last

-- `last_funding_hour` after a round.
unfoldable pub next_hour : Reading → Option ℕ → Option ℕ
next_hour now last =
    if now.minute == 0 then (if is_due now last then some now.hour else last) else none

module _ {F W : Type 0} ⦃fl : Float F⦄ ⦃host : Host F W (FillEvent F)⦄ where
  unfoldable pub funding_round : Reading → Option F → Option ℕ → Broker F W → Broker F W × Option ℕ
  funding_round now none last b = (b, next_hour now last)
  funding_round now (some rate) last b =
      (if is_due now last then apply_funding b rate else b, next_hour now last)

  unfoldable pub funding_rounds :
      List (Reading × Option F) → Option ℕ → Broker F W → Broker F W × Option ℕ
  funding_rounds [] last b = (b, last)
  funding_rounds ((now, rate) ∷ xs) last b =
      let (b', last') = funding_round now rate last b in funding_rounds xs last' b'
