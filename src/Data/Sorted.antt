-- ===== src/Data/Sorted.antt =====
-- What `klines_paged` returns: at most the rows that were asked for, oldest first.
use btc_laptop_agents.Prelude.{
  ℕ, ◌-◌ as minus, ◌≤◌, ◌≡◌, ◌≢◌, false, List, [], ◌∷◌, Result, ok, err, out_of_fuel, length,
}
use btc_laptop_agents.Trading.Market.{Candle}
use btc_laptop_agents.Data.Pages.{is_earlier}

module _ {F : Type 0} where
  -- No candle is earlier than the one before it.
  abbrev pub IsSorted : List (Candle F) → Type 0
  IsSorted [] = Unit
  IsSorted (a ∷ []) = Unit
  IsSorted (a ∷ b ∷ cs) = (is_earlier b a ≡ false) × IsSorted (b ∷ cs)

  -- The first of the candles, where there is one, is not earlier than `x`.
  abbrev pub Follows : Candle F → List (Candle F) → Type 0
  Follows x [] = Unit
  Follows x (y ∷ ys) = is_earlier y x ≡ false

  -- What is said of the rows of a call holds where it returns some.
  abbrev pub IsOfRows : (List (Candle F) → Type 0) → Result (List (Candle F)) → Type 0
  IsOfRows P (err e) = Unit
  IsOfRows P (ok rows) = P rows

module _ {F W : Type 0} where
  -- A call that is not cut off.
  abbrev pub IsUncut : Result (List (Candle F)) × W → Type 0
  IsUncut x = x.0 ≢ err out_of_fuel

  pub record IsPaged (total : ℕ) (x : Result (List (Candle F)) × W) : Type 0 where
    pub uncut : IsUncut x
    pub fits : IsOfRows (λ rows. length rows ≤ total) x.0
    pub in_order : IsOfRows IsSorted x.0
