-- ===== src/Trading/Sequence.antt =====
-- `normalize_candle_order` of trading/helpers.py. Timestamps are texts, which Python compares code
-- point by code point.
use Prim.Native.String.{String}
use Prim.Native.Char.{code}
use mathlib.Core.List.{reverse}
use btc_laptop_agents.Prelude.{ℕ, Bool, true, false, List, [], ◌∷◌, if◌then◌else◌, ltb, ◌==◌}
use btc_laptop_agents.Trading.Market.{Candle}

abbrev pub codes : String → List ℕ
codes String.[] = []
codes (String.◌∷◌ c s) = code c ∷ codes s

-- `a < b`, on the code points of texts.
unfoldable pub before : List ℕ → List ℕ → Bool
before [] [] = false
before [] (_ ∷ _) = true
before (_ ∷ _) [] = false
before (x ∷ xs) (y ∷ ys) = if x == y then before xs ys else ltb x y

abbrev pub last_of {ℓ} : {A : Type ℓ} → A → List A → A
last_of x [] = x
last_of x (y ∷ ys) = last_of y ys

-- The newest candle first becomes the oldest first, told by the two ends.
unfoldable pub normalize_candle_order : {F : Type 0} → List (Candle F) → List (Candle F)
normalize_candle_order [] = []
normalize_candle_order (c ∷ cs) =
    if before (codes (last_of c cs).ts) (codes c.ts) then reverse (c ∷ cs) else c ∷ cs
