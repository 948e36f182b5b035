-- ===== src/Data/Pages.antt =====
-- `klines_paged` and `load_rest_candles` of data/providers/bitunix_futures.py. A request to the exchange is
-- a parameter: of its limit, its end in milliseconds and the state of the world, the rows it answers or
-- the exception. `end_before` is the millisecond before a timestamp, by Python's datetime.
use btc_laptop_agents.Prelude.{
  ℕ, zero, suc, ◌-◌ as minus, String, Bool, Option, none, some, List, [], ◌∷◌, ◌++◌, Result, ok,
  err, out_of_fuel, length, last?, init, from_end, ltb, leb, str_eq, if◌then◌else◌,
}
use btc_laptop_agents.Trading.Market.{Candle}
use btc_laptop_agents.Trading.Sequence.{codes, before}

-- `max(1, min(limit, 200))`
abbrev pub clamped : ℕ → ℕ
clamped limit = if leb limit 200 then (if leb limit 1 then 1 else limit) else 200

module _ {F : Type 0} where
  -- `a.ts < b.ts`
  abbrev pub is_earlier : Candle F → Candle F → Bool
  is_earlier a b = before (codes a.ts) (codes b.ts)

  -- `sorted(rows, key=lambda c: c.ts)`, which keeps the order of equal timestamps.
  abbrev pub insert_candle : Candle F → List (Candle F) → List (Candle F)
  insert_candle c [] = c ∷ []
  insert_candle c (x ∷ xs) =
      let rest = insert_candle c xs in if is_earlier x c then x ∷ rest else c ∷ x ∷ xs

  abbrev pub sorted : List (Candle F) → List (Candle F)
  sorted [] = []
  sorted (x ∷ xs) = insert_candle x (sorted xs)

  abbrev pub trimmed : ℕ → List (Candle F) → List (Candle F)
  trimmed total rows = if ltb total (length rows) then from_end total rows else rows

  -- The latest candle of the stream, where there is one, after the candles of the REST interface.
  unfoldable pub merge_latest : Option (Candle F) → List (Candle F) → List (Candle F)
  merge_latest none out = out
  merge_latest (some latest) out = elim (last? out) [
    | none ↦ latest ∷ []
    | some last ↦
        if is_earlier last latest
        then out ++ latest ∷ []
        else if str_eq latest.ts last.ts
        then init out ++ latest ∷ []
        else out
  ]

module _ {F W : Type 0} where
  -- With the rows of a page in order: none, or fewer than were asked for, end the loop.
  abbrev pub turn_page :
      ℕ
      → List (Candle F)
      → W
      → (Candle F → List (Candle F) → Result (List (Candle F)) × W)
      → List (Candle F)
      → Result (List (Candle F)) × W
  turn_page batch rows w next [] = (ok rows, w)
  turn_page batch rows w next (c ∷ cs) =
      if ltb (length (c ∷ cs)) batch then (ok ((c ∷ cs) ++ rows), w) else next c (c ∷ cs)

  abbrev pub tidied : ℕ → Result (List (Candle F)) × W → Result (List (Candle F)) × W
  tidied total (err e, w) = (err e, w)
  tidied total (ok rows, w) = (ok (trimmed total (sorted rows)), w)

module _ {F W : Type 0} (get : ℕ → Option ℕ → W → Result (List (Candle F)) × W)
    (end_before : String → ℕ) where
  -- `rows` are those of the pages so far, and `remaining` are missing.
  unfoldable pub page_loop : ℕ → ℕ → Option ℕ → List (Candle F) → W → Result (List (Candle F)) × W
  page_loop fuel zero cursor rows w = (ok rows, w)
  page_loop zero (suc n) cursor rows w = (err out_of_fuel, w)
  page_loop (suc fuel) (suc n) cursor rows w =
      let batch = if leb (suc n) 200 then suc n else 200 in
      let (res, w') = get (clamped batch) cursor w in
      elim res [
        | err e ↦ (err e, w')
        | ok page ↦
            turn_page batch rows w'
              (λ c cs.
                page_loop fuel (minus (suc n) (length cs)) (some (end_before c.ts)) (cs ++ rows) w')
              (sorted page)
      ]

  -- A page that is not empty takes one row at least from what is missing, so `total` pages are enough.
  unfoldable pub klines_paged : ℕ → Option ℕ → W → Result (List (Candle F)) × W
  klines_paged total end_ms w = tidied total (page_loop total total end_ms [] w)

  -- An attempt of `load_rest_candles`.
  unfoldable pub load_rest_candles : Option (Candle F) → ℕ → W → Result (List (Candle F)) × W
  load_rest_candles latest limit w =
      let (res, w') = klines_paged limit none w in
      elim res [ err e ↦ (err e, w') | ok out ↦ (ok (merge_latest latest out), w') ]
