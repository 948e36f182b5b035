-- ===== src/Backtest/Folds.antt =====
-- The walk-forward folds of `run_validation` (backtest/engine.py): their windows, and the choice of the
-- parameters.
use btc_laptop_agents.Prelude.{
  ℕ, zero, suc, ◌+◌ as add, ◌*◌ as mul, ◌≡◌, inl, inr, refl, sym, ap, false, Option, none, some,
  List, [], ◌∷◌, ◌++◌, All, Result, ok, slice, slice-add, arith, Bool-cases,
}
use btc_laptop_agents.Float.{Float, gt, lt}
use btc_laptop_agents.Float.Laws.{IsOrdered, ◌≺◌}
use btc_laptop_agents.Backtest.Validation.{
  Candidate, Splits, Fold, Best, train_window, test_window, improved, search_best,
}

module _ {A : Type 0} where
  -- The test windows of the first folds, one after another.
  unfoldable pub tested : Splits → ℕ → List A → List A
  tested s zero xs = []
  tested s (suc k) xs = tested s k xs ++ test_window s k xs

  tested-tiles :
      (s : Splits) (k : ℕ) (xs : List A) → tested s k xs ≡ slice s.train (mul k s.test) xs
  unfolding tested test_window
  tested-tiles s zero xs =
      let e : mul 0 s.test ≡ 0 = omega arith in ap (λ n. slice s.train n xs) (sym e)
  tested-tiles s (suc k) xs =
      let e : mul (suc k) s.test ≡ add (mul k s.test) s.test = grind arith in
      let start : add (mul k s.test) s.train ≡ add s.train (mul k s.test) = omega arith in
      rw (e, slice-add s.train (mul k s.test) s.test xs, start, tested-tiles s k xs)

  -- Each fold's training window ends where its test window begins.
  train-test :
      (s : Splits) (k : ℕ) (xs : List A)
      → train_window s k xs ++ test_window s k xs ≡ slice (mul k s.test) (add s.train s.test) xs
  unfolding train_window test_window
  train-test s k xs = sym (slice-add (mul k s.test) s.train s.test xs)

  -- The test windows of the first `k` folds, one after another, are the candles from the end of the
  -- first training window on, with none left out or taken twice; and the training window of fold `k`
  -- ends where its test window begins.
  test_window_tiles :
      (s : Splits) (k : ℕ) (xs : List A)
      → (tested s k xs ≡ slice s.train (mul k s.test) xs)
        × (train_window s k xs ++ test_window s k xs ≡ slice (mul k s.test) (add s.train s.test) xs)
  test_window_tiles s k xs = (tested-tiles s k xs, train-test s k xs)

module _ {F : Type 0} ⦃fl : Float F⦄ (laws : IsOrdered F) where
  lt_trans : (a b c : F) → a ≺ b → b ≺ c → a ≺ c
  lt_trans a b c h k = ground (
    arith,
    laws.le_of_lt b c,
    laws.number_of_le b c,
    laws.number_of_le a b,
    laws.le_of_lt a b,
    laws.le_of_not_lt a c,
    laws.le_trans b c a,
    laws.not_le_of_lt a b,
  )

  -- No candidate scores above the best.
  abbrev pub IsUnbeaten : (Candidate F → Option F) → F → Candidate F → Type 0
  IsUnbeaten score best c = (obj : F) → score c ≡ some obj → gt obj best ≡ false

  -- An objective is the start where there are no parameters, else their score.
  abbrev pub Scores : (Candidate F → Option F) → F → Option (Candidate F) → F → Type 0
  Scores score start none obj = obj ≡ start
  Scores score start (some c) obj = score c ≡ some obj

  improved-grows :
      (best : Best F) (c : Candidate F) (r : Option F) (obj : F)
      → gt obj best.objective ≡ false
      → gt obj (improved best c r).objective ≡ false
  unfolding improved
  improved-grows best c none obj h = h
  improved-grows best c (some x) obj h = ground (arith, lt_trans best.objective x obj)

  search_best-grows :
      (score : Candidate F → Option F) (best : Best F) (cs : List (Candidate F)) (obj : F)
      → gt obj best.objective ≡ false
      → gt obj (search_best score best cs).objective ≡ false
  unfolding search_best
  search_best-grows score best [] obj h = h
  search_best-grows score best (c ∷ cs) obj h =
      search_best-grows score (improved best c (score c)) cs obj
        (improved-grows best c (score c) obj h)

  lt_irrefl : (a : F) → lt a a ≡ false
  lt_irrefl a = ground (arith, laws.le_of_lt a a, laws.not_le_of_lt a a)

  improved-IsUnbeaten :
      (best : Best F) (c : Candidate F) (obj : F)
      → gt obj (improved best c (some obj)).objective ≡ false
  unfolding improved
  improved-IsUnbeaten best c obj = ground (arith, lt_irrefl obj)

  search_best-IsUnbeaten :
      (score : Candidate F → Option F) (best : Best F) (cs : List (Candidate F))
      → All (IsUnbeaten score (search_best score best cs).objective) cs
  unfolding search_best
  search_best-IsUnbeaten score best [] = tt
  search_best-IsUnbeaten score best (c ∷ cs) =
      let head : IsUnbeaten score (search_best score best (c ∷ cs)).objective c = λ obj e.
        search_best-grows score (improved best c (score c)) cs obj
          (rw e (improved-IsUnbeaten best c obj)) in
      (head, search_best-IsUnbeaten score (improved best c (score c)) cs)

  improved-Scores :
      (score : Candidate F → Option F) (start : F) (best : Best F) (c : Candidate F) (r : Option F)
      → score c ≡ r
      → Scores score start best.params best.objective
      → Scores score start (improved best c r).params (improved best c r).objective
  unfolding improved
  improved-Scores score start best c none e h = h
  improved-Scores score start best c (some x) e h = elim (Bool-cases (gt x best.objective)) [
    | inl better ↦ rw better e
    | inr worse ↦ rw worse h
  ]

  search_best-Scores :
      (score : Candidate F → Option F) (start : F) (best : Best F) (cs : List (Candidate F))
      → Scores score start best.params best.objective
      → Scores score start (search_best score best cs).params (search_best score best cs).objective
  unfolding search_best
  search_best-Scores score start best [] h = h
  search_best-Scores score start best (c ∷ cs) h =
      search_best-Scores score start (improved best c (score c)) cs
        (improved-Scores score start best c (score c) refl h)

  -- The search over a grid ends with an objective that no candidate of the grid exceeds, and that is the
  -- score of the parameters it picked, or the start where it picked none.
  search_best_lem :
      (score : Candidate F → Option F) (start : F) (cs : List (Candidate F))
      → let best = search_best score (record { objective = start; params = none }) cs in
        All (IsUnbeaten score best.objective) cs × Scores score start best.params best.objective
  search_best_lem score start cs =
      let first : Best F = record { objective = start; params = none } in
      (search_best-IsUnbeaten score first cs, search_best-Scores score start first cs refl)

module _ {F : Type 0} ⦃fl : Float F⦄ where
  -- The folds of a list are those of the numbers from `k` on.
  abbrev pub AreFolds : (ℕ → Result (Fold F)) → ℕ → List (Fold F) → Type 0
  AreFolds fold k [] = Unit
  AreFolds fold k (x ∷ xs) = (fold k ≡ ok x) × AreFolds fold (suc k) xs
