-- ===== src/Agents/Sweeps.antt =====
-- What `maximum`, `minimum` and `detect_sweep` of indicators.py mean.
use btc_laptop_agents.Prelude.{
  ◌+◌, ◌≡◌, ◌⊎◌, inl, inr, refl, sym, ◌∙◌, List, [], ◌∷◌, ◌++◌, foldl, some, ok, ◌>>=◌, bind-ok,
  if-split, ◌&&◌, All, arith, length, length-append, init, last_n, last?, last?-append,
  last_n-append, init-append, ltb, false,
}
use btc_laptop_agents.Float.{Float, gt, lt, max, min}
use btc_laptop_agents.Float.Laws.{
  IsOrdered, ◌≼◌, ◌≺◌, le-max_left, le-max_right, min-le_left, min-le_right,
}
use btc_laptop_agents.Trading.Market.{Candle}
use btc_laptop_agents.Agents.Indicators.{
  maximum, minimum, highs, lows, Sweep, no_sweep, swept_high, swept_low, swept, detect_sweep,
}

-- One of the values.
abbrev pub IsIn : {A : Type 0} → A → List A → Type 0
IsIn a [] = ⊥
IsIn a (x ∷ xs) = (a ≡ x) ⊎ IsIn a xs

-- A fold that picks one of two values, where both are related to the one that is picked.
module _ {A : Type 0} (pick : A → A → A)
    (selects : (a b : A) → (pick a b ≡ a) ⊎ (pick a b ≡ b)) where
  foldl-IsIn : (x : A) (xs : List A) → IsIn (foldl pick x xs) (x ∷ xs)
  foldl-IsIn x [] = inl refl
  foldl-IsIn x (y ∷ ys) = elim (selects x y) [
    | inl e ↦ elim (foldl-IsIn (pick x y) ys) [ inl d ↦ inl (d ∙ e) | inr m ↦ inr (inr m) ]
    | inr e ↦ elim (foldl-IsIn (pick x y) ys) [ inl d ↦ inr (inl (d ∙ e)) | inr m ↦ inr (inr m) ]
  ]

module _ {A : Type 0} (pick : A → A → A) (R : A → A → Type 0)
    (trans : (a b c : A) → R a b → R b c → R a c)
    (left : (a b : A) → R a a → R b b → R a (pick a b))
    (right : (a b : A) → R a a → R b b → R b (pick a b))
    (selects : (a b : A) → (pick a b ≡ a) ⊎ (pick a b ≡ b)) where
  foldl-bounds :
      (x : A) (xs : List A)
      → R x x
      → All (λ y. R y y) xs
      → R x (foldl pick x xs) × All (λ y. R y (foldl pick x xs)) xs
  foldl-bounds x [] h hs = (h, tt)
  foldl-bounds x (y ∷ ys) h (hy, hs) =
      let number : R (pick x y) (pick x y) = elim (selects x y) [
        | inl e ↦ rw e h
        | inr e ↦ rw e hy
      ] in
      let (b, bs) = foldl-bounds (pick x y) ys number hs in
      (
        trans x (pick x y) (foldl pick (pick x y) ys) (left x y h hy) b,
        (trans y (pick x y) (foldl pick (pick x y) ys) (right x y h hy) b, bs),
      )

-- The greatest and the least of some values.
pub record IsGreatest {F : Type 0} ⦃fl : Float F⦄ (m : F) (xs : List F) : Type 0 where
  pub there : IsIn m xs
  pub above : All (λ x. x ≼ m) xs

pub record IsLeast {F : Type 0} ⦃fl : Float F⦄ (m : F) (xs : List F) : Type 0 where
  pub there : IsIn m xs
  pub below : All (λ x. m ≼ x) xs

module _ {F : Type 0} ⦃fl : Float F⦄ (laws : IsOrdered F) where
  max-selects : (a b : F) → (max a b ≡ a) ⊎ (max a b ≡ b)
  unfolding max
  max-selects a b = ground arith

  min-selects : (a b : F) → (min a b ≡ a) ⊎ (min a b ≡ b)
  unfolding min
  min-selects a b = ground arith

  maximum-IsGreatest :
      (xs : List F) (m : F) → All (λ x. x ≼ x) xs → maximum xs ≡ ok m → IsGreatest m xs
  unfolding maximum
  maximum-IsGreatest [] m h e = ground arith
  maximum-IsGreatest (x ∷ xs) m (h, hs) e =
      let r : foldl max x xs ≡ m = ground arith in
      let both =
        foldl-bounds max (λ a b. a ≼ b) laws.le_trans (λ a b ha _. le-max_left laws a b ha)
          (λ a b ha hb. le-max_right laws a b ha hb) max-selects x xs h hs in
      let there = foldl-IsIn max max-selects x xs in
      rw (sym r) (record { there = there; above = both })

  minimum-IsLeast : (xs : List F) (m : F) → All (λ x. x ≼ x) xs → minimum xs ≡ ok m → IsLeast m xs
  unfolding minimum
  minimum-IsLeast [] m h e = ground arith
  minimum-IsLeast (x ∷ xs) m (h, hs) e =
      let r : foldl min x xs ≡ m = ground arith in
      let both =
        foldl-bounds min (λ a b. b ≼ a) (λ a b c h k. laws.le_trans c b a k h)
          (λ a b ha _. min-le_left laws a b ha) (λ a b ha hb. min-le_right laws a b ha hb)
          min-selects x xs h hs in
      let there = foldl-IsIn min min-selects x xs in
      rw (sym r) (record { there = there; below = both })

-- The highs and the lows and lows are numbers.
abbrev pub IsNumeric : {F : Type 0} ⦃fl : Float F⦄ → List (Candle F) → Type 0
IsNumeric window = All (λ x. x ≼ x) (highs window) × All (λ x. x ≼ x) (lows window)

-- What a result of `detect_sweep` says of the candles before the last one, and of the last one.
abbrev pub IsSweepOf : {F : Type 0} ⦃fl : Float F⦄ → List (Candle F) → Candle F → Sweep F → Type 0
IsSweepOf window curr (swept_high m) =
    IsGreatest m (highs window) × (m ≺ curr.high) × (curr.close ≺ m)
IsSweepOf window curr (swept_low m) = IsLeast m (lows window) × (curr.low ≺ m) × (m ≺ curr.close)
IsSweepOf {F = F} window curr no_sweep =
    (hi lo : F) × IsGreatest hi (highs window)
    × IsLeast lo (lows window)
    × (gt curr.high hi && lt curr.close hi ≡ false)
    × (lt curr.low lo && gt curr.close lo ≡ false)

module _ {F : Type 0} ⦃fl : Float F⦄ (laws : IsOrdered F) where
  swept-IsSweepOf :
      (window : List (Candle F)) (curr : Candle F) (hi lo : F)
      → IsGreatest hi (highs window)
      → IsLeast lo (lows window)
      → IsSweepOf window curr (swept hi lo curr)
  unfolding swept
  swept-IsSweepOf window curr hi lo g l =
      if-split (IsSweepOf window curr) (gt curr.high hi && lt curr.close hi) (swept_high hi) _
        (λ e. (g, ground arith, ground arith))
        (λ e.
          if-split (IsSweepOf window curr) (lt curr.low lo && gt curr.close lo) (swept_low lo)
            no_sweep (λ d. (l, ground arith, ground arith)) (λ d. (hi, lo, g, l, e, d)))

  swept_result :
      (window : List (Candle F)) (curr : Candle F) (s : Sweep F)
      → IsNumeric window
      → (do hi ← maximum (highs window); lo ← minimum (lows window); ok (swept hi lo curr)) ≡ ok s
      → IsSweepOf window curr s
  swept_result window curr s n e =
      let (hi, eh, k) =
        bind-ok (maximum (highs window))
          (λ hi. do lo ← minimum (lows window); ok (swept hi lo curr)) s e in
      let (lo, el, d) = bind-ok (minimum (lows window)) (λ lo. ok (swept hi lo curr)) s k in
      let done : swept hi lo curr ≡ s = ground arith in
      rw (sym done) (
        swept-IsSweepOf window curr hi lo (maximum-IsGreatest laws (highs window) hi n.0 eh)
          (minimum-IsLeast laws (lows window) lo n.1 el))

  detect_sweep-window :
      (before window : List (Candle F)) (curr : Candle F)
      → detect_sweep (before ++ (window ++ curr ∷ [])) (length window)
        ≡ (do hi ← maximum (highs window); lo ← minimum (lows window); ok (swept hi lo curr))
  unfolding detect_sweep
  detect_sweep-window before window curr =
      let tail = window ++ curr ∷ [] in
      let size : length window + 1 ≡ length tail =
        omega (arith, length-append window (curr ∷ [])) in
      let long : ltb (length (before ++ tail)) (length window + 1) ≡ false =
        ground (arith, size, length-append before tail) in
      let whole : init (last_n (length window + 1) (before ++ tail)) ≡ window =
        rw (size, last_n-append before tail) (init-append window curr) in
      let ends : last? (before ++ tail) ≡ some curr =
        last?-append before tail curr (last?-append window (curr ∷ []) curr refl) in
      rw (long, ends, whole) refl

  -- On candles that end with a window, whose highs and lows are numbers, and a last candle,
  -- `detect_sweep` with the window's length reports a swept high only where the last candle went over
  -- the window's greatest high and closed under it, a swept low only where it went under the least low
  -- and closed over it, and no sweep only where it did neither.
  pub detect_sweep-IsSweepOf :
      (before window : List (Candle F)) (curr : Candle F) (s : Sweep F)
      → IsNumeric window
      → detect_sweep (before ++ (window ++ curr ∷ [])) (length window) ≡ ok s
      → IsSweepOf window curr s
  detect_sweep-IsSweepOf before window curr s n h =
      let e = sym (detect_sweep-window before window curr) ∙ h in swept_result window curr s n e
