-- ===== src/Prelude/Lists.antt =====
-- Lists measured by native numbers, with Python's slices from the end.
use Prim.Native.Nat.{ℕ, zero, suc, ◌+◌, ◌-◌, ◌≤◌, ◌<◌, min}
use mathlib.Core.Path.{◌≡◌, refl, sym, ap, ◌∙◌}
use mathlib.Core.List.{List, [], ◌∷◌, ◌++◌, map}
use mathlib.Core.Bool.{Bool}
use mathlib.Core.Option.{Option, none, some}
use native.Mathlib.Numerals.{unary_clauses}
use native.Mathlib.Omega.{arith}
use btc_laptop_agents.Prelude.Tests.{if◌then◌else◌}

module _ {ℓ} {A : Type ℓ} where
  abbrev pub length : List A → ℕ
  length [] = 0
  length (x ∷ xs) = suc (length xs)

  abbrev pub drop : ℕ → List A → List A
  drop zero xs = xs
  drop (suc n) [] = []
  drop (suc n) (x ∷ xs) = drop n xs

  abbrev pub take : ℕ → List A → List A
  take zero xs = []
  take (suc n) [] = []
  take (suc n) (x ∷ xs) = x ∷ take n xs

  abbrev pub get_elem? : List A → ℕ → Option A
  get_elem? [] i = none
  get_elem? (x ∷ xs) zero = some x
  get_elem? (x ∷ xs) (suc i) = get_elem? xs i

  -- `[x for x in xs if keep(x)]`
  abbrev pub keep_if : (A → Bool) → List A → List A
  keep_if p [] = []
  keep_if p (x ∷ xs) = if p x then x ∷ keep_if p xs else keep_if p xs

  -- `xs[-1]`: none of an empty list, where Python raises IndexError.
  abbrev pub last? : List A → Option A
  last? [] = none
  last? (x ∷ xs) = elim (last? xs) [ none ↦ some x | some y ↦ some y ]

  -- `xs[:-1]`
  abbrev pub init : List A → List A
  init [] = []
  init (x ∷ []) = []
  init (x ∷ y ∷ ys) = x ∷ init (y ∷ ys)

  abbrev pub All {κ} : (A → Type κ) → List A → Type κ
  All P [] = Unit
  All P (x ∷ xs) = P x × All P xs

  pub length-append : (xs ys : List A) → length (xs ++ ys) ≡ length xs + length ys
  length-append [] ys = omega arith
  length-append (x ∷ xs) ys = omega (arith, length-append xs ys)

  pub length-drop : (n : ℕ) (xs : List A) → length (drop n xs) ≡ length xs - n
  length-drop zero xs = omega arith
  length-drop (suc n) [] = omega arith
  length-drop (suc n) (x ∷ xs) = omega (arith, length-drop n xs)

  pub length-keep_if : (p : A → Bool) (xs : List A) → length (keep_if p xs) ≤ length xs
  length-keep_if p [] = omega arith
  length-keep_if p (x ∷ xs) = ground (arith, length-keep_if p xs)

  pub All-append {κ} : (P : A → Type κ) (xs ys : List A) → All P xs → All P ys → All P (xs ++ ys)
  All-append P [] ys _ q = q
  All-append P (x ∷ xs) ys (p, ps) q = (p, All-append P xs ys ps q)

module _ {ℓ} {A : Type ℓ} where
  -- `xs[-n:]`, for n above 0.
  abbrev pub last_n : ℕ → List A → List A
  last_n n xs = drop (length xs - n) xs

  pub length-last_n : (n : ℕ) (xs : List A) → length (last_n n xs) ≡ min n (length xs)
  length-last_n n xs = omega (arith, length-drop (length xs - n) xs)

  -- `xs[-n:]`, for every n: of 0 it is the whole list.
  abbrev pub from_end : ℕ → List A → List A
  from_end zero xs = xs
  from_end (suc n) xs = last_n (suc n) xs

  -- `xs[a:a + n]`
  abbrev pub slice : ℕ → ℕ → List A → List A
  slice a n xs = take n (drop a xs)

  pub drop-drop : (m n : ℕ) (xs : List A) → drop (m + n) xs ≡ drop n (drop m xs)
  drop-drop zero n xs = let e : 0 + n ≡ n = omega arith in ap (λ k. drop k xs) e
  drop-drop (suc m) zero [] = simp unary_clauses
  drop-drop (suc m) (suc n) [] = simp unary_clauses
  drop-drop (suc m) n (x ∷ xs) =
      let e : suc m + n ≡ suc (m + n) = omega arith in
      ap (λ k. drop k (x ∷ xs)) e ∙ drop-drop m n xs

  pub take-add : (m n : ℕ) (xs : List A) → take (m + n) xs ≡ take m xs ++ take n (drop m xs)
  take-add zero n xs = let e : 0 + n ≡ n = omega arith in ap (λ k. take k xs) e
  take-add (suc m) zero [] = simp unary_clauses
  take-add (suc m) (suc n) [] = simp unary_clauses
  take-add (suc m) n (x ∷ xs) =
      let e : suc m + n ≡ suc (m + n) = omega arith in
      ap (λ k. take k (x ∷ xs)) e ∙ ap (λ (l : List A). x ∷ l) (take-add m n xs)

  -- Two slices, the second from where the first ends.
  pub slice-add :
      (a m n : ℕ) (xs : List A) → slice a (m + n) xs ≡ slice a m xs ++ slice (a + m) n xs
  slice-add a m n xs = rw (drop-drop a m xs) (take-add m n (drop a xs))

module _ {ℓ} {A : Type ℓ} where
  pub drop-append : (xs ys : List A) → drop (length xs) (xs ++ ys) ≡ ys
  drop-append [] ys = refl
  drop-append (x ∷ xs) ys = drop-append xs ys

  -- The last elements of a list that ends with them.
  pub last_n-append : (xs ys : List A) → last_n (length ys) (xs ++ ys) ≡ ys
  last_n-append xs ys =
      let e : length (xs ++ ys) - length ys ≡ length xs = omega (arith, length-append xs ys) in
      rw e (drop-append xs ys)

  pub init-append : (xs : List A) (x : A) → init (xs ++ x ∷ []) ≡ xs
  init-append [] x = refl
  init-append (y ∷ []) x = refl
  init-append (y ∷ z ∷ zs) x = ap (λ (l : List A). y ∷ l) (init-append (z ∷ zs) x)

  pub last?-append : (xs ys : List A) (a : A) → last? ys ≡ some a → last? (xs ++ ys) ≡ some a
  last?-append [] ys a h = h
  last?-append (x ∷ xs) ys a h = rw (last?-append xs ys a h) refl

last?-cons {ℓ} : {A : Type ℓ} (x y : A) (ys : List A) → last? (x ∷ y ∷ ys) ≡ last? (y ∷ ys)
last?-cons x y ys = ground arith

last?-drop {ℓ} :
    {A : Type ℓ} (n : ℕ) (xs : List A) (a : A)
    → last? xs ≡ some a
    → n < length xs
    → last? (drop n xs) ≡ some a
last?-drop zero xs a h l = h
last?-drop (suc n) [] a h l = ground arith
last?-drop (suc n) (x ∷ []) a h l = ground arith
last?-drop (suc n) (x ∷ y ∷ ys) a h l =
    last?-drop n (y ∷ ys) a (sym (last?-cons x y ys) ∙ h) (omega (arith, l))

pub last?-last_n {ℓ} :
    {A : Type ℓ} (n : ℕ) (xs : List A) (a : A)
    → last? xs ≡ some a
    → last? (last_n (suc n) xs) ≡ some a
last?-last_n n [] a h = ground arith
last?-last_n n (x ∷ xs) a h = last?-drop (length (x ∷ xs) - suc n) (x ∷ xs) a h (omega arith)

pub last?-map {ℓ κ} :
    {A : Type ℓ} {B : Type κ} (f : A → B) (xs : List A) (a : A)
    → last? xs ≡ some a
    → last? (map f xs) ≡ some (f a)
last?-map f [] a h = ground arith
last?-map f (x ∷ []) a h = let e : x ≡ a = ground arith in rw e refl
last?-map f (x ∷ y ∷ ys) a h =
    let e = last?-map f (y ∷ ys) a (sym (last?-cons x y ys) ∙ h) in
    last?-cons (f x) (f y) (map f ys) ∙ e
