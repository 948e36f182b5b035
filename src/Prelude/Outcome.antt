-- ===== src/Prelude/Outcome.antt =====
-- Python's exceptions as values.
use mathlib.Core.Bool.{Bool, true, false}
use mathlib.Core.Option.{Option, none, some}
use mathlib.Core.Path.{◌≡◌, refl}
use mathlib.Core.Logic.{◌⊎◌, inl, inr}
use native.Mathlib.Omega.{arith}

-- The exceptions that the modelled code raises or lets through; `out_of_fuel` is no exception, it
-- says that a bounded loop was cut off.
pub data Error : Type 0 where
  zero_division value_error type_error key_error index_error assertion out_of_fuel : Error

pub data Result {ℓ} (A : Type ℓ) : Type ℓ where
  ok : A → Result A
  err : Error → Result A

infixl 5 ◌>>=◌
abbrev pub ◌>>=◌ {ℓ κ} : {A : Type ℓ} {B : Type κ} → Result A → (A → Result B) → Result B
ok a >>= f = f a
err e >>= f = err e

-- A check that may `return False` or raise, followed by the rest of the checks.
infixl 5 ◌and_then◌
abbrev pub ◌and_then◌ : Result Bool → Result Bool → Result Bool
ok true and_then k = k
ok false and_then k = ok false
err e and_then k = err e

-- How a call that may raise, and may give nothing, ends.
pub Outcome-cases {ℓ} :
    {A : Type ℓ} (r : Result (Option A))
    → ((e : Error) × (r ≡ err e)) ⊎ (r ≡ ok none) ⊎ ((a : A) × (r ≡ ok (some a)))
Outcome-cases (err e) = inl (e, refl)
Outcome-cases (ok none) = inr (inl refl)
Outcome-cases (ok (some a)) = inr (inr (a, refl))

-- A chain that succeeds: its first call did, and the rest did on what that gave.
pub bind-ok {ℓ κ} :
    {A : Type ℓ} {B : Type κ} (r : Result A) (f : A → Result B) (b : B)
    → (r >>= f) ≡ ok b
    → (a : A) × (r ≡ ok a) × (f a ≡ ok b)
bind-ok (ok a) f b h = (a, refl, h)
bind-ok (err e) f b h = ground arith

pub Result-cases {ℓ} :
    {A : Type ℓ} (r : Result A) → ((e : Error) × (r ≡ err e)) ⊎ ((a : A) × (r ≡ ok a))
Result-cases (err e) = inl (e, refl)
Result-cases (ok a) = inr (a, refl)

-- What holds however a result is handled, holds of its handling.
pub Result-both {ℓ κ μ} :
    {A : Type ℓ} {B : Type κ} (P : B → Type μ) (r : Result A) (f : Error → B) (g : A → B)
    → ((e : Error) → P (f e))
    → ((a : A) → P (g a))
    → P (elim r [ err e ↦ f e | ok a ↦ g a ])
Result-both P (err e) f g p q = p e
Result-both P (ok a) f g p q = q a

-- The same, where the handling may use how the result ends.
pub Result-split {ℓ κ μ} :
    {A : Type ℓ} {B : Type κ} (P : B → Type μ) (r : Result A) (f : Error → B) (g : A → B)
    → ((e : Error) → r ≡ err e → P (f e))
    → ((a : A) → r ≡ ok a → P (g a))
    → P (elim r [ err e ↦ f e | ok a ↦ g a ])
Result-split P (err e) f g p q = p e refl
Result-split P (ok a) f g p q = q a refl
