-- ===== src/Float/Defs.antt =====
-- The operations on `float`, and Python's operators and built-in functions over them.
use Prim.Native.Nat.{ℕ}
use btc_laptop_agents.Prelude.{
  Bool, not, List, foldl, Option, none, some, Result, ok, err, zero_division, if◌then◌else◌,
}

pub record Float (F : Type 0) : Type 0 where
  pub lit : ℕ → ℕ → F
  pub plus : F → F → F
  pub minus : F → F → F
  pub times : F → F → F
  pub quot : F → F → F
  pub negate : F → F
  pub magnitude : F → F
  pub trunc : F → F
  -- `round(x)` of a finite number, and `round(x, n)`.
  pub nearest : F → F
  pub round_to : F → ℕ → F
  pub less : F → F → Bool
  pub less_eq : F → F → Bool
  pub same : F → F → Bool
  pub is_finite : F → Bool

module _ {F : Type 0} ⦃fl : Float F⦄ where
  infixl 65 ◌+◌ ◌-◌
  infixl 70 ◌*◌ ◌/◌ ◌//◌
  abbrev pub lit : ℕ → ℕ → F
  lit = fl.lit

  -- The literal 0.0.
  abbrev pub nought : F
  nought = fl.lit 0 1

  -- The literal 1.0.
  abbrev pub one : F
  one = fl.lit 1 1

  abbrev pub ◌+◌ : F → F → F
  a + b = fl.plus a b

  abbrev pub ◌-◌ : F → F → F
  a - b = fl.minus a b

  abbrev pub ◌*◌ : F → F → F
  a * b = fl.times a b

  -- Division by a divisor that is not zero, such as a literal.
  abbrev pub ◌/◌ : F → F → F
  a / b = fl.quot a b

  -- Division as Python does it: by zero it raises ZeroDivisionError.
  abbrev pub ◌//◌ : F → F → Result F
  a // b = if fl.same b nought then err zero_division else ok (fl.quot a b)

  abbrev pub neg : F → F
  neg = fl.negate

  abbrev pub abs : F → F
  abs = fl.magnitude

  abbrev pub lt : F → F → Bool
  lt = fl.less

  abbrev pub le : F → F → Bool
  le = fl.less_eq

  -- `a > b`
  abbrev pub gt : F → F → Bool
  gt a b = fl.less b a

  -- `a >= b`
  abbrev pub ge : F → F → Bool
  ge a b = fl.less_eq b a

  abbrev pub eq : F → F → Bool
  eq = fl.same

  -- `bool(x)`: false only at zero.
  abbrev pub truthy : F → Bool
  truthy a = not (fl.same a nought)

  -- `min(a, b)` and `max(a, b)`: the first argument, unless the second is strictly better.
  unfoldable pub min : F → F → F
  min a b = if fl.less b a then b else a

  unfoldable pub max : F → F → F
  max a b = if fl.less a b then b else a

  -- `sum(xs)`, from the left.
  abbrev pub sum : List F → F
  sum = foldl (λ s x. fl.plus s x) nought

  -- `x or default`, for an optional number.
  abbrev pub or_else : Option F → F → F
  or_else none d = d
  or_else (some x) d = if truthy x then x else d
