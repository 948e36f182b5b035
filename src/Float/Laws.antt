-- ===== src/Float/Laws.antt =====
-- What the theorems rely on of `float`: documented behaviour of IEEE 754 doubles, stated so that it
-- holds of infinities and of NaN too. A value is a number if it is at most itself.
use btc_laptop_agents.Prelude.{ℕ, ◌<◌, ◌≤◌, true, false, ◌≡◌, arith}
use btc_laptop_agents.Float.Defs.{Float, lit, nought, ◌+◌, ◌-◌, lt, le, eq, min, max}

infix 4 ◌≼◌ ◌≺◌
abbrev pub ◌≼◌ : {F : Type 0} ⦃fl : Float F⦄ → F → F → Type 0
◌≼◌ ⦃fl⦄ a b = fl.less_eq a b ≡ true

abbrev pub ◌≺◌ : {F : Type 0} ⦃fl : Float F⦄ → F → F → Type 0
◌≺◌ ⦃fl⦄ a b = fl.less a b ≡ true

-- The order of doubles.
pub record IsOrdered (F : Type 0) ⦃fl : Float F⦄ : Type 0 where
  pub number_of_le : (a b : F) → a ≼ b → (a ≼ a) × (b ≼ b)
  pub le_of_lt : (a b : F) → a ≺ b → a ≼ b
  pub le_trans : (a b c : F) → a ≼ b → b ≼ c → a ≼ c
  pub le_of_not_lt : (a b : F) → a ≼ a → b ≼ b → lt a b ≡ false → b ≼ a
  pub lt_of_not_le : (a b : F) → a ≼ a → b ≼ b → le a b ≡ false → b ≺ a
  pub not_le_of_lt : (a b : F) → a ≺ b → le b a ≡ false
  pub not_eq_of_lt : (a b : F) → a ≺ b → eq b a ≡ false
  pub number_of_finite : (a : F) → fl.is_finite a ≡ true → a ≼ a
  pub nought_number : ◌≼◌ {F = F} nought nought
  pub minus_self : (a : F) → fl.is_finite a ≡ true → a - a ≡ nought
  pub minus_le : (a b : F) → fl.is_finite b ≡ true → nought ≼ b → a ≼ a → a - b ≼ a
  pub le_plus : (a b : F) → fl.is_finite b ≡ true → nought ≼ b → a ≼ a → a ≼ a + b
  pub minus_nonneg : (a b : F) → fl.is_finite b ≡ true → b ≼ a → nought ≼ a - b
  pub le_of_eq : (a b : F) → eq a b ≡ true → a ≼ b
  pub lit_finite : (n : ℕ) → n ≤ 1_000_000 → fl.is_finite (lit n 1) ≡ true
  -- Literals of whole numbers that a double represents exactly.
  pub lit-lt : (n m : ℕ) → n < m → m ≤ 1_000_000 → ◌≺◌ {F = F} (lit n 1) (lit m 1)

module _ {F : Type 0} ⦃fl : Float F⦄ (laws : IsOrdered F) where
  pub min-le_left : (a b : F) → a ≼ a → min a b ≼ a
  unfolding min
  min-le_left a b h = ground (arith, laws.le_of_lt b a)

  pub min-le_right : (a b : F) → a ≼ a → b ≼ b → min a b ≼ b
  unfolding min
  min-le_right a b ha hb = ground (arith, laws.le_of_not_lt b a)

  pub le-max_left : (a b : F) → a ≼ a → a ≼ max a b
  unfolding max
  le-max_left a b h = ground (arith, laws.le_of_lt a b)

  pub le-max_right : (a b : F) → a ≼ a → b ≼ b → b ≼ max a b
  unfolding max
  le-max_right a b ha hb = ground (arith, laws.le_of_not_lt a b)

  pub le-lt-trans : (a b c : F) → a ≼ b → b ≺ c → a ≺ c
  le-lt-trans a b c h k =
      let na = (laws.number_of_le a b h).0 in
      let nc = (laws.number_of_le b c (laws.le_of_lt b c k)).1 in
      ground (arith, laws.lt_of_not_le c a nc na, laws.le_trans c a b, laws.not_le_of_lt b c k)

  pub lt-le-trans : (a b c : F) → a ≺ b → b ≼ c → a ≺ c
  lt-le-trans a b c h k =
      let na = (laws.number_of_le a b (laws.le_of_lt a b h)).0 in
      let nc = (laws.number_of_le b c k).1 in
      ground (arith, laws.lt_of_not_le c a nc na, laws.le_trans b c a, laws.not_le_of_lt a b h)
