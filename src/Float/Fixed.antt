-- ===== src/Float/Fixed.antt =====
-- Fixed-point numbers with four decimals: a concrete instance of the operations, on which the
-- development's tests run and which shows that the laws can hold. It has no infinities and no NaN.
use Prim.Native.Nat.{ℕ, suc, ◌+◌, ◌*◌, ◌/◌, ◌%◌}
use btc_laptop_agents.Prelude.{Bool, true, refl, arith, if◌then◌else◌, ◌&&◌, ltb}
use btc_laptop_agents.Prelude.Int.{
  ℤ, pos, negsuc, pos_part, neg_part, sub_ℕ, ◌+ℤ◌, ◌-ℤ◌, ltb_ℤ, leb_ℤ,
}
use btc_laptop_agents.Float.Defs.{Float}
use btc_laptop_agents.Float.Laws.{IsOrdered}

abbrev pub Fixed : Type 0
Fixed = ℤ

abbrev scale : ℕ
scale = 10_000

abbrev size : ℤ → ℕ
size (pos n) = n
size (negsuc n) = suc n

abbrev is_neg : ℤ → Bool
is_neg a = ltb 0 (neg_part a)

-- A result of the given size, with the sign of a product.
abbrev signed : ℤ → ℤ → ℕ → ℤ
signed a b n =
    if is_neg a
    then (if is_neg b then pos n else sub_ℕ 0 n)
    else if is_neg b
    then sub_ℕ 0 n
    else pos n

abbrev eqb_ℤ : ℤ → ℤ → Bool
eqb_ℤ a b = leb_ℤ a b && leb_ℤ b a

-- A whole number of units with a remainder, rounded, from the middle to the even one.
abbrev nearest_whole : ℕ → ℕ → ℕ
nearest_whole q r = if ltb (r * 2) scale then q else if ltb scale (r * 2) then q + 1 else q + q % 2

instance abbrev pub fixed_float : Float Fixed
fixed_float = record {
  lit = λ n d. pos (n * scale / d);
  plus = λ a b. a +ℤ b;
  minus = λ a b. a -ℤ b;
  times = λ a b. signed a b (size a * size b / scale);
  quot = λ a b. signed a b (size a * scale / size b);
  negate = λ a. sub_ℕ (neg_part a) (pos_part a);
  magnitude = λ a. pos (size a);
  trunc = λ a. signed a (pos 0) (size a / scale * scale);
  nearest = λ a. signed a (pos 0) (nearest_whole (size a / scale) (size a % scale) * scale);
  round_to = λ a n. a;
  less = ltb_ℤ;
  less_eq = leb_ℤ;
  same = eqb_ℤ;
  is_finite = λ _. true;
}

pub fixed-IsOrdered : IsOrdered Fixed
fixed-IsOrdered = record {
  number_of_le = λ a b h. ground arith;
  le_of_lt = λ a b h. ground arith;
  le_trans = λ a b c h k. ground arith;
  le_of_not_lt = λ a b ha hb h. ground arith;
  lt_of_not_le = λ a b ha hb h. ground arith;
  not_le_of_lt = λ a b h. ground arith;
  not_eq_of_lt = λ a b h. ground arith;
  number_of_finite = λ a h. ground arith;
  nought_number = refl;
  minus_self = λ a h. ground arith;
  minus_le = λ a b f h k. ground arith;
  le_plus = λ a b f h k. ground arith;
  minus_nonneg = λ a b f h. ground arith;
  le_of_eq = λ a b h. ground arith;
  lit_finite = λ n h. refl;
  lit-lt = λ n m h k. ground arith;
}
