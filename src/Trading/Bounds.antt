-- ===== src/Trading/Bounds.antt =====
-- What a computed position size satisfies.
use btc_laptop_agents.Prelude.{
  Bool, true, false, ◌≡◌, Option, none, some, Result, ok, err, value_error, arith,
}
use btc_laptop_agents.Float.{Float, nought, le, min, ◌*◌, ◌/◌, lit}
use btc_laptop_agents.Float.Laws.{IsOrdered, ◌≼◌, ◌≺◌}
use btc_laptop_agents.Trading.Sizing.{Sized, brackets, checked, leveraged, calculate_position_size}

module _ {F : Type 0} ⦃fl : Float F⦄ where
  -- The stop and the target lie on the right sides of the entry, and the quantity is neither zero nor
  -- negative, nor above what the leverage allows.
  pub record IsBracketed (equity entry_price max_leverage : F) (is_long : Bool) (s : Sized F)
      : Type 0 where
    pub long_order : is_long ≡ true → (s.stop_price ≺ entry_price) × (entry_price ≺ s.tp_price)
    pub short_order : is_long ≡ false → (s.tp_price ≺ entry_price) × (entry_price ≺ s.stop_price)
    pub not_flat : le s.qty nought ≡ false
    pub within :
        s.qty ≼ s.qty
        → nought ≺ entry_price
        → fl.is_finite (equity * max_leverage / entry_price) ≡ true
        → s.qty ≼ equity * max_leverage / entry_price

  -- A position size is either refused, or a ValueError, or lies within its brackets and its leverage;
  -- ZeroDivisionError is never raised.
  abbrev pub IsSized : F → F → F → Bool → Result (Option (Sized F)) → Type 0
  IsSized equity entry_price max_leverage is_long (err e) = e ≡ value_error
  IsSized equity entry_price max_leverage is_long (ok none) = Unit
  IsSized equity entry_price max_leverage is_long (ok (some s)) =
      IsBracketed equity entry_price max_leverage is_long s

  leveraged-le :
      (laws : IsOrdered F) (equity entry_price max_leverage q : F)
      → leveraged equity entry_price max_leverage q ≼ leveraged equity entry_price max_leverage q
      → nought ≺ entry_price
      → fl.is_finite (equity * max_leverage / entry_price) ≡ true
      → leveraged equity entry_price max_leverage q ≼ equity * max_leverage / entry_price
  unfolding leveraged min
  leveraged-le laws equity entry_price max_leverage q h k f = ground (
    arith,
    laws.number_of_finite (equity * max_leverage / entry_price),
    laws.le_of_not_lt (equity * max_leverage / entry_price) q,
  )

  checked-IsSized :
      (equity entry_price max_leverage q : F) (prices : F × F) (is_long : Bool)
      → le q nought ≡ false
      → (q ≼ q
          → nought ≺ entry_price
          → fl.is_finite (equity * max_leverage / entry_price) ≡ true
          → q ≼ equity * max_leverage / entry_price)
      → IsSized equity entry_price max_leverage is_long (checked entry_price q prices is_long)
  unfolding checked
  checked-IsSized equity entry_price max_leverage q prices is_long h k = ground arith

  -- Whatever the numbers, a position size is refused, or a ValueError, or a quantity that is not zero
  -- or negative, with its stop and its target on the right sides of the entry; where the entry is
  -- positive, the cap by the leverage finite and the quantity a number, it is at most that cap.
  pub calculate_position_size-IsSized :
      (laws : IsOrdered F) (equity entry_price risk_pct stop_bps tp_r max_leverage : F)
      (is_long : Bool)
      → IsSized equity entry_price max_leverage is_long
          (calculate_position_size equity entry_price risk_pct stop_bps tp_r max_leverage is_long)
  unfolding calculate_position_size
  calculate_position_size-IsSized laws equity entry_price risk_pct stop_bps tp_r max_leverage
        is_long =
      let d = entry_price * (stop_bps / lit 10_000 1) in
      let q = leveraged equity entry_price max_leverage (equity * (risk_pct / lit 100 1) / d) in
      ground (
        arith,
        laws.le_of_eq d nought,
        leveraged-le laws equity entry_price max_leverage (equity * (risk_pct / lit 100 1) / d),
        checked-IsSized equity entry_price max_leverage q (brackets entry_price d tp_r is_long)
            is_long,
      )
