-- ===== src/Agents/Derivatives.antt =====
-- agents/derivatives_flows.py: the funding snapshot, its cache, and the flags of the funding gates.
use btc_laptop_agents.Prelude.{
  ℕ, ◌+◌ as add, ◌%◌, ◌==◌, Bool, true, false, Option, none, some, List, [], ◌∷◌, if◌then◌else◌,
}
use btc_laptop_agents.Float.{Float, lit, abs, ge}
use btc_laptop_agents.Agents.Types.{
  Flag, funding_missing, halt_funding_extreme, no_trade_funding_hot, half_size_funding_warm, State,
}

pub record Gates (F : Type 0) : Type 0 where
  pub extreme_funding_8h : Option F
  pub no_trade_funding_8h : F
  pub half_size_funding_8h : F

-- Of the snapshot, the funding; `cached` says where it came from.
pub record Snapshot (F : Type 0) : Type 0 where
  pub funding_8h : Option F
  pub cached : Bool

-- `refresh_bars` is at least 1, which the constructor sees to.
pub record DerivativesFlows (F : Type 0) : Type 0 where
  pub gates : Gates F
  pub refresh_bars : ℕ
  pub bar : ℕ
  pub last : Option (Snapshot F)

module _ {F : Type 0} ⦃fl : Float F⦄ where
  abbrev pub extreme : Gates F → F
  extreme g = elim g.extreme_funding_8h [ none ↦ lit 1 1000 | some x ↦ x ]

  unfoldable pub funding_flags : Gates F → Option F → List Flag
  funding_flags g none = funding_missing ∷ []
  funding_flags g (some funding) =
      if ge (abs funding) (extreme g)
      then halt_funding_extreme ∷ []
      else if ge (abs funding) g.no_trade_funding_8h
      then no_trade_funding_hot ∷ []
      else if ge (abs funding) g.half_size_funding_8h
      then half_size_funding_warm ∷ []
      else []

module _ {F W : Type 0} ⦃fl : Float F⦄ (provider : W → Option (Option F) × W) where
  -- `provider` is the call of `snapshot_derivatives`: the funding of its snapshot, or none where it
  -- raises, which leaves the funding unknown, as a provider without that method does.
  unfoldable pub fetched : Option (Option F) → Snapshot F
  fetched none = record { funding_8h = none; cached = false }
  fetched (some funding) = record { funding_8h = funding; cached = false }

  unfoldable pub refresh : DerivativesFlows F → W → Snapshot F × DerivativesFlows F × W
  refresh a w =
      let (r, w') = provider w in let snap = fetched r in (snap, record a { last = some snap }, w')

  unfoldable pub snapshot : DerivativesFlows F → W → Snapshot F × DerivativesFlows F × W
  snapshot a w =
      let a' = record a { bar = add a.bar 1 } in
      elim a.last [
        | none ↦ refresh a' w
        | some s ↦
            if a'.bar % a.refresh_bars == 0
            then refresh a' w
            else (record s { cached = true }, a', w)
      ]

  -- `run`
  unfoldable pub flag_funding : DerivativesFlows F → State F → W → State F × DerivativesFlows F × W
  flag_funding a s w =
      let (snap, a', w') = snapshot a w in
      (record s { flags = funding_flags a.gates snap.funding_8h }, a', w')
