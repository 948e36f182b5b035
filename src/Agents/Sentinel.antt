-- ===== src/Agents/Sentinel.antt =====
-- agents/execution_risk.py: whether the setup becomes an order.
use btc_laptop_agents.Prelude.{
  ℕ, ◌+◌ as add, Bool, false, not, ◌&&◌, ◌||◌, Option, none, some, List, [], ◌∷◌, length, ltb,
  is_some, if◌then◌else◌,
}
use btc_laptop_agents.Float.{Float, lit, one, min}
use btc_laptop_agents.Agents.Types.{
  Flag, is_hot, is_warm, is_missing, Setup, limit, market, market_on_trigger, Intent, Decision,
  refused, intended, Refusal, State, in_trade,
}

abbrev pub cooldown : ℕ
cooldown = 5

pub record RiskConfig (F : Type 0) : Type 0 where
  pub rr_min : F
  pub equity : F
  pub risk_pct : F
  pub lot_size : Option F
  pub min_notional : Option F

abbrev pub any_flag : (Flag → Bool) → List Flag → Bool
any_flag p [] = false
any_flag p (x ∷ xs) = p x || any_flag p xs

module _ {F : Type 0} ⦃fl : Float F⦄ where
  -- Half of the size where funding is warm or unknown.
  unfoldable pub size_mult : List Flag → F
  size_mult flags =
      let warm = if any_flag is_warm flags then lit 5 10 else one in
      if any_flag is_missing flags then min warm (lit 5 10) else warm

  -- The entry of a setup: none twice where its type is unknown.
  unfoldable pub entry_of : Setup F → Option (Option F)
  entry_of x = elim x.entry_type [
    | limit ↦ some (some x.entry)
    | market_on_trigger ↦ some none
    | market ↦ some none
    | _ ↦ none
  ]

  unfoldable pub intent : RiskConfig F → List Flag → Setup F → Option F → F → F → Intent F
  intent cfg flags x entry lot_size min_notional = record {
    pending_trigger = not (is_some entry);
    side = x.side;
    entry_type = if is_some entry then limit else market;
    entry = entry;
    sl = x.sl;
    tp = x.tp;
    rr_min = cfg.rr_min;
    size_mult = size_mult flags;
    risk_pct = cfg.risk_pct;
    equity = cfg.equity;
    lot_step = lot_size;
    min_notional = min_notional;
    setup = x;
  }

  unfoldable pub offer : RiskConfig F → List Flag → Setup F → Decision F
  offer cfg flags x =
      if any_flag is_hot flags then refused Refusal.funding_hot_no_trade else elim (entry_of x) [
        | none ↦ refused Refusal.unknown_entry_type
        | some entry ↦ elim cfg.lot_size [
          | none ↦ refused Refusal.missing_instrument_info
          | some lot_size ↦ elim cfg.min_notional [
            | none ↦ refused Refusal.missing_instrument_info
            | some notional ↦ intended (intent cfg flags x entry lot_size notional)
          ]
        ]
      ]

  -- The cooldown compares the numbers of candles kept, as integers.
  abbrev pub cooling : State F → Bool
  cooling s = ltb (length s.candles) (add s.last_trade_bar cooldown) && not (in_trade s)

  -- `run`
  unfoldable pub execution_risk : RiskConfig F → State F → State F
  execution_risk cfg s = elim s.setup [
    | none ↦ record s { order = refused Refusal.no_setup }
    | some x ↦
        let s' = if in_trade s then record s { last_trade_bar = length s.candles } else s in
        if cooling s
        then record s' { order = refused Refusal.cooldown_active }
        else record s' { order = offer cfg s.flags x }
  ]
