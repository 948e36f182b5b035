-- ===== src/Agents/Entries.antt =====
-- What the order of a market setup carries over from the setup, from the sentinel to the broker.
use btc_laptop_agents.Prelude.{ℕ, Bool, ◌≡◌, refl, none, some, List, ok, arith}
use btc_laptop_agents.Float.{Float}
use btc_laptop_agents.Trading.Market.{Candle}
use btc_laptop_agents.Agents.Types.{
  Flag, Setup, market, EntryType, Intent, Resolved, Decision, nothing, refused, intended, resolved,
  State,
}
use btc_laptop_agents.Agents.Sentinel.{RiskConfig, execution_risk, offer, entry_of, intent}
use btc_laptop_agents.Agents.Resolve.{
  Limits, resolve_order, resolve_intent, entered, triggered, rewarded, sized,
}
use btc_laptop_agents.Agents.Gate.{age_trigger, risk_gate, decide}

-- An order for the setup, to be filled at the market.
pub record IsForMarket {F : Type 0} (x : Setup F) (o : Intent F) : Type 0 where
  pub unpriced : o.entry ≡ none
  pub at_market : o.entry_type ≡ market
  pub same_terms : (o.side ≡ x.side) × (o.sl ≡ x.sl) × (o.tp ≡ x.tp)
  pub same_setup : o.setup ≡ x

-- A resolved order that keeps the setup's terms and enters at the price.
pub record EntersAt {F : Type 0} (px : F) (x : Setup F) (r : Resolved F) : Type 0 where
  pub entry : r.entry ≡ px
  pub same_terms : (r.side ≡ x.side) × (r.sl ≡ x.sl) × (r.tp ≡ x.tp)

module _ {F : Type 0} ⦃fl : Float F⦄ where
  offer-IsForMarket :
      (cfg : RiskConfig F) (flags : List Flag) (x : Setup F) (o : Intent F)
      → x.entry_type ≡ market
      → offer cfg flags x ≡ intended o
      → IsForMarket x o
  unfolding offer entry_of intent
  offer-IsForMarket cfg flags x o t h = ground arith

  execution_risk-IsForMarket :
      (cfg : RiskConfig F) (s : State F) (x : Setup F) (o : Intent F)
      → s.setup ≡ some x
      → x.entry_type ≡ market
      → (execution_risk cfg s).order ≡ intended o
      → IsForMarket x o
  unfolding execution_risk
  execution_risk-IsForMarket cfg s x o e t h = grind (arith, offer-IsForMarket)

  age_trigger-order :
      (n : ℕ) (s : State F) (o : Intent F)
      → (age_trigger n s).1.order ≡ intended o
      → s.order ≡ intended o
  unfolding age_trigger
  age_trigger-order n s o h = ground arith

  rewarded-EntersAt :
      (limits : Limits F) (o : Intent F) (x : Setup F) (t : EntryType) (px : F) (r : Resolved F)
      → IsForMarket x o
      → rewarded limits o t px ≡ ok (some r)
      → EntersAt px x r
  unfolding rewarded sized
  rewarded-EntersAt limits o x t px r m h = ground arith

  resolve_intent-EntersAt :
      (limits : Limits F) (o : Intent F) (x : Setup F) (candle : Candle F) (r : Resolved F)
      → IsForMarket x o
      → x.entry_type ≡ market
      → resolve_intent limits o candle ≡ ok (some r)
      → EntersAt candle.close x r
  unfolding resolve_intent entered triggered
  resolve_intent-EntersAt limits o x candle r m t h =
      rewarded-EntersAt limits o x market candle.close r m
        (ground (arith, m.unpriced, m.at_market, m.same_setup))

  risk_gate-order :
      (s : State F) (r : Resolved F) → (risk_gate s).order ≡ resolved r → s.order ≡ resolved r
  unfolding risk_gate
  risk_gate-order s r h = ground arith

  decide-resolved :
      (cfg : RiskConfig F) (limits : Limits F) (max_bars : ℕ) (candle : Candle F) (s : State F)
      (expired : Bool) (r : Resolved F)
      → (decide cfg limits max_bars candle s).0 ≡ ok expired
      → (decide cfg limits max_bars candle s).1.order ≡ resolved r
      → resolve_order limits (age_trigger max_bars (execution_risk cfg s)).1.order candle
        ≡ ok (some r)
  unfolding decide
  decide-resolved cfg limits max_bars candle s expired r e h = grind (arith, risk_gate-order)

  resolve_order-intended :
      (limits : Limits F) (d : Decision F) (candle : Candle F) (r : Resolved F)
      → resolve_order limits d candle ≡ ok (some r)
      → (o : Intent F) × (d ≡ intended o) × (resolve_intent limits o candle ≡ ok (some r))
  unfolding resolve_order
  resolve_order-intended limits (intended o) candle r h = (o, refl, h)
  resolve_order-intended limits (resolved x) candle r h = ground arith
  resolve_order-intended limits nothing candle r h = ground arith
  resolve_order-intended limits (refused x) candle r h = ground arith

  execution_risk-setup : (cfg : RiskConfig F) (s : State F) → (execution_risk cfg s).setup ≡ s.setup
  unfolding execution_risk
  execution_risk-setup cfg s = ground arith

  age_trigger-setup : (n : ℕ) (s : State F) → (age_trigger n s).1.setup ≡ s.setup
  unfolding age_trigger
  age_trigger-setup n s = ground arith

  risk_gate-setup : (s : State F) → (risk_gate s).setup ≡ s.setup
  unfolding risk_gate
  risk_gate-setup s = ground arith

  pub decide-setup :
      (cfg : RiskConfig F) (limits : Limits F) (max_bars : ℕ) (candle : Candle F) (s : State F)
      → (decide cfg limits max_bars candle s).1.setup ≡ s.setup
  unfolding decide
  decide-setup cfg limits max_bars candle s =
      grind (arith, execution_risk-setup, age_trigger-setup, risk_gate-setup)

  pub decide-EntersAt :
      (cfg : RiskConfig F) (limits : Limits F) (max_bars : ℕ) (candle : Candle F) (s : State F)
      (x : Setup F) (expired : Bool) (r : Resolved F)
      → s.setup ≡ some x
      → x.entry_type ≡ market
      → (decide cfg limits max_bars candle s).0 ≡ ok expired
      → (decide cfg limits max_bars candle s).1.order ≡ resolved r
      → EntersAt candle.close x r
  decide-EntersAt cfg limits max_bars candle s x expired r e t a h =
      let k = decide-resolved cfg limits max_bars candle s expired r a h in
      let (o, d, q) = resolve_order-intended limits _ candle r k in
      let m =
        execution_risk-IsForMarket cfg s x o e t
          (age_trigger-order max_bars (execution_risk cfg s) o d) in
      resolve_intent-EntersAt limits o x candle r m t q
