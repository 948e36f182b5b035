-- ===== src/Agents/Pipeline.antt =====
-- What the order pipeline guarantees of the order that the broker sees, and what it never does.
use btc_laptop_agents.Prelude.{
  ℕ, ◌≡◌, ◌≢◌, ◌⊎◌, Bool, true, false, Option, none, some, List, [], ◌∷◌, ◌++◌, All, ok, arith,
  length, length-append, length-last_n,
}
use btc_laptop_agents.Float.{Float, nought, lit, abs, lt, le, gt, ge, ◌*◌, ◌-◌, ◌/◌}
use btc_laptop_agents.Trading.Market.{Candle}
use btc_laptop_agents.Agents.Types.{
  Flag, is_blocker, Setup, EntryType, Intent, Resolved, Refusal, Decision, refused, intended, goes,
  State,
}
use btc_laptop_agents.Agents.Derivatives.{Gates, extreme, funding_flags}
use btc_laptop_agents.Agents.Sentinel.{RiskConfig, any_flag, offer, execution_risk}
use btc_laptop_agents.Agents.Resolve.{
  Limits, sized, rewarded, resolve_intent, entered, triggered, resolve_order,
}
use btc_laptop_agents.Agents.Gate.{risk_gate, keep_candle, age_trigger, decide}

-- One candle, with the flags and the setup that the agents before the sentinel write.
pub record Bar (F : Type 0) : Type 0 where
  pub candle : Candle F
  pub flags : List Flag
  pub setup : Option (Setup F)

module _ {F : Type 0} ⦃fl : Float F⦄ where
  risk_gate-blocked :
      (s : State F) → any_flag is_blocker s.flags ≡ true → goes (risk_gate s).order ≡ false
  unfolding risk_gate
  risk_gate-blocked s h = ground arith

  execution_risk-flags : (cfg : RiskConfig F) (s : State F) → (execution_risk cfg s).flags ≡ s.flags
  unfolding execution_risk
  execution_risk-flags cfg s = ground arith

  age_trigger-flags : (n : ℕ) (s : State F) → (age_trigger n s).1.flags ≡ s.flags
  unfolding age_trigger
  age_trigger-flags n s = ground arith

  decide-blocked :
      (cfg : RiskConfig F) (limits : Limits F) (max_bars : ℕ) (candle : Candle F) (s : State F)
      (expired : Bool)
      → any_flag is_blocker s.flags ≡ true
      → (decide cfg limits max_bars candle s).0 ≡ ok expired
      → goes (decide cfg limits max_bars candle s).1.order ≡ false
  unfolding decide
  decide-blocked cfg limits max_bars candle s expired h e =
      grind (arith, risk_gate-blocked, age_trigger-flags, execution_risk-flags)

  funding_flags-blocked :
      (g : Gates F) (funding : F)
      → (ge (abs funding) (extreme g) ≡ true) ⊎ (ge (abs funding) g.no_trade_funding_8h ≡ true)
      → any_flag is_blocker (funding_flags g (some funding)) ≡ true
  unfolding funding_flags
  funding_flags-blocked g funding h = ground arith

  -- Where the funding reaches the extreme gate or the no-trade gate, no order passes the pipeline,
  -- whatever the setup, the configuration and the candle: a run of it that does not raise ends with an
  -- order that does not go.
  pub decide_hot_funding :
      (cfg : RiskConfig F) (limits : Limits F) (max_bars : ℕ) (candle : Candle F) (s : State F)
      (g : Gates F) (funding : F) (expired : Bool)
      → s.flags ≡ funding_flags g (some funding)
      → (ge (abs funding) (extreme g) ≡ true) ⊎ (ge (abs funding) g.no_trade_funding_8h ≡ true)
      → (decide cfg limits max_bars candle s).0 ≡ ok expired
      → goes (decide cfg limits max_bars candle s).1.order ≡ false
  decide_hot_funding cfg limits max_bars candle s g funding expired f h e =
      decide-blocked cfg limits max_bars candle s expired (rw f (funding_flags-blocked g funding h))
        e

  -- A resolved order against the intent it came from.
  pub record IsResolved (o : Intent F) (r : Resolved F) : Type 0 where
    pub same_terms : (r.side ≡ o.side) × (r.sl ≡ o.sl) × (r.tp ≡ o.tp)
    pub apart : le (abs (r.entry - r.sl)) nought ≡ false
    pub ratio : r.rr ≡ abs (r.tp - r.entry) / abs (r.entry - r.sl)
    pub rewarding : lt r.rr o.rr_min ≡ false
    pub worth : lt (r.qty * r.entry) o.min_notional ≡ false

  rewarded-IsResolved :
      (limits : Limits F) (o : Intent F) (t : EntryType) (entry : F) (r : Resolved F)
      → rewarded limits o t entry ≡ ok (some r)
      → IsResolved o r
  unfolding rewarded sized
  rewarded-IsResolved limits o t entry r h = ground arith

  entered-IsResolved :
      (limits : Limits F) (o : Intent F) (candle : Candle F) (x : Option (EntryType × Option F))
      (r : Resolved F)
      → entered limits o candle x ≡ ok (some r)
      → IsResolved o r
  unfolding entered
  entered-IsResolved limits o candle none r h = ground arith
  entered-IsResolved limits o candle (some (t, some entry)) r h =
      rewarded-IsResolved limits o t entry r h
  entered-IsResolved limits o candle (some (t, none)) r h =
      ground (arith, rewarded-IsResolved limits o t candle.close r)

  -- An order that resolves keeps the side, the stop and the target of its intent; its stop is apart
  -- from its entry, its ratio of reward to risk is computed from them and not below the least one, and
  -- its notional is not below the least notional.
  pub resolve_order-IsResolved :
      (limits : Limits F) (o : Intent F) (candle : Candle F) (r : Resolved F)
      → resolve_order limits (intended o) candle ≡ ok (some r)
      → IsResolved o r
  unfolding resolve_order resolve_intent
  resolve_order-IsResolved limits o candle r h =
      entered-IsResolved limits o candle (triggered o candle) r h

  execution_risk-unrisked :
      (cfg : RiskConfig F) (s : State F)
      → (execution_risk cfg s).order ≢ refused Refusal.blocked_by_risk_pct
  unfolding execution_risk offer
  execution_risk-unrisked cfg s = grind arith

  age_trigger-unrisked :
      (n : ℕ) (s : State F)
      → s.order ≢ refused Refusal.blocked_by_risk_pct
      → (age_trigger n s).1.order ≢ refused Refusal.blocked_by_risk_pct
  unfolding age_trigger
  age_trigger-unrisked n s h = ground arith

  -- The gate on the requested risk never refuses an order, however large the risk of the configuration
  -- is, since a resolved order does not carry it: only that 0.0 is not above 0.02 is used.
  pub decide_unrisked :
      (cfg : RiskConfig F) (limits : Limits F) (max_bars : ℕ) (candle : Candle F) (s : State F)
      → gt {F = F} nought (lit 2 100) ≡ false
      → (decide cfg limits max_bars candle s).1.order ≢ refused Refusal.blocked_by_risk_pct
  unfolding decide risk_gate
  decide_unrisked cfg limits max_bars candle s h =
      ground (
        arith,
        age_trigger-unrisked max_bars (execution_risk cfg s) (execution_risk-unrisked cfg s),
      )

  unfoldable pub step_bar : RiskConfig F → Limits F → ℕ → ℕ → State F → Bar F → State F
  step_bar cfg limits max_keep max_bars s x =
      let s' = record (keep_candle max_keep s x.candle) { flags = x.flags; setup = x.setup } in
      (decide cfg limits max_bars x.candle s').1

  -- The orders of a sequence of candles.
  unfoldable pub orders :
      RiskConfig F → Limits F → ℕ → ℕ → State F → List (Bar F) → List (Decision F)
  orders cfg limits max_keep max_bars s [] = []
  orders cfg limits max_keep max_bars s (x ∷ xs) =
      let s' = step_bar cfg limits max_keep max_bars s x in
      s'.order ∷ orders cfg limits max_keep max_bars s' xs

  -- No trade is open, the last one stood when as many candles as fit were kept, and they still are.
  pub record IsStuck (max_keep : ℕ) (s : State F) : Type 0 where
    pub idle : s.trade_id ≡ none
    pub full : length s.candles ≡ max_keep
    pub last : s.last_trade_bar ≡ max_keep

  keep_candle-IsStuck :
      (max_keep : ℕ) (s : State F) (candle : Candle F)
      → IsStuck max_keep s
      → IsStuck max_keep (keep_candle max_keep s candle)
  unfolding keep_candle
  keep_candle-IsStuck max_keep s candle h = record {
    idle = h.idle;
    full = omega (
      arith,
      h.full,
      length-last_n max_keep (s.candles ++ candle ∷ []),
      length-append s.candles (candle ∷ []),
    );
    last = h.last;
  }

  execution_risk-IsStuck :
      (cfg : RiskConfig F) (max_keep : ℕ) (s : State F)
      → IsStuck max_keep s
      → IsStuck max_keep (execution_risk cfg s) × (goes (execution_risk cfg s).order ≡ false)
  unfolding execution_risk
  execution_risk-IsStuck cfg max_keep s h = ground arith

  decide-IsStuck :
      (cfg : RiskConfig F) (limits : Limits F) (max_keep max_bars : ℕ) (candle : Candle F)
      (s : State F)
      → IsStuck max_keep s
      → IsStuck max_keep (decide cfg limits max_bars candle s).1
        × (goes (decide cfg limits max_bars candle s).1.order ≡ false)
  unfolding decide age_trigger resolve_order risk_gate
  decide-IsStuck cfg limits max_keep max_bars candle s h =
      ground (arith, execution_risk-IsStuck cfg max_keep s h)

  -- Once the history is as long as it may get and a trade was open then, the cooldown never ends: on
  -- whatever candles, flags and setups follow, no order goes any more.
  pub orders_cooldown_forever :
      (cfg : RiskConfig F) (limits : Limits F) (max_keep max_bars : ℕ) (s : State F)
      (xs : List (Bar F))
      → IsStuck max_keep s
      → All (λ o. goes o ≡ false) (orders cfg limits max_keep max_bars s xs)
  unfolding orders step_bar
  orders_cooldown_forever cfg limits max_keep max_bars s [] h = tt
  orders_cooldown_forever cfg limits max_keep max_bars s (x ∷ xs) h =
      let stuck = keep_candle-IsStuck max_keep s x.candle h in
      let s' = record (keep_candle max_keep s x.candle) { flags = x.flags; setup = x.setup } in
      let both =
        decide-IsStuck cfg limits max_keep max_bars x.candle s'
          (record { idle = stuck.idle; full = stuck.full; last = stuck.last }) in
      (
        both.1,
        orders_cooldown_forever cfg limits max_keep max_bars
            (decide cfg limits max_bars x.candle s').1 xs both.0,
      )
