-- ===== src/Agents/Gate.antt =====
-- agents/risk_gate.py, and the part of `Supervisor.step` (agents/supervisor.py) from the candle's
-- arrival to the order that the broker sees, around the agents that find a setup.
use btc_laptop_agents.Prelude.{
  ℕ, ◌+◌ as add, Bool, true, false, Option, none, some, [], ◌∷◌, ◌++◌, Result, ok, err, last_n, leb,
  if◌then◌else◌,
}
use btc_laptop_agents.Float.{Float, nought, lit, gt}
use btc_laptop_agents.Trading.Market.{Candle}
use btc_laptop_agents.Agents.Types.{
  is_blocker, Decision, nothing, refused, intended, resolved, Resolved, goes, Refusal, State,
}
use btc_laptop_agents.Agents.Sentinel.{any_flag, RiskConfig, execution_risk}
use btc_laptop_agents.Agents.Resolve.{Limits, resolve_order}

module _ {F : Type 0} ⦃fl : Float F⦄ where
  -- `order.get("risk_pct", 0.0)`
  abbrev pub requested_risk : Decision F → F
  requested_risk (intended o) = o.risk_pct
  requested_risk _ = nought

  unfoldable pub risk_gate : State F → State F
  risk_gate s =
      if goes s.order
      then (if any_flag is_blocker s.flags
          then record s { order = refused Refusal.blocked_by_flags }
          else if gt (requested_risk s.order) (lit 2 100)
          then record s { order = refused Refusal.blocked_by_risk_pct }
          else s)
      else s

  -- The candles kept: the last `max_keep`.
  unfoldable pub keep_candle : ℕ → State F → Candle F → State F
  keep_candle max_keep s candle = record s { candles = last_n max_keep (s.candles ++ candle ∷ []) }

  abbrev pub pends : Decision F → Bool
  pends (intended o) = o.pending_trigger
  pends _ = false

  -- The life of a pending trigger: whether it expired, beside the state.
  unfoldable pub age_trigger : ℕ → State F → Bool × State F
  age_trigger max_bars s =
      if pends s.order
      then (let s' = record s { pending_trigger_bars = add s.pending_trigger_bars 1 } in
          if leb max_bars s'.pending_trigger_bars
          then (true, record s' { order = refused Refusal.pending_trigger_expired })
          else (false, s'))
      else (false, record s { pending_trigger_bars = 0 })

  abbrev pub as_decision : Option (Resolved F) → Decision F
  as_decision none = nothing
  as_decision (some r) = resolved r

  -- From the execution sentinel to the risk gate.
  unfoldable pub decide : RiskConfig F → Limits F → ℕ → Candle F → State F → Result Bool × State F
  decide cfg limits max_bars candle s =
      let (expired, s1) = age_trigger max_bars (execution_risk cfg s) in
      elim (resolve_order limits s1.order candle) [
        | err e ↦ (err e, s1)
        | ok r ↦ (ok expired, risk_gate (record s1 { order = as_decision r }))
      ]
