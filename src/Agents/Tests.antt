-- ===== src/Agents/Tests.antt =====
-- Runs of the order pipeline on concrete inputs, and the theorems at concrete inputs.
use btc_laptop_agents.Prelude.{◌≡◌, ◌≢◌, inl, refl, false, none, some, List, [], ◌∷◌, All}
use btc_laptop_agents.Prelude.Int.{pos}
use btc_laptop_agents.Float.{min}
use btc_laptop_agents.Float.Fixed.{Fixed, fixed_float}
use btc_laptop_agents.Paper.Types.{long}
use btc_laptop_agents.Paper.Sample.{calm, units}
use btc_laptop_agents.Agents.Types.{
  Setup, other_trigger, limit, Resolved, Decision, nothing, refused, goes, Refusal, State,
}
use btc_laptop_agents.Agents.Derivatives.{Gates, funding_flags}
use btc_laptop_agents.Agents.Sentinel.{
  RiskConfig, execution_risk, offer, entry_of, intent, size_mult,
}
use btc_laptop_agents.Agents.Resolve.{
  Limits, resolve_order, resolve_intent, entered, triggered, triggers, rewarded, sized, limited,
  whole_lots,
}
use btc_laptop_agents.Agents.Gate.{decide, risk_gate, age_trigger, keep_candle}
use btc_laptop_agents.Agents.Pipeline.{
  decide_hot_funding, IsResolved, resolve_order-IsResolved, decide_unrisked, Bar, orders, step_bar,
  orders_cooldown_forever,
}

run_open : Unit {0}
unfolding funding_flags execution_risk offer entry_of intent size_mult resolve_order resolve_intent
    entered triggered triggers rewarded sized limited whole_lots decide risk_gate age_trigger
    keep_candle orders step_bar min
run_open = tt

-- A pullback: buy at 100, the stop at 90, the target at 120.
abbrev pullback : Setup Fixed
pullback = record {
  name = "pullback_ribbon";
  side = long;
  entry_type = limit;
  entry = units 100;
  sl = units 90;
  tp = units 120;
  trigger = other_trigger;
}

-- A tenth of the equity is risked, which is far above two percent.
abbrev config : RiskConfig Fixed
config = record {
  rr_min = units 1;
  equity = units 10_000;
  risk_pct = pos 1000;
  lot_size = some (pos 10);
  min_notional = some (units 5);
}

abbrev limits : Limits Fixed
limits = record { max_position_size_usd = units 200_000; max_leverage = units 1 }

abbrev ready : State Fixed
ready = record {
  candles = calm ∷ calm ∷ calm ∷ calm ∷ calm ∷ [];
  flags = [];
  setup = some pullback;
  order = nothing;
  trade_id = none;
  pending_trigger_bars = 0;
  last_trade_bar = 0;
}

abbrev bought : Resolved Fixed
bought = record {
  side = long;
  entry_type = limit;
  entry = units 100;
  sl = units 90;
  tp = units 120;
  qty = units 100;
  rr = units 2;
  setup = "pullback_ribbon";
}

-- A hundred coins are ordered: the risk of ten percent passes the gate.
risks_a_tenth : (decide config limits 24 calm ready).1.order ≡ Decision.resolved bought
unfolding run_open
risks_a_tenth = refl

decide_unrisked_example :
    (decide config limits 24 calm ready).1.order ≢ refused Refusal.blocked_by_risk_pct
decide_unrisked_example = decide_unrisked config limits 24 calm ready refl

abbrev gates : Gates Fixed
gates = record {
  extreme_funding_8h = none;
  no_trade_funding_8h = pos 5;
  half_size_funding_8h = pos 2;
}

-- A funding of 0.002 is extreme.
abbrev overheated : State Fixed
overheated = record ready { flags = funding_flags gates (some (pos 20)) }

decide_hot_funding_example : goes (decide config limits 24 calm overheated).1.order ≡ false
unfolding run_open
decide_hot_funding_example =
    decide_hot_funding config limits 24 calm overheated gates (pos 20) false refl (inl refl) refl

resolve_order-IsResolved_example :
    IsResolved (intent config [] pullback (some (units 100)) (pos 10) (units 5)) bought
unfolding run_open
resolve_order-IsResolved_example =
    resolve_order-IsResolved limits
      (intent config [] pullback (some (units 100)) (pos 10) (units 5)) calm bought refl

-- A history of five candles at most, in which a trade stood at the fifth.
abbrev stuck : State Fixed
stuck = record ready { last_trade_bar = 5 }

abbrev later : List (Bar Fixed)
later =
    record { candle = calm; flags = []; setup = some pullback }
    ∷ record { candle = calm; flags = []; setup = some pullback }
    ∷ []

orders_cooldown_forever_example : All (λ o. goes o ≡ false) (orders config limits 5 24 stuck later)
orders_cooldown_forever_example =
    orders_cooldown_forever config limits 5 24 stuck later
      (record { idle = refl; full = refl; last = refl })
