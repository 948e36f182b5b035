-- ===== src/Agents/StepTests.antt =====
-- Whole steps of the supervisor on concrete candles, and the theorems at concrete inputs.
use btc_laptop_agents.Prelude.{
  ℕ, ◌+◌, String, ◌≡◌, refl, true, false, Option, none, some, [], ◌∷◌, Result, ok, arith,
}
use btc_laptop_agents.Prelude.Int.{pos}
use btc_laptop_agents.Float.{min, max}
use btc_laptop_agents.Float.Fixed.{Fixed, fixed_float, fixed-IsOrdered}
use btc_laptop_agents.Trading.Market.{Candle}
use btc_laptop_agents.Paper.Types.{long}
use btc_laptop_agents.Paper.Sample.{units}
use btc_laptop_agents.Agents.Types.{
  Setup, market, other_trigger, Resolved, Decision, nothing, resolved,
}
use btc_laptop_agents.Agents.Derivatives.{funding_flags, fetched, refresh, snapshot, flag_funding}
use btc_laptop_agents.Agents.Sentinel.{execution_risk, offer, entry_of, intent, size_mult}
use btc_laptop_agents.Agents.Resolve.{
  resolve_order, resolve_intent, entered, triggered, triggers, rewarded, sized, limited, whole_lots,
}
use btc_laptop_agents.Agents.Gate.{decide, risk_gate, age_trigger, keep_candle}
use btc_laptop_agents.Agents.Indicators.{
  maximum, minimum, ema, true_range, true_ranges, atr, swing_high_low, equal_level, vwap_from, vwap,
  volume_delta, cvd_from, cvd_indicator, swept_low, swept, detect_sweep,
}
use btc_laptop_agents.Agents.Context.{
  Divergence, Context, Trend, Regime, trend_of, regime_of, market_intake, detect_divergence,
  cvd_divergence,
}
use btc_laptop_agents.Agents.Setups.{
  pullback_long, pullback_short, pullback, trend_down, trend_up, volume_ok, filtered, reclaim,
  sweep_setup, weigh, setup_signal,
}
use btc_laptop_agents.Agents.Journal.{
  Events, coach_note, plan_key, open_with, open_plan, log_events, follow, journal_coach,
}
use btc_laptop_agents.Agents.Supervisor.{Config, Desk, observe, ask_broker, carry_out, step}
use btc_laptop_agents.Agents.Sweeps.{IsSweepOf, detect_sweep-IsSweepOf}
use btc_laptop_agents.Agents.Brackets.{StopBehind}
use btc_laptop_agents.Agents.Entries.{EntersAt}
use btc_laptop_agents.Agents.Steps.{step-StopBehind}
use btc_laptop_agents.Agents.Plans.{IsJournal}
use btc_laptop_agents.Agents.Records.{step-IsJournal}

run_open : Unit {0}
unfolding funding_flags fetched refresh snapshot flag_funding execution_risk offer entry_of intent
    size_mult resolve_order resolve_intent entered triggered triggers rewarded sized limited
    whole_lots decide risk_gate age_trigger keep_candle maximum minimum ema true_range true_ranges
    atr swing_high_low equal_level vwap_from vwap volume_delta cvd_from cvd_indicator swept
    detect_sweep trend_of regime_of market_intake detect_divergence cvd_divergence pullback_long
    pullback_short pullback trend_down trend_up volume_ok filtered reclaim sweep_setup weigh
    setup_signal coach_note plan_key open_with open_plan log_events follow journal_coach observe
    ask_broker carry_out step min max
run_open = tt

abbrev bar : ℕ → ℕ → ℕ → Candle Fixed
bar high low close = record {
  ts = "2026-01-01T00:00:00+00:00";
  open_px = units 100;
  high = units high;
  low = units low;
  close = units close;
  volume = units 1;
}

abbrev quiet : Candle Fixed
quiet = bar 101 95 100

-- Under the lows of the window, and back over them.
abbrev sweeper : Candle Fixed
sweeper = bar 111 94 110

detect_sweep-IsSweepOf_example : IsSweepOf (quiet ∷ quiet ∷ []) sweeper (swept_low (units 95))
unfolding run_open
detect_sweep-IsSweepOf_example =
    detect_sweep-IsSweepOf fixed-IsOrdered (quiet ∷ []) (quiet ∷ quiet ∷ []) sweeper
      (swept_low (units 95)) ((refl, (refl, tt)), (refl, (refl, tt))) refl

abbrev config : Config Fixed
config = record {
  eq_tolerance_pct = pos 8;
  cvd_lookback = 20;
  setups = record {
    pullback_ribbon = record { enabled = true; stop_atr_mult = units 1; tp_r_mult = units 2 };
    sweep_invalidation = record {
      enabled = true;
      lookback_bars = 2;
      require_cvd_confirm = false;
      min_vol_ratio = pos 5000;
      stop_atr_mult = pos 5000;
    };
  };
  risk = record {
    rr_min = pos 5000;
    equity = units 10_000;
    risk_pct = pos 100;
    lot_size = some (pos 10);
    min_notional = some (units 5);
  };
  limits = record { max_position_size_usd = units 200_000; max_leverage = units 1 };
  pending_trigger_max_bars = 24;
  max_keep = 800;
}

-- A provider without funding, a broker that reports nothing, and ids that are all the same.
abbrev provider : ℕ → Option (Option Fixed) × ℕ
provider w = (some (some (pos 0)), w + 1)

abbrev on_candle : Candle Fixed → Decision Fixed → ℕ → Result (Events Fixed ℕ) × ℕ
on_candle c d b = (ok (record { fills = []; exits = []; cancels = [] }), b + 1)

abbrev two_places : Fixed → String
two_places x = "0.00"

abbrev new_id : ℕ → String × ℕ
new_id w = ("PT-20260101-000000-0a1b2c", w + 1)

abbrev desk : Desk Fixed ℕ ℕ ℕ
desk = record {
  state = record {
    candles = quiet ∷ quiet ∷ quiet ∷ quiet ∷ quiet ∷ [];
    flags = [];
    setup = none;
    order = nothing;
    trade_id = none;
    pending_trigger_bars = 0;
    last_trade_bar = 0;
  };
  divergence = Divergence.none_seen;
  flows = record {
    gates = record {
      extreme_funding_8h = none;
      no_trade_funding_8h = pos 5;
      half_size_funding_8h = pos 2;
    };
    refresh_bars = 6;
    bar = 0;
    last = none;
  };
  journal = record { last_plan_key = none; lines = [] };
  broker = 0;
  world = 0;
}

step-IsJournal_example :
    IsJournal
      (step provider on_candle two_places new_id config false sweeper desk).1.state
      (step provider on_candle two_places new_id config false sweeper desk).1.journal
step-IsJournal_example =
    step-IsJournal provider on_candle two_places new_id config false sweeper desk
      (record { traced = tt; tracked = tt })

abbrev sweep_long : Setup Fixed
sweep_long = record {
  name = "sweep_reclaim_long";
  side = long;
  entry_type = market;
  entry = units 110;
  sl = pos 947_800;
  tp = pos 997_221;
  trigger = other_trigger;
}

abbrev bought : Resolved Fixed
bought = record {
  side = long;
  entry_type = market;
  entry = units 110;
  sl = pos 947_800;
  tp = pos 997_221;
  qty = pos 65_700;
  rr = pos 6752;
  setup = "sweep_reclaim_long";
}

-- The order buys at 110, and its target, the average price, is under that.
targets_a_loss :
    (step provider on_candle two_places new_id config false sweeper desk).1.state.order
    ≡ resolved bought
unfolding run_open
targets_a_loss = refl

abbrev context : Context Fixed
context = record {
  price = units 110;
  trend = Trend.unknown;
  regime = Regime.unknown;
  ema20 = none;
  ema50 = none;
  swing = some (units 111, units 94);
  eq_high = none;
  eq_low = none;
  atr = none;
  atr_pct = none;
}

abbrev no_news : Events Fixed ℕ
no_news = record { fills = []; exits = []; cancels = [] }

step-StopBehind_example :
    EntersAt (units 110) sweep_long bought × StopBehind long (units 110) (pos 947_800)
unfolding run_open
step-StopBehind_example =
    step-StopBehind fixed-IsOrdered provider on_candle two_places new_id config false sweeper desk
      context no_news sweep_long bought (omega arith) refl (record { finite = refl; nonneg = refl })
      refl refl refl targets_a_loss
