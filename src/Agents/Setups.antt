-- ===== src/Agents/Setups.antt =====
-- agents/setup_signal.py: the setup that is chosen. Of a setup, what the later agents read.
use btc_laptop_agents.Prelude.{
  ℕ, String, Bool, true, false, not, ◌&&◌, ◌||◌, Option, none, some, List, Result, ok, ◌>>=◌, map,
  length, last_n, last?, ltb, if◌then◌else◌,
}
use btc_laptop_agents.Float.{
  Float, lit, nought, ◌+◌, ◌-◌, ◌*◌, ◌/◌, ◌//◌, abs, lt, gt, ge, truthy, sum, or_else,
}
use btc_laptop_agents.Trading.Market.{Candle}
use btc_laptop_agents.Paper.Types.{Side, long, short}
use btc_laptop_agents.Agents.Types.{Setup, EntryType, limit, market, other_trigger}
use btc_laptop_agents.Agents.Indicators.{
  closes, ema, atr, vwap, Sweep, no_sweep, swept_high, swept_low, detect_sweep,
}
use btc_laptop_agents.Agents.Context.{Trend, Context, both, Divergence}

pub record PullbackConfig (F : Type 0) : Type 0 where
  pub enabled : Bool
  pub stop_atr_mult : F
  pub tp_r_mult : F

pub record SweepConfig (F : Type 0) : Type 0 where
  pub enabled : Bool
  pub lookback_bars : ℕ
  pub require_cvd_confirm : Bool
  pub min_vol_ratio : F
  pub stop_atr_mult : F

pub record SetupConfig (F : Type 0) : Type 0 where
  pub pullback_ribbon : PullbackConfig F
  pub sweep_invalidation : SweepConfig F

pub data Reason : Type 0 where
  low_volatility no_conditions ema_filter_blocked volume_filter_blocked : Reason
  cvd_confirmation_failed : Reason

-- `state.setup`: flat with a reason, or a setup.
pub data Chosen (F : Type 0) : Type 0 where
  flat : Reason → Chosen F
  chosen : Setup F → Chosen F

-- The setup that the later agents see.
abbrev pub as_setup : {F : Type 0} → Chosen F → Option (Setup F)
as_setup (flat r) = none
as_setup (chosen x) = some x

abbrev pub is_bullish : Divergence → Bool
is_bullish Divergence.bullish = true
is_bullish _ = false

abbrev pub is_bearish : Divergence → Bool
is_bearish Divergence.bearish = true
is_bearish _ = false

module _ {F : Type 0} ⦃fl : Float F⦄ where
  abbrev pub make_setup : String → Side → EntryType → F → F → F → Setup F
  make_setup name side t entry sl tp = record {
    name = name;
    side = side;
    entry_type = t;
    entry = entry;
    sl = sl;
    tp = tp;
    trigger = other_trigger;
  }

  -- `ctx.get("atr") or atr(candles, 14) or (price * 0.004)`
  abbrev pub range_of : Context F → List (Candle F) → F
  range_of ctx candles = or_else ctx.atr (or_else (atr candles 14) (ctx.price * lit 4 1000))

  -- The pullback to the average, bought in an uptrend and sold in a downtrend.
  unfoldable pub pullback_long : PullbackConfig F → F → F → Setup F
  pullback_long cfg a entry =
      let sl = entry - a * cfg.stop_atr_mult in
      make_setup "pullback_ribbon" long limit entry sl (entry + abs (entry - sl) * cfg.tp_r_mult)

  unfoldable pub pullback_short : PullbackConfig F → F → F → Setup F
  pullback_short cfg a entry =
      let sl = entry + a * cfg.stop_atr_mult in
      make_setup "pullback_ribbon" short limit entry sl (entry - abs (entry - sl) * cfg.tp_r_mult)

  unfoldable pub pullback : PullbackConfig F → F → Context F → Option (Setup F)
  pullback cfg a ctx = elim ctx.ema20 [
    | none ↦ none
    | some entry ↦
        if cfg.enabled && truthy entry
        then elim ctx.trend [
          | Trend.up ↦ some (pullback_long cfg a entry)
          | Trend.down ↦ some (pullback_short cfg a entry)
          | _ ↦ none
        ]
        else none
  ]

  -- `vwap(candles[-60:])[-1]`, or the price where there is no candle.
  abbrev pub session_vwap : List (Candle F) → F → F
  session_vwap candles price = elim (last? (vwap (last_n 60 candles))) [ none ↦ price | some v ↦ v ]

  unfoldable pub trend_down : List F → Bool
  trend_down xs = elim (both (ema xs 9) (ema xs 20)) [ none ↦ false | some (f, s) ↦ lt f s ]

  unfoldable pub trend_up : List F → Bool
  trend_up xs = elim (both (ema xs 9) (ema xs 20)) [ none ↦ false | some (f, s) ↦ gt f s ]

  abbrev pub last_volume : List (Candle F) → F
  last_volume candles = elim (last? candles) [ none ↦ nought | some c ↦ c.volume ]

  -- Whether the last candle's volume is a large enough share of the average.
  unfoldable pub volume_ok : F → List (Candle F) → Bool
  volume_ok min_vol_ratio candles =
      let volumes = map (λ (c : Candle F). c.volume) in
      let avg_vol =
        if ltb (length candles) 20 then nought else sum (volumes (last_n 20 candles)) / lit 20 1 in
      ge (last_volume candles) (avg_vol * min_vol_ratio)

  -- The filters that both directions share: the trend against it, the volume, the confirmation.
  unfoldable pub filtered : Bool → Bool → Bool → Setup F → Chosen F
  filtered against volume confirmed x =
      if against
      then flat Reason.ema_filter_blocked
      else if not volume
      then flat Reason.volume_filter_blocked
      else if confirmed
      then chosen x
      else flat Reason.cvd_confirmation_failed

  unfoldable pub reclaim : SweepConfig F → F → F → List (Candle F) → Divergence → Sweep F → Chosen F
  reclaim cfg a price candles d no_sweep = flat Reason.no_conditions
  reclaim cfg a price candles d (swept_low level) =
      filtered (trend_down (closes candles)) (volume_ok cfg.min_vol_ratio candles)
        (not cfg.require_cvd_confirm || is_bullish d)
        (make_setup "sweep_reclaim_long" long market price (level - a * cfg.stop_atr_mult)
          (session_vwap candles price))
  reclaim cfg a price candles d (swept_high level) =
      filtered (trend_up (closes candles)) (volume_ok cfg.min_vol_ratio candles)
        (not cfg.require_cvd_confirm || is_bearish d)
        (make_setup "sweep_reclaim_short" short market price (level + a * cfg.stop_atr_mult)
          (session_vwap candles price))

  -- The second setup, looked for where the first was not chosen.
  unfoldable pub sweep_setup :
      SweepConfig F → F → F → List (Candle F) → Divergence → Result (Chosen F)
  sweep_setup cfg a price candles d =
      if cfg.enabled
      then (do
        sweep ← detect_sweep candles cfg.lookback_bars
        ok (reclaim cfg a price candles d sweep))
      else ok (flat Reason.no_conditions)

  -- Once the volatility is known.
  unfoldable pub weigh :
      SetupConfig F → Context F → List (Candle F) → Divergence → F → F → Result (Chosen F)
  weigh cfg ctx candles d a share =
      if lt share (lit 1 10_000)
      then ok (flat Reason.low_volatility)
      else elim (pullback cfg.pullback_ribbon a ctx) [
        | some x ↦ ok (chosen x)
        | none ↦ sweep_setup cfg.sweep_invalidation a ctx.price candles d
      ]

  -- `run`
  unfoldable pub setup_signal :
      SetupConfig F → Context F → List (Candle F) → Divergence → Result (Chosen F)
  setup_signal cfg ctx candles d =
      let a = range_of ctx candles in (do share ← a // ctx.price; weigh cfg ctx candles d a share)
