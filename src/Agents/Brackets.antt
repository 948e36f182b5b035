-- ===== src/Agents/Brackets.antt =====
-- Where the stop of a setup stands, from the candles to the order that the broker sees.
use btc_laptop_agents.Prelude.{
  ℕ, Bool, ◌≡◌, refl, sym, true, some, List, ok, bind-ok, last?, last?-map, arith,
}
use btc_laptop_agents.Float.{Float, nought, ◌*◌, ◌-◌, ◌+◌, ◌//◌}
use btc_laptop_agents.Float.Laws.{IsOrdered, ◌≼◌, ◌≺◌, le-lt-trans, lt-le-trans}
use btc_laptop_agents.Trading.Market.{Candle}
use btc_laptop_agents.Paper.Types.{Side, long, short, other}
use btc_laptop_agents.Agents.Types.{Setup, market, limit}
use btc_laptop_agents.Agents.Indicators.{
  Sweep, swept_high, swept_low, no_sweep, swept, detect_sweep,
}
use btc_laptop_agents.Agents.Context.{Context, Divergence, market_intake}
use btc_laptop_agents.Agents.Setups.{
  PullbackConfig, SweepConfig, SetupConfig, chosen, range_of, pullback, pullback_long,
  pullback_short, filtered, reclaim, sweep_setup, weigh, setup_signal,
}

-- The stop stands on the losing side of the entry.
abbrev pub StopBehind : {F : Type 0} ⦃fl : Float F⦄ → Side → F → F → Type 0
StopBehind long entry sl = sl ≺ entry
StopBehind short entry sl = entry ≺ sl
StopBehind (other _) entry sl = ⊥

-- A distance that a stop may be moved by: finite and not negative.
pub record IsMargin {F : Type 0} ⦃fl : Float F⦄ (x : F) : Type 0 where
  pub finite : fl.is_finite x ≡ true
  pub nonneg : nought ≼ x

-- A level that the last close came back over, or under.
abbrev pub IsReclaimed : {F : Type 0} ⦃fl : Float F⦄ → F → Sweep F → Type 0
IsReclaimed px no_sweep = Unit
IsReclaimed px (swept_high m) = px ≺ m
IsReclaimed px (swept_low m) = m ≺ px

module _ {F : Type 0} ⦃fl : Float F⦄ (laws : IsOrdered F) where
  swept-IsReclaimed : (hi lo : F) (curr : Candle F) → IsReclaimed curr.close (swept hi lo curr)
  unfolding swept
  swept-IsReclaimed hi lo curr = ground arith

  filtered-chosen :
      (against volume confirmed : Bool) (x y : Setup F)
      → filtered against volume confirmed x ≡ chosen y
      → x ≡ y
  unfolding filtered
  filtered-chosen against volume confirmed x y h = ground arith

  reclaim-StopBehind :
      (cfg : SweepConfig F) (a price : F) (candles : List (Candle F)) (d : Divergence)
      (sweep : Sweep F) (x : Setup F)
      → IsMargin (a * cfg.stop_atr_mult)
      → IsReclaimed price sweep
      → reclaim cfg a price candles d sweep ≡ chosen x
      → (x.entry ≡ price) × StopBehind x.side x.entry x.sl
  unfolding reclaim
  reclaim-StopBehind cfg a price candles d no_sweep x m r h = ground arith
  reclaim-StopBehind cfg a price candles d (swept_low level) x m r h =
      let n = (laws.number_of_le level price (laws.le_of_lt level price r)).0 in
      let below = laws.minus_le level (a * cfg.stop_atr_mult) m.finite m.nonneg n in
      let e = filtered-chosen _ _ _ _ x h in
      rw (sym e) (refl, le-lt-trans laws (level - a * cfg.stop_atr_mult) level price below r)
  reclaim-StopBehind cfg a price candles d (swept_high level) x m r h =
      let n = (laws.number_of_le price level (laws.le_of_lt price level r)).1 in
      let above = laws.le_plus level (a * cfg.stop_atr_mult) m.finite m.nonneg n in
      let e = filtered-chosen _ _ _ _ x h in
      rw (sym e) (refl, lt-le-trans laws price level (level + a * cfg.stop_atr_mult) r above)

  detect_sweep-IsReclaimed :
      (candles : List (Candle F)) (curr : Candle F) (lookback : ℕ) (sweep : Sweep F)
      → last? candles ≡ some curr
      → detect_sweep candles lookback ≡ ok sweep
      → IsReclaimed curr.close sweep
  unfolding detect_sweep
  detect_sweep-IsReclaimed candles curr lookback sweep l h = grind (arith, swept-IsReclaimed)

  sweep_setup-StopBehind :
      (cfg : SweepConfig F) (a : F) (candles : List (Candle F)) (curr : Candle F) (d : Divergence)
      (x : Setup F)
      → last? candles ≡ some curr
      → IsMargin (a * cfg.stop_atr_mult)
      → sweep_setup cfg a curr.close candles d ≡ ok (chosen x)
      → (x.entry ≡ curr.close) × StopBehind x.side x.entry x.sl
  unfolding sweep_setup
  sweep_setup-StopBehind cfg a candles curr d x l m h =
      let judge = λ (sweep : Sweep F). reclaim cfg a curr.close candles d sweep in
      let (sweep, e, k) =
        bind-ok (detect_sweep candles cfg.lookback_bars) (λ sweep. ok (judge sweep)) (chosen x)
          (ground arith) in
      let done : judge sweep ≡ chosen x = ground arith in
      reclaim-StopBehind cfg a curr.close candles d sweep x m
        (detect_sweep-IsReclaimed candles curr cfg.lookback_bars sweep l e) done

  pullback-limit :
      (cfg : PullbackConfig F) (a : F) (ctx : Context F) (x : Setup F)
      → pullback cfg a ctx ≡ some x
      → x.entry_type ≡ limit
  unfolding pullback pullback_long pullback_short
  pullback-limit cfg a ctx x h = ground arith

  market_intake-price :
      (tol : F) (candles : List (Candle F)) (curr : Candle F) (ctx : Context F)
      → last? candles ≡ some curr
      → market_intake tol candles ≡ ok ctx
      → ctx.price ≡ curr.close
  unfolding market_intake
  market_intake-price tol candles curr ctx l h =
      ground (arith, last?-map (λ (c : Candle F). c.close) candles curr l)

  weigh-sweep :
      (cfg : SetupConfig F) (ctx : Context F) (candles : List (Candle F)) (d : Divergence)
      (a share : F) (x : Setup F)
      → weigh cfg ctx candles d a share ≡ ok (chosen x)
      → x.entry_type ≡ market
      → sweep_setup cfg.sweep_invalidation a ctx.price candles d ≡ ok (chosen x)
  unfolding weigh
  weigh-sweep cfg ctx candles d a share x h t =
      ground (arith, pullback-limit cfg.pullback_ribbon a ctx x)

  pub setup_signal-StopBehind :
      (cfg : SetupConfig F) (tol : F) (candles : List (Candle F)) (curr : Candle F)
      (ctx : Context F) (d : Divergence) (x : Setup F)
      → last? candles ≡ some curr
      → market_intake tol candles ≡ ok ctx
      → IsMargin (range_of ctx candles * cfg.sweep_invalidation.stop_atr_mult)
      → setup_signal cfg ctx candles d ≡ ok (chosen x)
      → x.entry_type ≡ market
      → (x.entry ≡ curr.close) × StopBehind x.side x.entry x.sl
  unfolding setup_signal
  setup_signal-StopBehind cfg tol candles curr ctx d x l i m h t =
      let p = market_intake-price tol candles curr ctx l i in
      let a = range_of ctx candles in
      let (share, e, k) = bind-ok (a // ctx.price) (weigh cfg ctx candles d a) (chosen x) h in
      let s = weigh-sweep cfg ctx candles d a share x k t in
      sweep_setup-StopBehind cfg.sweep_invalidation a candles curr d x l m (rw (sym p) s)
