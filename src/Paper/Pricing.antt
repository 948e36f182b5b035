-- ===== src/Paper/Pricing.antt =====
-- The prices of `_try_fill` in paper/broker.py: the base price, the cap on the quantity, and the
-- slippage, which draws from the generator.
use btc_laptop_agents.Prelude.{Bool, true, false, Option, none, some, ◌&&◌, if◌then◌else◌}
use btc_laptop_agents.Float.{Float, lit, nought, one, ◌+◌, ◌-◌, ◌*◌, ◌/◌, neg, le, gt, truthy, min}
use btc_laptop_agents.Host.{Host}
use btc_laptop_agents.Trading.Market.{Candle, Tick}
use btc_laptop_agents.Trading.Costs.{apply_slippage}
use btc_laptop_agents.Paper.Types.{Order, FillEvent, is_long, is_market}

module _ {F : Type 0} ⦃fl : Float F⦄ where
  -- `tick and tick.bid and tick.ask`
  abbrev pub quoted : Option (Tick F) → Bool
  quoted none = false
  quoted (some t) = truthy t.bid && truthy t.ask

  -- The price of a market order with no usable tick: the close, with half the spread.
  abbrev pub spread_price : F → Candle F → Bool → F
  spread_price slip_bps candle buys =
      let half = if gt slip_bps nought then lit 5 1 else nought in
      if buys
      then candle.close * (one + half / lit 10_000 1)
      else candle.close * (one - half / lit 10_000 1)

  -- The price before slippage; none where a limit is not touched.
  unfoldable pub base_price : F → Order F → Candle F → Option (Tick F) → Option F
  base_price slip_bps o candle tick =
      if is_market o.entry_type
      then some (elim tick [
        | none ↦ spread_price slip_bps candle (is_long o.side)
        | some t ↦
            if truthy t.bid && truthy t.ask
            then (if is_long o.side then t.ask else t.bid)
            else spread_price slip_bps candle (is_long o.side)
      ])
      else if le candle.low o.entry && le o.entry candle.high
      then some o.entry
      else none

  -- A tenth of the candle's volume at most.
  unfoldable pub capped_qty : Order F → Candle F → F
  capped_qty o candle =
      min o.qty (if gt candle.volume nought then candle.volume * lit 1 10 else o.qty)

  unfoldable pub impact_price : F → Order F → F → F → F
  impact_price slip_bps o actual_qty px =
      let impact = actual_qty * px / lit 1_000_000 1 * lit 5 100 in
      if gt slip_bps nought
      then (if is_long o.side then px * (one + impact) else px * (one - impact))
      else px

module _ {F W : Type 0} ⦃fl : Float F⦄ ⦃host : Host F W (FillEvent F)⦄ where
  -- The randomised slippage of a market order.
  unfoldable pub market_slippage : F → Order F → F → W → F × W
  market_slippage slip_bps o px w =
      let (bps, w') = host.uniform (lit 5 10) (lit 15 10) w in
      if is_market o.entry_type && gt slip_bps nought
      then (px * (one + bps / lit 10_000 1 * (if is_long o.side then one else neg one)), w')
      else (px, w)

  -- The jitter of a quoted market order; else a multiple of `actual_slip_bps`, which is 0.0 on every
  -- path.
  unfoldable pub effective_slip : Order F → Option (Tick F) → W → F × W
  effective_slip o tick w =
      if quoted tick && is_market o.entry_type
      then host.uniform nought (lit 2 10) w
      else let (factor, w') = host.uniform (lit 5 10) (lit 15 10) w in (nought * factor, w')

  -- From the base price to the price of the fill.
  unfoldable pub fill_price : F → Order F → Option (Tick F) → F → F → W → F × W
  fill_price slip_bps o tick actual_qty px w =
      let (px1, w1) = market_slippage slip_bps o px w in
      let px2 = impact_price slip_bps o actual_qty px1 in
      let (slip, w2) = effective_slip o tick w1 in
      let (_, w3) = host.randint 50 500 w2 in (apply_slippage px2 true (is_long o.side) slip, w3)
