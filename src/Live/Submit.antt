-- ===== src/Live/Submit.antt =====
-- The first half of `BitunixBroker.on_candle` (execution/bitunix_broker.py): the checks of an order,
-- and its submission.
use btc_laptop_agents.Prelude.{
  Bool, false, not, ◌||◌, ◌&&◌, Option, none, some, [], ◌∷◌, ◌++◌, length, leb, if◌then◌else◌,
}
use btc_laptop_agents.Float.{Float, nought, lit, ◌-◌, ◌*◌, ◌/◌, lt, le, gt, truthy, or_else}
use btc_laptop_agents.Trading.Market.{Candle}
use btc_laptop_agents.Paper.Types.{Order}
use btc_laptop_agents.Paper.Broker.{max_orders_per_minute, max_daily_loss_pct}
use btc_laptop_agents.Paper.Risk.{recent}
use btc_laptop_agents.Live.Types.{
  Problem, rate_limit_exceeded, daily_loss, notional_exceeded, leverage_exceeded, not_a_number,
  provider_failed, Attempt, done, failed, ◌>>=◌, Instrument, Request, open_order, Exchange,
  call_raised, no_data, accepted, LiveBroker,
}

module _ {F : Type 0} ⦃fl : Float F⦄ where
  -- `_round_step`; `round` raises where its argument is not finite.
  unfoldable pub round_step : F → F → Attempt F
  round_step val step =
      if not (truthy step) || le step nought
      then done val
      else if fl.is_finite (val / step)
      then done (fl.round_to (fl.nearest (val / step) * step) 8)
      else failed not_a_number

  -- A stop or a target, where the order has one.
  unfoldable pub round_optional : F → F → Attempt (Option F)
  round_optional val step =
      if truthy val then (do x ← round_step val step; done (some x)) else done none

  -- `order.get("entry") or float(candle.close)`, in whole ticks
  unfoldable pub rounded_price : Instrument F → Order F → Candle F → Attempt F
  rounded_price info o candle =
      round_step (if truthy o.entry then o.entry else candle.close) info.tick_size

  -- The quantity in whole lots, and not below the least.
  unfoldable pub rounded_qty : Instrument F → Order F → Attempt F
  rounded_qty info o = do
    q ← round_step o.qty info.lot_size
    done (if lt q info.min_qty then info.min_qty else q)

module _ {F W : Type 0} ⦃fl : Float F⦄ where
  -- The hard limits on the notional and the leverage.
  unfoldable pub limits_broken : LiveBroker F W → Order F → F → Option Problem
  limits_broken b o notional =
      if gt notional b.limits.max_position_size_usd
      then some notional_exceeded
      else if gt (notional / or_else o.equity (lit 10_000 1)) b.limits.max_leverage
      then some leverage_exceeded
      else none

  -- The order that is sent, from the instrument's steps on.
  unfoldable pub prepared : LiveBroker F W → Instrument F → Order F → Candle F → Attempt (Request F)
  prepared b info o candle = do
    px ← rounded_price info o candle
    qty ← rounded_qty info o
    elim (limits_broken b o (qty * px)) [
      | some e ↦ failed e
      | none ↦ (do
        sl ← round_optional o.sl info.tick_size
        tp ← round_optional o.tp info.tick_size
        done (open_order o.side qty o.entry_type px sl tp))
    ]

  -- `starting_equity`, set by the first order with an equity where it was None.
  abbrev pub with_start : LiveBroker F W → F → LiveBroker F W
  with_start b equity = elim b.starting_equity [
    | some _ ↦ b
    | none ↦ if gt equity nought then record b { starting_equity = some equity } else b
  ]

  -- Whether the daily loss is above the limit.
  unfoldable pub is_lossy : LiveBroker F W → F → Bool
  is_lossy b equity = elim b.starting_equity [
    | none ↦ false
    | some start ↦
        truthy start
        && gt equity nought
        && gt ((start - equity) / start * lit 100 1) max_daily_loss_pct
  ]

module _ {F W : Type 0} ⦃fl : Float F⦄ (ex : Exchange F W) where
  -- `_get_info`
  unfoldable pub get_info : LiveBroker F W → Option (Instrument F) × LiveBroker F W
  get_info b = elim b.instrument_info [
    | some info ↦ (some info, b)
    | none ↦
        let (r, w) = ex.fetch_instrument_info b.world in
        elim r [
          | none ↦ (none, record b { world = w })
          | some info ↦ (some info, record b { world = w; instrument_info = some info })
        ]
  ]

  -- `provider.place_order`, and the id of the response.
  unfoldable pub send : LiveBroker F W → Request F → Attempt (Request F) × LiveBroker F W
  send b q =
      let (r, w) = ex.place_order q b.world in
      elim r [
        | call_raised ↦ (failed provider_failed, record b { world = w })
        | no_data ↦ (done q, record b { world = w })
        | accepted id ↦ (done q, record b { world = w; last_order_id = id })
      ]

  -- The checks passed: prices and quantities are rounded, and the order is sent.
  unfoldable pub prepare_and_send :
      LiveBroker F W → Order F → Candle F → Attempt (Request F) × LiveBroker F W
  prepare_and_send b o candle =
      let (info, b') = get_info b in
      elim info [
        | none ↦ (failed provider_failed, b')
        | some i ↦ elim (prepared b' i o candle) [ failed e ↦ (failed e, b') | done q ↦ send b' q ]
      ]

  -- The order generation time, which the first attempt sets.
  abbrev pub stamped : LiveBroker F W → LiveBroker F W
  stamped b = elim b.order_generated_at [
    | some _ ↦ b
    | none ↦ record b { order_generated_at = some (ex.time b.world) }
  ]

  -- An order for a broker with no position: the rate limit, the daily loss, and the rest.
  unfoldable pub submit : LiveBroker F W → Order F → Candle F → Attempt (Request F) × LiveBroker F W
  submit b o candle =
      let now = ex.time b.world in
      let kept = recent now b.order_timestamps in
      if leb max_orders_per_minute (length kept)
      then (failed rate_limit_exceeded, record b { order_timestamps = kept })
      else (let equity = or_else o.equity nought in
          let b1 = with_start (record b { order_timestamps = kept ++ now ∷ [] }) equity in
          if is_lossy b1 equity
          then (failed daily_loss, b1)
          else prepare_and_send (stamped b1) o candle)
