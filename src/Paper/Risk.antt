-- ===== src/Paper/Risk.antt =====
-- paper/broker_risk.py: `validate_risk_limits`, in the order of its checks. It changes the broker's
-- `order_timestamps` only, so it returns the verdict and the new list.
pub mod Limits
use btc_laptop_agents.Prelude.{
  Bool, true, false, List, [], ◌∷◌, ◌++◌, ◌||◌, ◌&&◌, not, if◌then◌else◌, Result, ok, ◌>>=◌,
  ◌and_then◌, length, leb, keep_if, none, some,
}
use btc_laptop_agents.Float.{Float, lit, nought, ◌-◌, ◌*◌, ◌//◌, abs, lt, le, gt, ge, truthy}
use btc_laptop_agents.Trading.Market.{Candle}
use btc_laptop_agents.Paper.Types.{Order, is_long, is_short}
use btc_laptop_agents.Paper.Broker.{
  Broker, max_orders_per_minute, max_position_abs, max_daily_loss_pct, max_single_trade_loss_usd,
}

-- A rejection where the test holds.
abbrev pub reject_if : Bool → Result Bool
reject_if b = ok (not b)

module _ {F : Type 0} ⦃fl : Float F⦄ where
  -- The timestamps of the last minute.
  unfoldable pub recent : F → List F → List F
  recent now stamps = keep_if (λ t. lt (now - t) (lit 60 1)) stamps

  -- The rate limit: the timestamps kept, and whether the order passes.
  unfoldable pub admit_rate : F → List F → Bool × List F
  admit_rate now stamps =
      let kept = recent now stamps in
      if leb max_orders_per_minute (length kept) then (false, kept) else (true, kept ++ now ∷ [])

  -- The fields of the order, and the cap on the loss of one trade.
  unfoldable pub check_order : Order F → Result Bool
  check_order o =
      reject_if (not (is_long o.side || is_short o.side))
      and_then reject_if (le o.sl nought || le o.tp nought)
      and_then reject_if (
          not
            (fl.is_finite o.entry && fl.is_finite o.qty && fl.is_finite o.sl && fl.is_finite o.tp))
      and_then reject_if (le o.qty nought || le o.entry nought)
      and_then reject_if (gt (abs (o.entry - o.sl) * o.qty) max_single_trade_loss_usd)

module _ {F W : Type 0} ⦃fl : Float F⦄ where
  -- The trade interval, for orders that are not working ones.
  unfoldable pub check_interval : Broker F W → F → Bool → Result Bool
  check_interval b now is_working =
      reject_if (not is_working && lt (now - b.last_trade_time) b.min_trade_interval_sec)

  -- The daily loss, in dollars and in percent.
  unfoldable pub check_loss : Broker F W → F → Result Bool
  check_loss b equity =
      let drawdown_usd = b.starting_equity - equity in
      reject_if (truthy b.starting_equity && ge drawdown_usd b.limits.max_daily_loss_usd)
      and_then (do
        ratio ← drawdown_usd // b.starting_equity
        reject_if (gt (ratio * lit 100 1) max_daily_loss_pct))

  abbrev pub cap_of : Broker F W → F
  cap_of b = elim b.symbol_cap [ none ↦ max_position_abs | some c ↦ c ]

  -- The position cap, the price estimate, the notional and the leverage.
  unfoldable pub check_size : Broker F W → Order F → Candle F → F → Result Bool
  check_size b order candle equity =
      let notional = order.qty * candle.close in
      reject_if (gt order.qty (cap_of b))
      and_then reject_if (le candle.close nought)
      and_then reject_if (gt notional b.limits.max_position_size_usd)
      and_then (do leverage ← notional // equity; reject_if (gt leverage b.limits.max_leverage))

  -- `now` is the reading of `time.time()`.
  unfoldable pub validate_risk_limits :
      Broker F W → F → Order F → Candle F → F → Bool → Result Bool × List F
  validate_risk_limits b now order candle equity is_working =
      let (admitted, stamps) = admit_rate now b.order_timestamps in
      (
        reject_if (not admitted)
            and_then check_interval b now is_working
            and_then check_loss b equity
            and_then check_size b order candle equity
            and_then check_order order,
        stamps,
      )
