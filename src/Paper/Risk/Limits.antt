-- ===== src/Paper/Risk/Limits.antt =====
-- What it means that `validate_risk_limits` (paper/broker_risk.py) accepts an order, and the bound on
-- the orders of a minute.
use btc_laptop_agents.Prelude.{
  ◌≤◌, ◌<◌, ◌≡◌, ◌⊎◌, Bool, true, false, List, [], ◌∷◌, ◌++◌, ◌||◌, Result, ok, ◌and_then◌, arith,
  length, length-append, length-keep_if,
}
use btc_laptop_agents.Float.{Float, lit, nought, ◌-◌, ◌*◌, ◌/◌, abs, lt, le, gt, ge}
use btc_laptop_agents.Float.Laws.{◌≺◌, IsOrdered}
use btc_laptop_agents.Trading.Market.{Candle}
use btc_laptop_agents.Paper.Types.{Order, is_long, is_short}
use btc_laptop_agents.Paper.Broker.{
  Broker, max_orders_per_minute, max_daily_loss_pct, max_single_trade_loss_usd,
}
use btc_laptop_agents.Paper.Risk.{
  recent, admit_rate, check_interval, check_loss, check_size, check_order, cap_of,
  validate_risk_limits,
}

-- What the checks of the order's own fields leave.
pub record IsSafeOrder {F : Type 0} ⦃fl : Float F⦄ (o : Order F) : Type 0 where
  pub side_known : (is_long o.side || is_short o.side) ≡ true
  pub qty_pos : nought ≺ o.qty
  pub entry_pos : nought ≺ o.entry
  pub sl_pos : nought ≺ o.sl
  pub tp_pos : nought ≺ o.tp
  pub risk_capped : gt (abs (o.entry - o.sl) * o.qty) max_single_trade_loss_usd ≡ false

-- Both arms of a conjunction of checks.
and_then-ok : (r k : Result Bool) → (r and_then k) ≡ ok true → (r ≡ ok true) × (k ≡ ok true)
and_then-ok r k h = ground arith

module _ {F : Type 0} ⦃fl : Float F⦄ (laws : IsOrdered F) where
  positive : (a : F) → fl.is_finite a ≡ true → le a nought ≡ false → nought ≺ a
  positive a f h = laws.lt_of_not_le a nought (laws.number_of_finite a f) laws.nought_number h

  pub check_order_sound : (o : Order F) → check_order o ≡ ok true → IsSafeOrder o
  unfolding check_order
  check_order_sound o h = record {
    side_known = ground arith;
    qty_pos = ground (arith, positive o.qty);
    entry_pos = ground (arith, positive o.entry);
    sl_pos = ground (arith, positive o.sl);
    tp_pos = ground (arith, positive o.tp);
    risk_capped = ground arith;
  }

-- What an accepted order and the moment of its acceptance satisfy.
pub record IsAccepted {F W : Type 0} ⦃fl : Float F⦄ (b : Broker F W) (now : F) (o : Order F)
    (candle : Candle F) (equity : F) (is_working : Bool) (stamps : List F) : Type 0 where
  pub order_safe : IsSafeOrder o
  pub room : length (recent now b.order_timestamps) < max_orders_per_minute
  pub recorded : stamps ≡ recent now b.order_timestamps ++ now ∷ []
  pub spaced : (is_working ≡ true) ⊎ (lt (now - b.last_trade_time) b.min_trade_interval_sec ≡ false)
  pub loss_usd : ge (b.starting_equity - equity) b.limits.max_daily_loss_usd ≡ false
  pub loss_pct :
      gt ((b.starting_equity - equity) / b.starting_equity * lit 100 1) max_daily_loss_pct ≡ false
  pub qty_capped : gt o.qty (cap_of b) ≡ false
  pub price_pos : le candle.close nought ≡ false
  pub notional_capped : gt (o.qty * candle.close) b.limits.max_position_size_usd ≡ false
  pub leverage_capped : gt (o.qty * candle.close / equity) b.limits.max_leverage ≡ false

module _ {F W : Type 0} ⦃fl : Float F⦄ (laws : IsOrdered F) where
  -- An order that the validation accepts meets every limit: its side is known, its quantity, entry,
  -- stop and target are positive, its risk, quantity, notional and leverage are within the caps, the
  -- daily loss does not reach its limit in dollars and is not above its limit in percent, an order that
  -- is not a working one keeps the trade interval, and fewer than ten orders were counted in the last
  -- minute, to which this one is added.
  pub validate_risk_limits-IsAccepted :
      (b : Broker F W) (now : F) (o : Order F) (candle : Candle F) (equity : F) (is_working : Bool)
      → (validate_risk_limits b now o candle equity is_working).0 ≡ ok true
      → IsAccepted b now o candle equity is_working
          (validate_risk_limits b now o candle equity is_working).1
  unfolding validate_risk_limits admit_rate check_interval check_loss check_size
  validate_risk_limits-IsAccepted b now o candle equity is_working h = record {
    order_safe = check_order_sound laws o (ground arith);
    room = ground arith;
    recorded = ground arith;
    spaced = ground arith;
    loss_usd = ground arith;
    loss_pct = ground arith;
    qty_capped = ground arith;
    price_pos = ground arith;
    notional_capped = ground arith;
    leverage_capped = ground arith;
  }

module _ {F W : Type 0} ⦃fl : Float F⦄ where
  -- At most ten orders are counted in a minute, on every path of the validation.
  pub length-validate_risk_limits :
      (b : Broker F W) (now : F) (o : Order F) (candle : Candle F) (equity : F) (is_working : Bool)
      → length b.order_timestamps ≤ max_orders_per_minute
      → length (validate_risk_limits b now o candle equity is_working).1 ≤ max_orders_per_minute
  unfolding validate_risk_limits admit_rate recent
  length-validate_risk_limits b now o candle equity is_working h =
      let kept = recent now b.order_timestamps in
      ground (
        arith,
        length-keep_if (λ t. lt (now - t) (lit 60 1)) b.order_timestamps,
        length-append (recent now b.order_timestamps) (now ∷ []),
      )
