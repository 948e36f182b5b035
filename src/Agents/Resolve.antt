-- ===== src/Agents/Resolve.antt =====
-- `Supervisor._resolve_order` of agents/supervisor.py: the trigger, the entry, and the quantity under
-- the hard limits of constants.py.
use btc_laptop_agents.Prelude.{
  Bool, true, false, ◌&&◌, Option, none, some, Result, ok, err, value_error, type_error, key_error,
  ◌>>=◌, if◌then◌else◌,
}
use btc_laptop_agents.Float.{Float, nought, ◌+◌, ◌-◌, ◌*◌, ◌/◌, ◌//◌, abs, lt, le, gt, min}
use btc_laptop_agents.Trading.Market.{Candle}
use btc_laptop_agents.Agents.Types.{
  EntryType, market, market_on_trigger, Trigger, sweep_and_close_back_below,
  sweep_and_close_back_above, other_trigger, Intent, Resolved, Decision, nothing, refused, intended,
  resolved,
}

pub record Limits (F : Type 0) : Type 0 where
  pub max_position_size_usd : F
  pub max_leverage : F

abbrev pub is_triggered_type : EntryType → Bool
is_triggered_type market_on_trigger = true
is_triggered_type _ = false

abbrev pub is_market : EntryType → Bool
is_market market = true
is_market _ = false

module _ {F : Type 0} ⦃fl : Float F⦄ where
  -- Whether the candle swept the level and closed back.
  unfoldable pub triggers : Trigger F → Candle F → Bool
  triggers (sweep_and_close_back_below lvl tol) candle =
      gt candle.high (lvl + tol) && lt candle.close lvl
  triggers (sweep_and_close_back_above lvl tol) candle =
      lt candle.low (lvl - tol) && gt candle.close lvl
  triggers other_trigger candle = false

  -- The entry type and price after the trigger; none where the trigger did not fire.
  unfoldable pub triggered : Intent F → Candle F → Option (EntryType × Option F)
  triggered o candle =
      if is_triggered_type o.setup.entry_type
      then (if triggers o.setup.trigger candle then some (market, some candle.close) else none)
      else some (o.entry_type, o.entry)

  abbrev pub priced : EntryType → Option F → Candle F → Result F
  priced t (some entry) candle = ok entry
  priced t none candle = if is_market t then ok candle.close else err type_error

  abbrev pub per_unit : F → F → F
  per_unit notional entry = if gt entry nought then notional / entry else nought

  -- `min(qty, max_qty_abs, max_qty_lev)`
  unfoldable pub limited : Limits F → F → F → F → F
  limited limits equity entry qty =
      min (min qty (per_unit limits.max_position_size_usd entry))
        (per_unit (equity * limits.max_leverage) entry)

  -- `int(x)`, which raises where `x` is not finite.
  abbrev pub to_int : F → Result F
  to_int x = if fl.is_finite x then ok (fl.trunc x) else err value_error

  -- `int(qty / lot_step) * lot_step`
  unfoldable pub whole_lots : F → F → Result F
  whole_lots qty lot_step = do lots ← qty // lot_step; n ← to_int lots; ok (n * lot_step)

  -- From the quantity on: the hard limits, the lots and the least notional.
  unfoldable pub sized : Limits F → Intent F → EntryType → F → F → F → Result (Option (Resolved F))
  sized limits o t entry rr raw = do
    qty ← whole_lots (limited limits o.equity entry raw) o.lot_step
    ok (
        if lt (qty * entry) o.min_notional
        then none
        else some (record {
          side = o.side;
          entry_type = t;
          entry = entry;
          sl = o.sl;
          tp = o.tp;
          qty = qty;
          rr = rr;
          setup = o.setup.name;
        }))

  -- From the entry price on: the distance of the stop and the ratio of reward to risk.
  unfoldable pub rewarded : Limits F → Intent F → EntryType → F → Result (Option (Resolved F))
  rewarded limits o t entry =
      let risk_dollars = o.equity * o.risk_pct * o.size_mult in
      let stop_dist = abs (entry - o.sl) in
      if le stop_dist nought then ok none else (do
        rr ← abs (o.tp - entry) // stop_dist
        raw ← risk_dollars // stop_dist
        (if lt rr o.rr_min then ok none else sized limits o t entry rr raw))

  -- What follows the trigger.
  unfoldable pub entered :
      Limits F → Intent F → Candle F → Option (EntryType × Option F) → Result (Option (Resolved F))
  entered limits o candle none = ok none
  entered limits o candle (some (t, entry)) = do px ← priced t entry candle; rewarded limits o t px

  unfoldable pub resolve_intent : Limits F → Intent F → Candle F → Result (Option (Resolved F))
  resolve_intent limits o candle = entered limits o candle (triggered o candle)

  -- A resolved order has no `equity`, so a second resolution raises.
  unfoldable pub resolve_order : Limits F → Decision F → Candle F → Result (Option (Resolved F))
  resolve_order limits (intended o) candle = resolve_intent limits o candle
  resolve_order limits (resolved r) candle = err key_error
  resolve_order limits nothing candle = ok none
  resolve_order limits (refused x) candle = ok none
