-- ===== src/Paper/Exit.antt =====
-- The exits of paper/broker.py: `_exit`, `_check_exit`, `_check_tick_exit`, `close_all`. The position
-- is passed beside the broker that holds it, and written back with each change.
pub mod Decisions
use btc_laptop_agents.Prelude.{
  String, Bool, true, false, Option, none, some, List, [], ◌∷◌, ◌++◌, ◌&&◌, if◌then◌else◌, Result,
  ok, err,
}
use btc_laptop_agents.Float.{Float, lit, nought, ◌+◌, ◌-◌, ◌*◌, ◌/◌, abs, lt, le, gt, ge, min, max}
use btc_laptop_agents.Host.{Host}
use btc_laptop_agents.Trading.Market.{Candle, Tick}
use btc_laptop_agents.Trading.Costs.{apply_slippage}
use btc_laptop_agents.Paper.Types.{
  Position, Reason, ExitEvent, FillEvent, exit_record, is_long, is_short, entry_price,
}
use btc_laptop_agents.Paper.PositionEngine.{ExitPnl, calculate_full_exit_pnl}
use btc_laptop_agents.Paper.Broker.{Broker}
use btc_laptop_agents.Paper.Store.{save_state}

module _ {F : Type 0} ⦃fl : Float F⦄ where
  abbrev pub stop_distance : Position F → F
  stop_distance p = abs (entry_price p - p.sl)

  -- The first part of `_check_exit`: a trailing stop that is not active may become so, one that is
  -- moves with the close.
  unfoldable pub update_trail : Candle F → F → Position F → Position F
  update_trail candle mult p =
      let entry = entry_price p in
      let below = candle.close - stop_distance p * mult in
      let above = candle.close + stop_distance p * mult in
      if p.trail_active
      then (if is_long p.side
          then record p { trail_stop = max p.trail_stop below }
          else record p { trail_stop = min p.trail_stop above })
      else if is_long p.side && gt candle.close (entry + stop_distance p * lit 5 10)
      then record p { trail_active = true; trail_stop = below }
      else if is_short p.side && lt candle.close (entry - stop_distance p * lit 5 10)
      then record p { trail_active = true; trail_stop = above }
      else p

  -- Whether a trailing stop that was active before the candle is hit by it.
  unfoldable pub trail_hit : Candle F → Position F → Bool
  trail_hit candle p =
      p.trail_active
      && (if is_long p.side
          then le candle.low p.trail_stop
          else is_short p.side && ge candle.high p.trail_stop)

  -- The stop loss and the take profit, the stop first where the candle touches both.
  unfoldable pub stop_or_target : Candle F → Position F → Option (F × Reason)
  stop_or_target candle p =
      if is_long p.side
      then (if le candle.low p.sl && ge candle.high p.tp
          then some (p.sl, Reason.sl_conservative)
          else if le candle.low p.sl
          then some
              ((if lt candle.open_px p.sl then min p.sl candle.open_px else p.sl), Reason.sl_stop)
          else if ge candle.high p.tp
          then some (p.tp, Reason.tp_target)
          else none)
      else if ge candle.high p.sl && le candle.low p.tp
      then some (p.sl, Reason.sl_conservative)
      else if ge candle.high p.sl
      then some ((if gt candle.open_px p.sl then max p.sl candle.open_px else p.sl), Reason.sl_stop)
      else if le candle.low p.tp
      then some (p.tp, Reason.tp_target)
      else none

  -- `_check_exit` up to its calls of `_exit`: the price and the reason of the exit, if there is one.
  -- `p` is the position before the candle and `p'` the one with its trailing stop updated.
  unfoldable pub exit_decision : Candle F → Position F → Position F → Option (F × Reason)
  exit_decision candle p p' =
      if p.trail_active && trail_hit candle p'
      then some (p'.trail_stop, Reason.trail)
      else stop_or_target candle p'

  -- `_check_tick_exit` up to its calls of `_exit`.
  unfoldable pub tick_decision : Tick F → Position F → Option (F × Reason)
  tick_decision tick p =
      if is_long p.side
      then (if le tick.bid p.sl
          then some (p.sl, Reason.sl_tick)
          else if ge tick.bid p.tp
          then some (p.tp, Reason.tp_tick)
          else if p.trail_active && le tick.bid p.trail_stop
          then some (p.trail_stop, Reason.trail_tick)
          else none)
      else if ge tick.ask p.sl
      then some (p.sl, Reason.sl_tick)
      else if le tick.ask p.tp
      then some (p.tp, Reason.tp_tick)
      else if p.trail_active && ge tick.ask p.trail_stop
      then some (p.trail_stop, Reason.trail_tick)
      else none

  abbrev pub exit_event : Position F → String → F → Reason → ExitPnl F → ExitEvent F
  exit_event p ts px reason x = record {
    trade_id = p.trade_id;
    reason = reason;
    entry = x.avg_entry;
    price = px;
    qty = p.qty;
    pnl = x.net_pnl;
    at = ts;
    fees = x.total_fees;
    r = if gt x.risk nought then x.net_pnl / x.risk else nought;
    side = p.side;
    bars_open = p.bars_open;
  }

module _ {F W : Type 0} ⦃fl : Float F⦄ ⦃host : Host F W (FillEvent F)⦄ where
  -- The books after the amounts of an exit are known: `pos` still stands, with its lots popped.
  unfoldable pub book_exit : Broker F W → ExitEvent F → Broker F W
  book_exit b e = save_state (record b {
    current_equity = b.current_equity + e.pnl;
    order_history = b.order_history ++ exit_record e ∷ [];
  })

  -- `_exit`, for `p` the position of `b`.
  unfoldable pub exit_position :
      Broker F W → Position F → String → F → Reason → Result (ExitEvent F) × Broker F W
  exit_position b p ts px reason =
      let (factor, w) = host.uniform (lit 5 10) (lit 15 10) b.world in
      let px_slipped = apply_slippage px false (is_long p.side) (b.slip_bps * factor) in
      let emptied = record b { world = w; pos = some (record p { lots = [] }) } in
      elim (calculate_full_exit_pnl p px_slipped b.taker_fee b.is_inverse) [
        | err e ↦ (err e, emptied)
        | ok x ↦
            let event = exit_event p ts px_slipped reason x in (ok event, book_exit emptied event)
      ]

  -- A decision carried out.
  unfoldable pub exit_if :
      Broker F W
      → Position F
      → String
      → Option (F × Reason)
      → Result (Option (ExitEvent F)) × Broker F W
  exit_if b p ts none = (ok none, b)
  exit_if b p ts (some (px, reason)) =
      let (r, b') = exit_position b p ts px reason in
      elim r [ err e ↦ (err e, b') | ok event ↦ (ok (some event), b') ]

  unfoldable pub check_exit :
      Broker F W → Position F → Candle F → Result (Option (ExitEvent F)) × Broker F W
  check_exit b p candle =
      let p' = update_trail candle b.config.trailing_atr_mult p in
      exit_if (record b { pos = some p' }) p' candle.ts (exit_decision candle p p')

  unfoldable pub check_tick_exit :
      Broker F W → Position F → Tick F → Result (Option (ExitEvent F)) × Broker F W
  check_tick_exit b p tick = exit_if b p tick.ts (tick_decision tick p)

  -- What follows an exit event in `on_candle` and `on_tick`.
  unfoldable pub settle_exit :
      Result (Option (ExitEvent F)) × Broker F W → Result (List (ExitEvent F)) × Broker F W
  settle_exit (err e, b) = (err e, b)
  settle_exit (ok none, b) = (ok [], b)
  settle_exit (ok (some event), b) = (ok (event ∷ []), record (save_state b) { pos = none })

  unfoldable pub on_tick : Broker F W → Tick F → Result (List (ExitEvent F)) × Broker F W
  on_tick b tick = elim b.pos [
    | none ↦ (ok [], b)
    | some p ↦ settle_exit (check_tick_exit b p tick)
  ]

  unfoldable pub close_all : Broker F W → F → Result (List (ExitEvent F)) × Broker F W
  close_all b current_price = elim b.pos [
    | none ↦ (ok [], b)
    | some p ↦
        let (r, b') = exit_position b p (host.iso_now b.world) current_price Reason.force_close in
        elim r [ err e ↦ (err e, b') | ok event ↦ (ok (event ∷ []), record b' { pos = none }) ]
  ]
