-- ===== src/Paper/Tests.antt =====
-- Runs of the paper broker on concrete inputs, and the theorems at concrete inputs.
use btc_laptop_agents.Prelude.{
  ◌≡◌, ◌≢◌, refl, true, false, none, some, [], ◌∷◌, ok, err, out_of_fuel, arith,
}
use btc_laptop_agents.Prelude.Int.{pos, negsuc}
use btc_laptop_agents.Float.{min, max}
use btc_laptop_agents.Float.Laws.{◌≼◌}
use btc_laptop_agents.Float.Fixed.{Fixed, fixed_float, fixed-IsOrdered}
use btc_laptop_agents.Trading.Costs.{apply_slippage}
use btc_laptop_agents.Trading.Market.{Tick}
use btc_laptop_agents.Paper.Types.{
  filled, entry_price, FillEvent, ExitEvent, Fill, Position, Reason, long, market, limit, Order,
}
use btc_laptop_agents.Paper.PositionEngine.{calculate_full_exit_pnl, exit_amounts}
use btc_laptop_agents.Paper.Risk.{
  validate_risk_limits, admit_rate, recent, check_interval, check_loss, check_size, check_order,
}
use btc_laptop_agents.Paper.Risk.Limits.{IsAccepted, validate_risk_limits-IsAccepted}
use btc_laptop_agents.Paper.Store.{
  save_state, load_state, load_snapshot, map_option, load_position, snapshot, unexpired,
}
use btc_laptop_agents.Paper.Pricing.{
  fill_price, market_slippage, impact_price, effective_slip, capped_qty, base_price,
}
use btc_laptop_agents.Paper.Exit.{
  exit_position, book_exit, exit_if, tick_decision, check_tick_exit, settle_exit, on_tick,
  stop_or_target, update_trail, check_exit, exit_decision, trail_hit,
}
use btc_laptop_agents.Paper.Exit.Decisions.{follow, follow-NoLooser}
use btc_laptop_agents.Paper.Fill.{
  order_id, claim_order, fill_claimed, fill_at, apply_fill, pick_trade_id, open_or_grow,
  close_position_fifo, try_fill,
}
use btc_laptop_agents.Paper.Broker.{Broker}
use btc_laptop_agents.Paper.Soundness.{IsSound, total, on_candle-IsSound}
use btc_laptop_agents.Paper.Orders.{
  on_candle, process_working_orders, working_loop, manage_open, manage_position, enter, place_order,
  normalized_side,
}
use btc_laptop_agents.Paper.Idempotence.{try_fill_idempotent}
use btc_laptop_agents.Paper.Filling.{IsWithin, fill_claimed-IsWithin}
use btc_laptop_agents.Paper.Termination.{process_working_orders_ends}
use btc_laptop_agents.Paper.Lifetime.{run_candles, run_candles-Closes, Closes}
use btc_laptop_agents.Paper.Persistence.{load_state-save_state, on_tick_resurrects, unnamed, ghost}
use btc_laptop_agents.Paper.Placed.{place_order_unpriced}
use btc_laptop_agents.Paper.Sample.{
  broker, buy, calm, crash, low_tick, held, holding, units, still_host, still_host-IsSteady,
  trickle, World, start_equity,
}

-- Names all that a run of the broker computes with.
run_open : Unit {0}
unfolding try_fill claim_order order_id fill_claimed validate_risk_limits admit_rate recent
    check_interval check_loss check_size check_order fill_at base_price capped_qty min max
    fill_price market_slippage impact_price effective_slip apply_slippage apply_fill pick_trade_id
    open_or_grow save_state on_candle process_working_orders working_loop manage_open enter
    close_position_fifo exit_position book_exit exit_if tick_decision check_tick_exit settle_exit
    on_tick entry_price calculate_full_exit_pnl exit_amounts stop_or_target update_trail
    manage_position check_exit exit_decision trail_hit load_state load_snapshot map_option
    load_position place_order normalized_side
run_open = tt

-- A limit order that is touched opens its position, whole.
buys : (try_fill broker calm buy false none).1.pos ≡ some held
unfolding run_open
buys = refl

abbrev qty_of : Broker Fixed World → Fixed
qty_of b = elim b.pos [ none ↦ pos 0 | some p ↦ p.qty ]

-- In a candle of volume 2 a tenth, 0.2, of the order for 1 is filled.
first_slice : qty_of (try_fill broker trickle buy false none).1 ≡ pos 2000
unfolding run_open
first_slice = refl

-- In the next candle of volume 2 the working orders fill all the rest, 0.8, a tenth of the volume at a
-- time: the loop visits each remainder that it appends.
all_slices :
    qty_of (on_candle (try_fill broker trickle buy false none).1 trickle none none).1 ≡ units 1
unfolding run_open
all_slices = refl

-- An order that is placed twice with one id is filled twice.
abbrev placed : Broker Fixed World → Broker Fixed World
placed b =
    (place_order b "BUY" (units 1) limit (some (units 100)) (some (units 90)) (some (units 120))
      (some "a1")).1

placed_twice : qty_of (on_candle (placed (placed broker)) calm none none).1 ≡ units 2
unfolding run_open
placed_twice = refl

broker-IsSound : IsSound start_equity broker
unfolding total
broker-IsSound = record { balanced = refl; rate_bounded = omega arith }

holding-IsSound : IsSound start_equity holding
unfolding total
holding-IsSound = record { balanced = refl; rate_bounded = omega arith }

on_candle-IsSound_example : IsSound start_equity (on_candle broker calm (some buy) none).1
on_candle-IsSound_example =
    on_candle-IsSound start_equity broker calm (some buy) none broker-IsSound

validate_risk_limits-IsAccepted_example :
    IsAccepted broker (units 100_000) buy calm start_equity false (units 100_000 ∷ [])
unfolding run_open
validate_risk_limits-IsAccepted_example =
    validate_risk_limits-IsAccepted fixed-IsOrdered broker (units 100_000) buy calm start_equity
      false refl

try_fill_idempotent_example :
    let b' = (try_fill broker calm buy false none).1 in (try_fill b' crash buy false none).1 ≡ b'
try_fill_idempotent_example = try_fill_idempotent broker "a1" buy calm crash none none refl refl

abbrev first_fill : FillEvent Fixed
first_fill = record {
  trade_id = "a1";
  side = long;
  price = units 100;
  qty = pos 2000;
  sl = units 90;
  tp = units 120;
  at = "1700000000";
  fees = pos 40;
  requested_qty = some (units 1);
}

fill_claimed-IsWithin_example : IsWithin buy trickle first_fill
unfolding run_open
fill_claimed-IsWithin_example =
    fill_claimed-IsWithin fixed-IsOrdered broker "a1" buy trickle none false first_fill refl refl
      refl

process_working_orders_ends_example :
    (process_working_orders (try_fill broker trickle buy false none).1 trickle).0 ≢ err out_of_fuel
process_working_orders_ends_example =
    process_working_orders_ends still_host-IsSteady fixed-IsOrdered
      (try_fill broker trickle buy false none).1 trickle refl

run_candles-Closes_example : Closes (run_candles (calm ∷ calm ∷ calm ∷ []) holding)
run_candles-Closes_example =
    run_candles-Closes (calm ∷ calm ∷ calm ∷ []) holding held 2
      (record { linear = refl; idle = refl; limit = refl }) refl (omega arith) (omega arith)

abbrev high_tick : Tick Fixed
high_tick = record low_tick { bid = units 100; ask = units 101 }

abbrev trailing : Position Fixed
trailing = record held { trail_active = true; trail_stop = units 95 }

follow-NoLooser_example :
    ((follow (units 1) (calm ∷ crash ∷ []) trailing).trail_active ≡ true)
    × (units 95 ≼ (follow (units 1) (calm ∷ crash ∷ []) trailing).trail_stop)
follow-NoLooser_example =
    follow-NoLooser fixed-IsOrdered (units 1) (calm ∷ crash ∷ []) trailing refl refl

-- A broker that has lost money and acted on two ids, and what a fresh broker makes of its state.
abbrev worn : Broker Fixed World
worn = record holding { current_equity = units 9_900; processed_order_ids = "a1" ∷ "a0" ∷ [] }

load_state-save_state_example :
    load_state (record broker { saved = (save_state worn).saved }) ≡ record broker {
      saved = some (snapshot worn);
      starting_equity = start_equity;
      current_equity = units 9_900;
      processed_order_ids = "a1" ∷ "a0" ∷ [];
      order_history = [];
      pos = unnamed (some held);
      working_orders = unexpired (units 100_000) [];
    }
load_state-save_state_example = load_state-save_state worn broker refl refl refl

-- The order after a fill is refused, for the trade interval, unless the broker was restarted.
abbrev second : Order Fixed
second = record buy { client_order_id = some "a2" }

abbrev traded : Broker Fixed World
traded = (try_fill broker calm buy false none).1

keeps_interval : qty_of (try_fill traded calm second false none).1 ≡ units 1
unfolding run_open
keeps_interval = refl

restart_forgets_interval :
    qty_of
      (try_fill
        (load_state (record broker { saved = traded.saved; world = traded.world }))
        calm
        second
        false
        none).1
    ≡ units 2
unfolding run_open
restart_forgets_interval = refl

abbrev tick_exit : ExitEvent Fixed
tick_exit = record {
  trade_id = "a1";
  reason = Reason.sl_tick;
  entry = units 100;
  price = units 90;
  qty = units 1;
  pnl = negsuc 100_739;
  at = "1700000060";
  fees = pos 740;
  r = negsuc 10_073;
  side = long;
  bars_open = 0;
}

on_tick_resurrects_example :
    ((on_tick holding low_tick).1.pos ≡ none)
    × ((load_state (on_tick holding low_tick).1).pos ≡ some (ghost held))
unfolding run_open
on_tick_resurrects_example = on_tick_resurrects holding held low_tick tick_exit refl refl refl

abbrev some_fill : Fill Fixed
some_fill = filled first_fill

place_order_unpriced_example :
    (try_fill broker calm
      (place_order broker "BUY" (units 1) market none (some (units 90)) (some (units 120)) none).0
      true
      none).0
    ≢ ok (some some_fill)
place_order_unpriced_example =
    place_order_unpriced fixed-IsOrdered broker broker "BUY" (units 1) market (some (units 90))
      (some (units 120)) none calm none some_fill
