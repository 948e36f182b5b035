-- ===== src/Live/Tests.antt =====
-- Runs of the live broker on concrete inputs, and the theorems at concrete inputs.
use btc_laptop_agents.Prelude.{◌≡◌, refl, true, false, none, some, List, [], ◌∷◌, All}
use btc_laptop_agents.Prelude.Int.{pos, negsuc}
use btc_laptop_agents.Float.Fixed.{Fixed, fixed_float}
use btc_laptop_agents.Paper.Types.{Order, long, short, limit}
use btc_laptop_agents.Paper.Risk.{recent}
use btc_laptop_agents.Paper.Sample.{buy, calm, units, start_equity}
use btc_laptop_agents.Live.Types.{
  Request, open_order, close_order, accepted, Exchange, Status, OrderEvent, PositionEvent,
  LiveBroker, pending, filled,
}
use btc_laptop_agents.Live.Submit.{
  round_step, round_optional, rounded_price, rounded_qty, limits_broken, prepared, is_lossy,
  get_info, send, prepare_and_send, submit,
}
use btc_laptop_agents.Live.Sync.{
  first_open, is_drift, is_ghost, exit_pnl, report_fill, report_exit, synthesize, read_position,
  correct_drift, sync,
}
use btc_laptop_agents.Live.Broker.{
  pop, put, on_order_update, on_position_update, submitted, on_candle,
}
use btc_laptop_agents.Live.Vetting.{IsVetted, on_candle-IsVetted}
use btc_laptop_agents.Live.Books.{IsSettled, total, on_candle-IsSettled}
use btc_laptop_agents.Live.Pending.{find, updated, last_update, live_update, find-updated}
use btc_laptop_agents.Live.Ghosts.{
  IsDust, candle_closed, position_updated, fills_of, fills_of-IsDust,
}

run_open : Unit {0}
unfolding round_step round_optional rounded_price rounded_qty limits_broken prepared is_lossy
    get_info send prepare_and_send submit first_open is_drift is_ghost exit_pnl report_fill
    report_exit synthesize read_position correct_drift sync pop put on_order_update
    on_position_update submitted on_candle recent total find
run_open = tt

-- The world is the list of the orders that were sent, the newest first.
abbrev Sent : Type 0
Sent = List (Request Fixed)

-- An exchange that accepts every order, has no positions, and whose clock stands still.
abbrev exchange : Exchange Fixed Sent
exchange = record {
  time = λ w. units 1000;
  kill_switch = λ w. false;
  fetch_instrument_info =
      λ w. (some (record { tick_size = pos 1000; lot_size = pos 100; min_qty = pos 100 }), w);
  place_order = λ q w. (accepted (some "9"), q ∷ w);
  cancel_all_orders = λ w. (true, w);
  get_pending_positions = λ w. (some [], w);
}

-- A broker that has synchronised and has no position.
abbrev flat : LiveBroker Fixed Sent
flat = record {
  symbol = "BTCUSDT";
  is_inverse = false;
  limits = record {
    max_position_size_usd = units 200_000;
    max_daily_loss_usd = units 50;
    max_leverage = units 1;
  };
  last_pos = none;
  initialized = true;
  instrument_info = none;
  order_generated_at = none;
  entry_price = none;
  entry_side = none;
  entry_qty = none;
  last_order_id = none;
  order_timestamps = [];
  starting_equity = some start_equity;
  current_equity = start_equity;
  order_history = [];
  pending_orders = [];
  ws_position_cache = none;
  last_ws_update = units 1000;
  world = [];
}

abbrev opening : Request Fixed
opening = open_order long (units 1) limit (units 100) (some (units 90)) (some (units 120))

sends : (on_candle exchange flat calm (some buy)).1.world ≡ opening ∷ []
unfolding run_open
sends = refl

abbrev opened : PositionEvent Fixed
opened = record {
  position_id = "7";
  symbol = "BTCUSDT";
  side = long;
  qty = units 1;
  entry_price = units 100;
}

-- The position that the order opened is closed as a ghost by the next candle.
abbrev opened_broker : LiveBroker Fixed Sent
opened_broker = on_position_update exchange (on_candle exchange flat calm (some buy)).1 opened

closes_its_own :
    (on_candle exchange opened_broker calm none).1.world
    ≡ close_order short (units 1) ∷ opening ∷ []
unfolding run_open
closes_its_own = refl

fills_of-IsDust_example : All IsDust (
    fills_of exchange flat
      (candle_closed calm (some buy) ∷ position_updated opened ∷ candle_closed calm none ∷ []))
fills_of-IsDust_example =
    fills_of-IsDust exchange flat
      (candle_closed calm (some buy) ∷ position_updated opened ∷ candle_closed calm none ∷ [])
      (λ q w. refl) refl refl

-- With 4 percent of the starting equity lost.
abbrev equipped : Order Fixed
equipped = record buy { equity = some (units 9_600) }

on_candle-IsVetted_example :
    (exchange.kill_switch flat.world ≡ false)
    × (equipped.go ≡ true)
    × (flat.last_pos ≡ none)
    × IsVetted (units 1000) flat equipped opening
unfolding run_open
on_candle-IsVetted_example = on_candle-IsVetted exchange flat calm equipped opening refl

-- With 6 percent lost the order is refused; with everything lost, and as much again owed, it is sent.
abbrev order_with : Fixed → Order Fixed
order_with equity = record buy { equity = some equity }

refuses_loss : (on_candle exchange flat calm (some (order_with (units 9_400)))).1.world ≡ []
unfolding run_open
refuses_loss = refl

sends_when_ruined :
    (on_candle exchange flat calm (some (order_with (negsuc 99_999_999)))).1.world ≡ opening ∷ []
unfolding run_open
sends_when_ruined = refl

flat-IsSettled : IsSettled start_equity flat
unfolding run_open
flat-IsSettled = record { balanced = refl }

on_candle-IsSettled_example : IsSettled start_equity (on_candle exchange flat calm (some buy)).1
on_candle-IsSettled_example =
    on_candle-IsSettled exchange start_equity flat calm (some buy) flat-IsSettled

abbrev update : Status → OrderEvent Fixed
update s = record {
  order_id = "9";
  side = long;
  status = s;
  qty = units 1;
  filled_qty = units 0;
  avg_fill_price = none;
}

find-updated_example :
    find "9" (updated exchange flat (update filled ∷ update pending ∷ [])).pending_orders
    ≡ live_update (last_update "9" (update filled ∷ update pending ∷ []))
find-updated_example = find-updated exchange flat (update filled ∷ update pending ∷ []) "9" refl
