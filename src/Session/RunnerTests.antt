-- ===== src/Session/RunnerTests.antt =====
-- The tasks of a session on concrete inputs.
use btc_laptop_agents.Prelude.{◌≡◌, refl, ◌≤◌, true, false, none, some, [], length}
use btc_laptop_agents.Prelude.Int.{pos}
use btc_laptop_agents.Float.Fixed.{Fixed, fixed_float}
use btc_laptop_agents.Paper.Sample.{World, still_host, units}
use btc_laptop_agents.Paper.Store.{snapshot, save_state}
use btc_laptop_agents.Paper.Types.{entry_price}
use btc_laptop_agents.Paper.PositionEngine.{calculate_unrealized_pnl}
use btc_laptop_agents.Paper.Orders.{shutdown, get_unrealized_pnl}
use btc_laptop_agents.Resilience.Breaker.{allow_request}
use btc_laptop_agents.Session.Runner.{AsyncRunner, request_shutdown, circuit_breaker_open}
use btc_laptop_agents.Session.Strategy.{passes, enqueue, place, gate, consult, on_candle_closed}
use btc_laptop_agents.Session.Execution.{listen, begin_execution, start_payload, is_duplicate}
use btc_laptop_agents.Session.Monitors.{kill_switch_round, heartbeat_round}
use btc_laptop_agents.Session.MarketData.{
  candle, take_item, take_candle, store_candle, append_candle, fill_gap, is_sound_candle,
}
use btc_laptop_agents.Session.Tasks.{Reach, here, next, market_data, listens, begin}
use btc_laptop_agents.Session.Tasks.Sessions.{
  IsOrderly, session-IsOrderly, no_order_is_duplicate, shutdown_is_final,
  halted_session_starts_no_order, session_breaker_never_trips, candle_updates_ignored,
}
use btc_laptop_agents.Session.Closing.{IsCutOff, perform_shutdown_lem, heartbeat_round-cut}
use btc_laptop_agents.Session.Ending.{drain_queue, close_at, close_position, perform_shutdown}
use btc_laptop_agents.Session.Sample.{parse_ts, later, buyers, config, session, fetch, losing}

session_open : Unit {0}
unfolding passes enqueue place gate consult on_candle_closed listen begin_execution start_payload
    take_item take_candle store_candle append_candle fill_gap is_sound_candle allow_request
    request_shutdown kill_switch_round shutdown
session_open = tt

-- The session after the next candle, whose order waits in the queue.
abbrev ordered : AsyncRunner Fixed World (Unit {0})
ordered = take_item buyers config parse_ts "1m" fetch (candle later) session

session_ordered : length ordered.execution_queue ≡ 1
unfolding session_open
session_ordered = refl

session_reaches_ordered : Reach buyers config parse_ts "1m" session ordered
session_reaches_ordered = next _ _ here (market_data fetch (candle later))

-- And once the execution task has its order.
abbrev waiting : AsyncRunner Fixed World (Unit {0})
waiting = begin_execution (listen ordered)

waiting_holds : (waiting.execution_queue ≡ []) × (length waiting.inflight_order_ids ≡ 1)
unfolding session_open
waiting_holds = (refl, refl)

session_reaches_waiting : Reach buyers config parse_ts "1m" session waiting
session_reaches_waiting = next _ _ (next _ _ session_reaches_ordered listens) begin

session-IsOrderly_example : IsOrderly waiting
session-IsOrderly_example =
    session-IsOrderly buyers config parse_ts "1m" session waiting
      (record { unqueued = refl; idle = refl; free = refl; unkilled = refl })
      session_reaches_waiting

-- The execution task waits for its next order.
abbrev idling : AsyncRunner Fixed World (Unit {0})
idling = listen session

no_order_is_duplicate_example : is_duplicate (some "async_1") idling.inflight_order_ids ≡ false
unfolding session_open
no_order_is_duplicate_example =
    no_order_is_duplicate buyers config parse_ts "1m" session idling (some "async_1")
      (record { unqueued = refl; idle = refl; free = refl; unkilled = refl })
      (next _ _ here listens) refl

-- The kill switch is found on while an order waits in the queue.
abbrev killed : AsyncRunner Fixed World (Unit {0})
killed = kill_switch_round true ordered

-- The execution task drops that order.
abbrev dropped : AsyncRunner Fixed World (Unit {0})
dropped = begin_execution (record killed { listening = true })

killed_drops : dropped.execution_queue ≡ []
unfolding session_open
killed_drops = refl

shutdown_is_final_example :
    ((listen killed).shutdown_event ≡ true)
    × ((listen killed).stopped_reason ≡ killed.stopped_reason)
    × (length (listen killed).execution_queue ≤ length killed.execution_queue)
unfolding session_open
shutdown_is_final_example =
    shutdown_is_final buyers config parse_ts "1m" killed (listen killed) refl
      (next _ _ here listens)

halted_session_starts_no_order_example :
    (dropped.executing ≡ none) × (length dropped.execution_queue ≤ 1)
unfolding session_open
halted_session_starts_no_order_example =
    halted_session_starts_no_order buyers config parse_ts "1m" (record killed { listening = true })
      dropped refl refl (next _ _ here begin)

session_breaker_never_trips_example :
    (waiting.circuit_breaker ≡ session.circuit_breaker)
    × (waiting.stopped_reason ≡ circuit_breaker_open
        → session.stopped_reason ≡ circuit_breaker_open)
session_breaker_never_trips_example =
    session_breaker_never_trips buyers config parse_ts "1m" session waiting refl
      session_reaches_waiting

-- The same minute again, with a higher price.
candle_updates_ignored_example :
    take_item buyers config parse_ts "1m" fetch (candle (record later { high = units 150 })) waiting
    ≡ waiting
unfolding session_open
candle_updates_ignored_example =
    candle_updates_ignored buyers config parse_ts "1m" fetch later
      (record later { high = units 150 }) ordered waiting refl refl
      (next _ _ (next _ _ here listens) begin)

heartbeat_round-cut_example : IsCutOff (heartbeat_round true true config.max_daily_loss_usd losing)
unfolding get_unrealized_pnl calculate_unrealized_pnl entry_price
heartbeat_round-cut_example =
    heartbeat_round-cut true true config.max_daily_loss_usd (pos 0) losing refl refl refl refl refl
      refl

-- The session ends with an order in the queue.
perform_shutdown_lem_example :
    ((perform_shutdown ordered).execution_queue ≡ [])
    × ((perform_shutdown ordered).broker.working_orders ≡ [])
    × ((perform_shutdown ordered).broker.saved ≡ some (snapshot (perform_shutdown ordered).broker))
unfolding session_open close_position drain_queue close_at save_state
perform_shutdown_lem_example = perform_shutdown_lem ordered [] refl refl
