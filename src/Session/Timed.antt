-- ===== src/Session/Timed.antt =====
-- session/timed_session.py: `run_timed_session` with the paper broker, from its loop to its result. The
-- readings of the clock, what a poll fetches and the id of an order are inputs of a round. The signal of
-- a configured strategy, which is the side of the setup that a new supervisor finds, is `signal_of`; the
-- fallback is `SMACrossoverStrategy` of trading/strategy.py. Sleeping and the event file are left out.
pub mod Spacing
pub mod Rounds
use btc_laptop_agents.Prelude.{
  ℕ, ◌+◌ as add, String, Bool, true, false, not, ◌&&◌, ◌||◌, Option, none, some, is_some, List, [],
  ◌∷◌, map, foldl, Result, ok, err, zero_division, index_error, ◌>>=◌, length, last?, init, ltb,
  if◌then◌else◌,
}
use btc_laptop_agents.Float.{Float, nought, lit, ◌+◌, ◌-◌, ◌*◌, ◌/◌, ◌//◌, lt, le, gt, ge}
use btc_laptop_agents.Host.{Host}
use btc_laptop_agents.Trading.Market.{Candle}
use btc_laptop_agents.Trading.Sequence.{normalize_candle_order}
use btc_laptop_agents.Trading.Sizing.{sma}
use btc_laptop_agents.Agents.Indicators.{atr}
use btc_laptop_agents.Paper.Types.{Side, long, short, EntryType, Order, ExitEvent, FillEvent}
use btc_laptop_agents.Paper.Broker.{Broker}
use btc_laptop_agents.Paper.Exit.{close_all}
use btc_laptop_agents.Paper.Orders.{Events, on_candle, shutdown, get_unrealized_pnl}
use btc_laptop_agents.Resilience.Breaker.{
  ErrorCircuitBreaker, closed, record_failure, record_success, allow_request,
}

pub data TimedReason : Type 0 where
  completed kill_switch shutdown_requested duration_limit_reached circuit_breaker_open : TimedReason

pub data Signal : Type 0 where
  buy sell : Signal

abbrev pub side_of : Signal → Side
side_of buy = long
side_of sell = short

-- What the session was called with; `supervised` says that there is a configuration of a strategy.
pub record TimedConfig (F : Type 0) : Type 0 where
  pub end_time : F
  pub risk_pct : F
  pub stop_bps : F
  pub tp_r : F
  pub supervised : Bool

-- The clock at the loop's test, at the test of the duration, at the breaker, and at an exception; what
-- the poll fetches, none where it raises.
pub record Poll (F : Type 0) : Type 0 where
  pub started_at : F
  pub limited_at : F
  pub asked_at : F
  pub failed_at : F
  pub tripped_at : F
  pub kill_file : Bool
  pub stop_requested : Bool
  pub candles : Option (List (Candle F))
  pub order_id : String

-- The state of the loop; `running` until it breaks, `candles` those of the last poll that succeeded.
pub record TimedSession (F W : Type 0) : Type 0 where
  pub running : Bool
  pub stopped_reason : TimedReason
  pub iterations : ℕ
  pub trades : ℕ
  pub errors : ℕ
  pub current_equity : F
  pub candles : List (Candle F)
  pub circuit_breaker : ErrorCircuitBreaker F
  pub broker : Broker F W

module _ {F : Type 0} ⦃fl : Float F⦄ where
  abbrev pub crossing : Option F → Option F → Option Signal
  crossing (some fast) (some slow) = some (if gt fast slow then buy else sell)
  crossing _ _ = none

  -- The filter of the volatility: none of a range that is too small.
  abbrev pub filtered : Option F → F → Option Signal → Result (Option Signal)
  filtered a close none = ok none
  filtered none close (some x) = ok (some x)
  filtered (some a) close (some x) =
      (a // close) >>= λ ratio. ok (if lt ratio (lit 5 1000) then none else some x)

  -- `SMACrossoverStrategy().generate_signal`
  unfoldable pub generate_signal : List (Candle F) → Result (Option Signal)
  generate_signal candles = if ltb (length candles) 30 then ok none else elim (last? candles) [
    | none ↦ ok none
    | some c ↦
        let closes = map (λ x. x.close) candles in
        filtered (atr candles 14) c.close (crossing (sma closes 10) (sma closes 30))
  ]

  -- A market order with its stop at a distance from the close, unless there is none.
  unfoldable pub timed_order : TimedConfig F → F → F → String → Option Signal → Option (Order F)
  timed_order cfg equity close id none = none
  timed_order cfg equity close id (some x) =
      let risk = equity * (cfg.risk_pct / lit 100 1) in
      let distance = close * (cfg.stop_bps / lit 10_000 1) in
      let is_buy : Bool = elim x [ buy ↦ true | sell ↦ false ] in
      if le distance nought
      then none
      else some (record {
        go = true;
        client_order_id = some id;
        side = side_of x;
        entry_type = EntryType.market;
        entry = close;
        qty = risk / distance;
        sl = if is_buy then close - distance else close + distance;
        tp = if is_buy then close + distance * cfg.tp_r else close - distance * cfg.tp_r;
        equity = some equity;
        created_at = none;
      })

  abbrev pub add_pnl : F → List (ExitEvent F) → F
  add_pnl = foldl (λ equity e. equity + e.pnl)

module _ {F W : Type 0} where
  abbrev pub stop_with : TimedReason → TimedSession F W → TimedSession F W
  stop_with reason s = record s { running = false; stopped_reason = reason }

module _ {F W : Type 0} ⦃fl : Float F⦄ where
  abbrev pub failed : Poll F → TimedSession F W → TimedSession F W
  failed p s = record s {
    errors = add s.errors 1;
    circuit_breaker = record_failure p.failed_at p.tripped_at s.circuit_breaker;
  }

module _ {F W : Type 0} ⦃fl : Float F⦄ ⦃host : Host F W (FillEvent F)⦄ where
  -- The fills and the exits are counted before the unrealized profit is asked for, which may raise.
  unfoldable pub count_events : Poll F → Events F → F → TimedSession F W → TimedSession F W
  count_events p events close s =
      let s' = record s {
        trades = add s.trades (length events.fills);
        current_equity = add_pnl s.current_equity events.exits;
      } in
      elim (get_unrealized_pnl s'.broker close) [ err e ↦ failed p s' | ok u ↦ s' ]

  unfoldable pub execute :
      Poll F → Candle F → Option (Order F) → TimedSession F W → TimedSession F W
  execute p latest order s =
      let (res, b) = on_candle s.broker latest order none in
      let s' = record s { broker = b } in
      elim res [ err e ↦ failed p s' | ok events ↦ count_events p events latest.close s' ]

module _ {F W : Type 0} ⦃fl : Float F⦄ ⦃host : Host F W (FillEvent F)⦄
    (signal_of : List (Candle F) → Result (Option Signal)) (cfg : TimedConfig F) where
  -- A supervisor that raised nothing is a success for the breaker.
  unfoldable pub ask_signal :
      List (Candle F) → TimedSession F W → Result (Option Signal) × TimedSession F W
  ask_signal candles s =
      if cfg.supervised
      then elim (signal_of candles) [
        | err e ↦ (err e, s)
        | ok x ↦ (ok x, record s { circuit_breaker = record_success s.circuit_breaker })
      ]
      else (generate_signal (init candles), s)

  -- With the candles of the poll, oldest first.
  unfoldable pub trade : Poll F → List (Candle F) → TimedSession F W → TimedSession F W
  trade p candles s = if ltb (length candles) 31 then s else elim (last? candles) [
    | none ↦ s
    | some latest ↦
        let (res, s') = ask_signal candles s in
        elim res [
          | err e ↦ failed p s'
          | ok x ↦ execute p latest (timed_order cfg s'.current_equity latest.close p.order_id x) s'
        ]
  ]

  unfoldable pub poll_once : Poll F → TimedSession F W → TimedSession F W
  poll_once p s = elim p.candles [
    | none ↦ failed p s
    | some candles ↦
        trade p (normalize_candle_order candles)
          (record s { candles = normalize_candle_order candles })
  ]

  -- The tests of a round, in their order.
  unfoldable pub timed_round : Poll F → TimedSession F W → TimedSession F W
  timed_round p s =
      if not s.running
      then s
      else if not (lt p.started_at cfg.end_time)
      then record s { running = false }
      else if p.kill_file
      then stop_with kill_switch s
      else if p.stop_requested
      then stop_with shutdown_requested s
      else if ge p.limited_at cfg.end_time
      then stop_with duration_limit_reached s
      else (let (allowed, c) = allow_request p.asked_at s.circuit_breaker in
          let s' = record s { circuit_breaker = c } in
          if allowed
          then poll_once p (record s' { iterations = add s'.iterations 1 })
          else stop_with circuit_breaker_open s')

  unfoldable pub timed_rounds : List (Poll F) → TimedSession F W → TimedSession F W
  timed_rounds [] s = s
  timed_rounds (p ∷ ps) s = timed_rounds ps (timed_round p s)

module _ {F W : Type 0} ⦃fl : Float F⦄ ⦃host : Host F W (FillEvent F)⦄ where
  -- The exit of the position; an exception of it, or no candle to take the price from, leaves out the
  -- rest.
  unfoldable pub close_session : TimedSession F W → Result (List (ExitEvent F)) × Broker F W
  close_session s =
      if is_some s.broker.pos
      then elim (last? s.candles) [
        | none ↦ (err index_error, s.broker)
        | some c ↦ close_all s.broker c.close
      ]
      else (ok [], s.broker)

  -- The end of the session, whose result has the equity from before the last exit.
  unfoldable pub finish_session : TimedSession F W → TimedSession F W
  finish_session s =
      let (res, b) = close_session s in
      record s { broker = elim res [ err e ↦ b | ok exits ↦ shutdown b ] }
