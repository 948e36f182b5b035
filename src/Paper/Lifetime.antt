-- ===== src/Paper/Lifetime.antt =====
-- How long `PaperBroker` (paper/broker.py) holds a position of a linear contract: `on_candle` counts
-- the bars and closes it past `max_bars_open`.
use btc_laptop_agents.Prelude.{
  ℕ, ◌+◌ as add, ◌≤◌, ◌<◌, ◌≡◌, ◌⊎◌, refl, true, false, Option, none, some, List, Result, ok, err,
  arith, String, Bool, ◌∷◌, [], Option-cases, Bool-cases, inl, inr, length, ltb, ◌++◌,
}
use btc_laptop_agents.Trading.Costs.{apply_slippage}
use btc_laptop_agents.Float.{Float, lit, ◌*◌}
use btc_laptop_agents.Host.{Host}
use btc_laptop_agents.Trading.Market.{Candle}
use btc_laptop_agents.Paper.Types.{FillEvent, Position, Reason, ExitEvent, is_long}
use btc_laptop_agents.Paper.PositionEngine.{ExitPnl, calculate_full_exit_pnl, exit_amounts}
use btc_laptop_agents.Paper.Broker.{Broker}
use btc_laptop_agents.Paper.Store.{save_state}
use btc_laptop_agents.Paper.Exit.{
  book_exit, exit_position, exit_if, check_exit, update_trail, exit_decision, exit_event,
  settle_exit,
}
use btc_laptop_agents.Paper.Orders.{
  working_loop, process_working_orders, manage_position, manage_open, enter, after_manage,
  on_candle, Events,
}

-- A broker of a linear contract with no working orders.
pub record IsQuiet {F W : Type 0} (max_bars : ℕ) (b : Broker F W) : Type 0 where
  pub linear : b.is_inverse ≡ false
  pub idle : b.working_orders ≡ []
  pub limit : b.config.max_bars_open ≡ max_bars

module _ {F : Type 0} ⦃fl : Float F⦄ where
  linear_exit :
      (p : Position F) (px rate : F) (is_inverse : Bool)
      → is_inverse ≡ false
      → (x : ExitPnl F) × (calculate_full_exit_pnl p px rate is_inverse ≡ ok x)
  unfolding calculate_full_exit_pnl exit_amounts
  linear_exit p px rate false e = (_, refl)
  linear_exit p px rate true e = cc

  update_trail-bars :
      (c : Candle F) (mult : F) (p : Position F) → (update_trail c mult p).bars_open ≡ p.bars_open
  unfolding update_trail
  update_trail-bars c mult p = ground arith

  -- After a candle: no position, or one that is a bar older and within the limit.
  abbrev Ages : ℕ → Position F → Option (Position F) → Type 0
  Ages m p none = Unit
  Ages m p (some p') = (p'.bars_open ≡ add p.bars_open 1) × (p'.bars_open ≤ m)

module _ {F W : Type 0} ⦃fl : Float F⦄ ⦃host : Host F W (FillEvent F)⦄ where
  -- Closing a linear position never raises.
  exit_position_linear :
      (b : Broker F W) (p : Position F) (ts : String) (px : F) (reason : Reason) (m : ℕ)
      → IsQuiet m b
      → ((e : ExitEvent F) × ((exit_position b p ts px reason).0 ≡ ok e))
        × IsQuiet m (exit_position b p ts px reason).1
  unfolding exit_position book_exit save_state
  exit_position_linear b p ts px reason m q =
      let (factor, w) = host.uniform (lit 5 10) (lit 15 10) b.world in
      let px_slipped = apply_slippage px false (is_long p.side) (b.slip_bps * factor) in
      let (x, e) = linear_exit p px_slipped b.taker_fee b.is_inverse q.linear in
      ((exit_event p ts px_slipped reason x, ground arith), ground arith)

  -- What a step of a quiet broker gives: it stays quiet, and raises nothing.
  abbrev Settles : ℕ → Result (List (ExitEvent F)) × Broker F W → Type 0
  Settles m r = IsQuiet m r.1 × ((es : List (ExitEvent F)) × (r.0 ≡ ok es))

  settle_exit_now :
      (b : Broker F W) (p : Position F) (ts : String) (px : F) (reason : Reason) (m : ℕ)
      → IsQuiet m b
      → Settles m (settle_exit (exit_if b p ts (some (px, reason))))
        × ((settle_exit (exit_if b p ts (some (px, reason)))).1.pos ≡ none)
  unfolding settle_exit exit_if save_state
  settle_exit_now b p ts px reason m q =
      let (returned, q') = exit_position_linear b p ts px reason m q in
      ((ground arith, (returned.0 ∷ [], ground arith)), ground arith)

  -- A decision is carried out, or the broker stays as it is.
  settle_decision :
      (b : Broker F W) (p : Position F) (ts : String) (d : Option (F × Reason)) (m : ℕ)
      → IsQuiet m b
      → Settles m (settle_exit (exit_if b p ts d))
        × (((settle_exit (exit_if b p ts d)).1.pos ≡ none)
            ⊎ ((settle_exit (exit_if b p ts d)).1 ≡ b))
  unfolding settle_exit exit_if
  settle_decision b p ts none m q = ((q, ([], refl)), inr refl)
  settle_decision b p ts (some (px, reason)) m q =
      let (fine, flat) = settle_exit_now b p ts px reason m q in (fine, inl flat)

  manage_position-Ages :
      (b : Broker F W) (p : Position F) (candle : Candle F) (m : ℕ)
      → IsQuiet m b
      → Settles m (manage_position b p candle) × Ages m p (manage_position b p candle).1.pos
  unfolding manage_position check_exit
  manage_position-Ages b p candle m q =
      let older = record p { bars_open = add p.bars_open 1 } in
      let b' = record b { pos = some older } in
      let q' : IsQuiet m b' = record { linear = q.linear; idle = q.idle; limit = q.limit } in
      let trailed = update_trail candle b.config.trailing_atr_mult older in
      let b'' = record b { pos = some trailed } in
      let q'' : IsQuiet m b'' = record { linear = q.linear; idle = q.idle; limit = q.limit } in
      elim (Bool-cases (ltb b.config.max_bars_open older.bars_open)) [
        | inl stale ↦
            let (fine, flat) =
              settle_exit_now b' older candle.ts candle.close Reason.stale_exit m q' in
            rw stale (fine, rw flat tt)
        | inr young ↦
            let (fine, left) =
              settle_decision b'' trailed candle.ts (exit_decision candle older trailed) m q'' in
            rw young (
              fine,
              elim left [
                | inl flat ↦ rw flat tt
                | inr kept ↦ rw kept (
                    ground
                      (arith, q.limit, update_trail-bars candle b.config.trailing_atr_mult older))
              ],
            )
      ]

  idle_loop :
      (b : Broker F W) (candle : Candle F)
      → b.working_orders ≡ []
      → process_working_orders b candle ≡ (ok [], b)
  unfolding process_working_orders working_loop
  idle_loop b candle idle = ground (arith, idle)

  after_manage_quiet :
      (r : Result (List (ExitEvent F)) × Broker F W) (candle : Candle F) (es : List (ExitEvent F))
      → r.0 ≡ ok es
      → after_manage r [] candle none none ≡ (ok (record { fills = []; exits = es }), r.1)
  unfolding enter
  after_manage_quiet (ok _, b) candle es e = ground arith
  after_manage_quiet (err _, b) candle es e = ground arith

  on_candle_quiet :
      (b : Broker F W) (candle : Candle F) (m : ℕ) (es : List (ExitEvent F))
      → IsQuiet m b
      → (manage_open b candle).0 ≡ ok es
      → on_candle b candle none none
        ≡ (ok (record { fills = []; exits = es }), (manage_open b candle).1)
  unfolding on_candle
  on_candle_quiet b candle m es q e =
      rw (idle_loop b candle q.idle) (after_manage_quiet (manage_open b candle) candle es e)

  -- What a candle of a quiet broker gives: it stays quiet, and nothing is raised.
  abbrev Passes : ℕ → Result (Events F) × Broker F W → Type 0
  Passes m r = IsQuiet m r.1 × ((ev : Events F) × (r.0 ≡ ok ev))

  -- A candle with no order, for a quiet broker that holds a position.
  on_candle-Ages :
      (b : Broker F W) (p : Position F) (candle : Candle F) (m : ℕ)
      → IsQuiet m b
      → b.pos ≡ some p
      → Passes m (on_candle b candle none none) × Ages m p (on_candle b candle none none).1.pos
  unfolding manage_open
  on_candle-Ages b p candle m q held =
      let ((q', (es, e)), aged) = manage_position-Ages b p candle m q in
      let open_now : manage_open b candle ≡ manage_position b p candle = ground arith in
      rw (on_candle_quiet b candle m es q (rw open_now e), open_now) ((q', (_, refl)), aged)

  on_candle_flat :
      (b : Broker F W) (candle : Candle F) (m : ℕ)
      → IsQuiet m b
      → b.pos ≡ none
      → Passes m (on_candle b candle none none) × ((on_candle b candle none none).1.pos ≡ none)
  unfolding manage_open
  on_candle_flat b candle m q flat =
      let open_now : manage_open b candle ≡ (ok [], b) = ground arith in
      rw (on_candle_quiet b candle m [] q (rw open_now), open_now) ((q, (_, refl)), flat)

  -- The exits of one candle before those of the candles that follow it.
  abbrev before :
      List (ExitEvent F)
      → Result (List (ExitEvent F)) × Broker F W
      → Result (List (ExitEvent F)) × Broker F W
  before es (err e, b) = (err e, b)
  before es (ok later, b) = (ok (es ++ later), b)

  -- Candles with no orders, up to the first that raises: their exits, and the broker after them.
  unfoldable pub run_candles :
      List (Candle F) → Broker F W → Result (List (ExitEvent F)) × Broker F W
  run_candles [] b = (ok [], b)
  run_candles (c ∷ cs) b =
      let (r, b') = on_candle b c none none in
      let rest = run_candles cs b' in elim r [ err e ↦ (err e, b') | ok ev ↦ before ev.exits rest ]

  -- A run that raises nothing and ends with no position.
  pub record Closes (r : Result (List (ExitEvent F)) × Broker F W) : Type 0 where
    pub exits : List (ExitEvent F)
    pub calm : r.0 ≡ ok exits
    pub flat : r.1.pos ≡ none

  run_candles_step :
      (c : Candle F) (cs : List (Candle F)) (b : Broker F W) (ev : Events F)
      → (on_candle b c none none).0 ≡ ok ev
      → Closes (run_candles cs (on_candle b c none none).1)
      → Closes (run_candles (c ∷ cs) b)
  unfolding run_candles
  run_candles_step c cs b ev e rest = record {
    exits = ev.exits ++ rest.exits;
    calm = ground (arith, rest.calm);
    flat = ground (arith, rest.calm, rest.flat);
  }

  run_candles_flat :
      (cs : List (Candle F)) (b : Broker F W) (m : ℕ)
      → IsQuiet m b
      → b.pos ≡ none
      → Closes (run_candles cs b)
  unfolding run_candles
  run_candles_flat [] b m q flat = record { exits = []; calm = refl; flat = flat }
  run_candles_flat (c ∷ cs) b m q flat =
      let ((q', (ev, e)), flat') = on_candle_flat b c m q flat in
      run_candles_step c cs b ev e (run_candles_flat cs _ m q' flat')

  -- A position of a linear contract is closed by the time that more candles than `max_bars_open`
  -- allows have gone by with no orders, and none of these candles raises.
  pub run_candles-Closes :
      (cs : List (Candle F)) (b : Broker F W) (p : Position F) (m : ℕ)
      → IsQuiet m b
      → b.pos ≡ some p
      → p.bars_open ≤ m
      → m < add p.bars_open (length cs)
      → Closes (run_candles cs b)
  run_candles-Closes [] b p m q held young enough = absurd (omega arith)
  run_candles-Closes (c ∷ cs) b p m q held young enough =
      let b' = (on_candle b c none none).1 in
      let ((q', (ev, e)), aged) = on_candle-Ages b p c m q held in
      run_candles_step c cs b ev e (elim (Option-cases b'.pos) [
        | inl flat ↦ run_candles_flat cs b' m q' flat
        | inr (p', held') ↦
            let aged' : Ages m p (some p') = rw held' at aged in
            run_candles-Closes cs b' p' m q' held' aged'.1 (omega arith)
      ])
