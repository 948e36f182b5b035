-- ===== src/Live/Ghosts.antt =====
-- What the drift correction of `BitunixBroker.on_candle` (execution/bitunix_broker.py) does to a
-- position that the broker did not know of, such as the one that its own order has opened.
use btc_laptop_agents.Prelude.{
  String, ◌≡◌, refl, true, false, not, ◌&&◌, Option, none, some, List, [], ◌∷◌, ◌++◌, All,
  All-append, arith, sym, ◌∙◌, if◌then◌else◌,
}
use btc_laptop_agents.Float.{Float, nought, lt, lit, abs, eq, gt, ◌-◌}
use btc_laptop_agents.Trading.Market.{Candle}
use btc_laptop_agents.Paper.Types.{Order, short, long}
use btc_laptop_agents.Live.Types.{
  Attempt, done, failed, LivePosition, Request, close_order, Exchange, is_raised, OrderEvent,
  PositionEvent, LiveFill, LiveBroker, LiveEvents, qty_of,
}
use btc_laptop_agents.Live.Submit.{get_info, send, prepare_and_send, submit}
use btc_laptop_agents.Live.Sync.{
  is_drift, is_ghost, opt_qty, closing, fill_of, no_events, report_fill, report_exit, synthesize,
  read_position, correct_drift, sync,
}
use btc_laptop_agents.Live.Broker.{on_order_update, on_position_update, submitted, on_candle}

module _ {F : Type 0} ⦃fl : Float F⦄ where
  -- A fill of a quantity that the drift correction takes for none.
  pub record IsDust (x : LiveFill F) : Type 0 where
    pub amount : F
    pub same : x.qty ≡ abs amount
    pub tiny : gt (abs (nought - amount)) (lit 1 100_000_000) && not (eq amount nought) ≡ false

  -- A broker that has synchronised once and knows of no position, or of one that is there.
  is_ghost-fill :
      (p : LivePosition F) (ts : String)
      → eq {F = F} nought nought ≡ true
      → is_ghost none (some p) ≡ false
      → IsDust (fill_of p ts)
  unfolding is_ghost is_drift
  is_ghost-fill p ts z h = record { amount = qty_of p; same = refl; tiny = ground arith }

module _ {F W : Type 0} ⦃fl : Float F⦄ (ex : Exchange F W) where
  -- No call of `place_order` raises.
  abbrev pub IsAccepting : Type 0
  IsAccepting = (q : Request F) (w : W) → is_raised (ex.place_order q w).0 ≡ false

  -- What the world does to the broker.
  pub data Happening : Type 0 where
    candle_closed : Candle F → Option (Order F) → Happening
    order_updated : OrderEvent F → Happening
    position_updated : PositionEvent F → Happening
    world_moved : W → Happening

  unfoldable pub happen : LiveBroker F W → Happening → List (LiveFill F) × LiveBroker F W
  happen b (candle_closed candle order) =
      let (ev, b') = on_candle ex b candle order in (ev.fills, b')
  happen b (order_updated e) = ([], on_order_update ex b e)
  happen b (position_updated e) = ([], on_position_update ex b e)
  happen b (world_moved w) = ([], record b { world = w })

  -- The fills that a sequence of happenings reports.
  unfoldable pub fills_of : LiveBroker F W → List Happening → List (LiveFill F)
  fills_of b [] = []
  fills_of b (x ∷ xs) = let (fills, b') = happen b x in fills ++ fills_of b' xs

  -- A broker that has synchronised, and the fills of its next events.
  pub record IsQuiet (fills : List (LiveFill F)) (b : LiveBroker F W) : Type 0 where
    pub dusty : All IsDust fills
    pub ready : b.initialized ≡ true

  correct_drift-kept :
      (b : LiveBroker F W) (seen : Option (LivePosition F))
      → ((correct_drift ex b seen).1.last_pos ≡ b.last_pos)
        × ((correct_drift ex b seen).1.initialized ≡ b.initialized)
  unfolding correct_drift
  correct_drift-kept b seen = ground arith

  -- After the drift correction a new position is no ghost.
  correct_drift-ghost :
      (b : LiveBroker F W) (seen : Option (LivePosition F)) (p : LivePosition F)
      → IsAccepting
      → b.initialized ≡ true
      → b.last_pos ≡ none
      → (correct_drift ex b seen).0 ≡ some p
      → is_ghost none (some p) ≡ false
  unfolding correct_drift
  correct_drift-ghost b seen p ok i l h = ground (arith, ok (closing (opt_qty seen)) b.world)

  synthesize-IsQuiet :
      (b : LiveBroker F W) (current : Option (LivePosition F)) (candle : Candle F)
      (ev : LiveEvents F)
      → eq {F = F} nought nought ≡ true
      → b.initialized ≡ true
      → ((p : LivePosition F)
          → b.last_pos ≡ none
          → current ≡ some p
          → is_ghost none (some p) ≡ false)
      → ev.fills ≡ []
      → IsQuiet (synthesize b current candle ev).0.fills (synthesize b current candle ev).1
  unfolding synthesize report_fill report_exit
  synthesize-IsQuiet b none candle ev z i g e = ground arith
  synthesize-IsQuiet b (some p) candle ev z i g e = ground (arith, is_ghost-fill p candle.ts z, g p)

  read_position-kept : (b : LiveBroker F W) → (read_position ex b).1.initialized ≡ b.initialized
  unfolding read_position
  read_position-kept b = ground arith

  sync-IsQuiet :
      (b : LiveBroker F W) (candle : Candle F) (ev : LiveEvents F)
      → IsAccepting
      → eq {F = F} nought nought ≡ true
      → b.initialized ≡ true
      → ev.fills ≡ []
      → IsQuiet (sync ex b candle ev).0.fills (sync ex b candle ev).1
  unfolding sync
  sync-IsQuiet b candle ev ok z i e = go (read_position ex b).0 refl
    where
      go :
          (r : Attempt (Option (LivePosition F)))
          → (read_position ex b).0 ≡ r
          → IsQuiet (sync ex b candle ev).0.fills (sync ex b candle ev).1
      go (failed x) h = ground (arith, read_position-kept b)
      go (done seen) h =
          let b1 = (read_position ex b).1 in
          let kept = correct_drift-kept b1 seen in
          let fresh : b1.initialized ≡ true = read_position-kept b ∙ i in
          rw (h, sync)
            (synthesize-IsQuiet (correct_drift ex b1 seen).1 (correct_drift ex b1 seen).0 candle ev
              z (kept.1 ∙ fresh)
              (λ p l c. correct_drift-ghost b1 seen p ok fresh (sym kept.0 ∙ l) c) e)

  submit-kept :
      (b : LiveBroker F W) (o : Order F) (candle : Candle F)
      → (submit ex b o candle).1.initialized ≡ b.initialized
  unfolding submit prepare_and_send get_info send
  submit-kept b o candle = ground arith

  submitted-kept :
      (b : LiveBroker F W) (candle : Candle F) (order : Option (Order F))
      → ((submitted ex b candle order).1.initialized ≡ b.initialized)
        × ((submitted ex b candle order).0.fills ≡ [])
  unfolding submitted
  submitted-kept b candle none = (refl, refl)
  submitted-kept b candle (some o) = ground (arith, submit-kept b o candle)

  on_candle-IsQuiet :
      (b : LiveBroker F W) (candle : Candle F) (order : Option (Order F))
      → IsAccepting
      → eq {F = F} nought nought ≡ true
      → b.initialized ≡ true
      → IsQuiet (on_candle ex b candle order).0.fills (on_candle ex b candle order).1
  unfolding on_candle
  on_candle-IsQuiet b candle order ok z i =
      let (ev, b') = submitted ex b candle order in
      ground (arith, submitted-kept b candle order, sync-IsQuiet b' candle ev ok z)

  -- A new position, of a quantity other than dust, that the push cache of a synchronised broker with no
  -- position tells of: a candle with no order sends one order, to close its whole quantity from the
  -- other side, and reports no fill.
  on_candle_closes_ghost :
      (b : LiveBroker F W) (p : LivePosition F) (candle : Candle F)
      → ex.kill_switch b.world ≡ false
      → b.initialized ≡ true
      → b.last_pos ≡ none
      → b.ws_position_cache ≡ some p
      → lt (ex.time b.world - b.last_ws_update) (lit 30 1) ≡ true
      → is_raised
          (ex.place_order
            (close_order (if gt (qty_of p) nought then short else long) (abs (qty_of p)))
            b.world).0
        ≡ false
      → is_ghost none (some p) ≡ true
      → on_candle ex b candle none ≡ (
        no_events,
        record b {
          world =
              (ex.place_order
                (close_order (if gt (qty_of p) nought then short else long) (abs (qty_of p)))
                b.world).1;
        },
      )
  unfolding on_candle submitted sync read_position correct_drift synthesize
  on_candle_closes_ghost b p candle k i l c t ok g = ground arith

  happen-IsQuiet :
      (b : LiveBroker F W) (x : Happening)
      → IsAccepting
      → eq {F = F} nought nought ≡ true
      → b.initialized ≡ true
      → IsQuiet (happen b x).0 (happen b x).1
  unfolding happen on_order_update on_position_update
  happen-IsQuiet b (candle_closed candle order) ok z i = on_candle-IsQuiet b candle order ok z i
  happen-IsQuiet b (order_updated e) ok z i = ground arith
  happen-IsQuiet b (position_updated e) ok z i = ground arith
  happen-IsQuiet b (world_moved w) ok z i = ground arith

  -- On an exchange that accepts its orders, a broker that has synchronised once reports no fill any
  -- more, but of a quantity that is dust, whatever candles, orders and updates follow and however the
  -- world moves. Of floats it is used that zero equals itself.
  pub fills_of-IsDust :
      (b : LiveBroker F W) (xs : List Happening)
      → IsAccepting
      → eq {F = F} nought nought ≡ true
      → b.initialized ≡ true
      → All IsDust (fills_of b xs)
  unfolding fills_of
  fills_of-IsDust b [] ok z i = tt
  fills_of-IsDust b (x ∷ xs) ok z i =
      let now = happen-IsQuiet b x ok z i in
      All-append IsDust (happen b x).0 (fills_of (happen b x).1 xs) now.dusty
        (fills_of-IsDust (happen b x).1 xs ok z now.ready)
