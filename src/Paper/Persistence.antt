-- ===== src/Paper/Persistence.antt =====
-- Saving and loading the state of `PaperBroker` (paper/broker_state.py), and what the saves around an
-- exit (paper/broker.py) leave in the store.
use btc_laptop_agents.Prelude.{◌≡◌, true, Option, none, some, [], ◌∷◌, ok, arith}
use btc_laptop_agents.Float.{Float}
use btc_laptop_agents.Host.{Host}
use btc_laptop_agents.Trading.Market.{Tick}
use btc_laptop_agents.Paper.Types.{FillEvent, Position, ExitEvent}
use btc_laptop_agents.Paper.Broker.{Broker}
use btc_laptop_agents.Paper.Store.{
  save_state, load_state, load_snapshot, map_option, load_position, unexpired, snapshot,
}
use btc_laptop_agents.Paper.Exit.{
  book_exit, exit_position, exit_if, check_tick_exit, settle_exit, on_tick,
}

abbrev pub unnamed : {F : Type 0} → Option (Position F) → Option (Position F)
unnamed none = none
unnamed (some p) = some (record p { trade_id = "" })

-- The position as an exit leaves it in the store: the whole quantity, and no lots.
abbrev pub ghost : {F : Type 0} → Position F → Position F
ghost p = record p { lots = []; trade_id = "" }

module _ {F W : Type 0} ⦃fl : Float F⦄ ⦃host : Host F W (FillEvent F)⦄ where
  -- What one broker saved, another one with no position takes over as its own when it loads it: both
  -- equities, the ids that were processed, the order history, the position but for its trade id, and
  -- the working orders that are less than 24 hours old by its clock. All else it keeps as it is: the
  -- times of the last minute's orders and of the last trade are not saved.
  pub load_state-save_state :
      (b c : Broker F W)
      → b.persistent ≡ true
      → c.persistent ≡ true
      → c.pos ≡ none
      → load_state (record c { saved = (save_state b).saved }) ≡ record c {
        saved = some (snapshot b);
        starting_equity = b.starting_equity;
        current_equity = b.current_equity;
        processed_order_ids = b.processed_order_ids;
        order_history = b.order_history;
        pos = unnamed b.pos;
        working_orders = unexpired (host.time c.world) b.working_orders;
      }
  unfolding load_state save_state load_snapshot map_option load_position
  load_state-save_state b c kept kept' fresh = ground arith

  -- A tick that closes the position of a broker with a store leaves the position in the store: the
  -- broker has none, and loading the state brings it back with its whole quantity and no lots.
  pub on_tick_resurrects :
      (b : Broker F W) (p : Position F) (tick : Tick F) (e : ExitEvent F)
      → b.persistent ≡ true
      → b.pos ≡ some p
      → (on_tick b tick).0 ≡ ok (e ∷ [])
      → ((on_tick b tick).1.pos ≡ none) × ((load_state (on_tick b tick).1).pos ≡ some (ghost p))
  unfolding on_tick check_tick_exit settle_exit exit_if exit_position book_exit save_state
      load_state load_snapshot map_option load_position
  on_tick_resurrects b p tick e kept held h = ground arith
