-- ===== src/Paper/Store.antt =====
-- paper/broker_state.py: `_save_state` and `_load_state`. The store holds the last dictionary saved
-- for the symbol; that its JSON reads back as it was written is assumed.
use btc_laptop_agents.Prelude.{Option, none, some, List, [], ◌∷◌, if◌then◌else◌, keep_if}
use btc_laptop_agents.Float.{Float, lit, nought, ◌-◌, lt}
use btc_laptop_agents.Host.{Host}
use btc_laptop_agents.Paper.Types.{Position, Order, FillEvent, entry_price}
use btc_laptop_agents.Paper.Broker.{Broker, Snapshot, SavedPosition}

module _ {F : Type 0} ⦃fl : Float F⦄ where
  abbrev pub save_position : Position F → SavedPosition F
  save_position p = record {
    side = p.side;
    entry = entry_price p;
    entry_fees = none;
    qty = p.qty;
    sl = p.sl;
    tp = p.tp;
    opened_at = p.opened_at;
    lots = some p.lots;
    bars_open = p.bars_open;
    trail_active = p.trail_active;
    trail_stop = p.trail_stop;
  }

  -- `_load_state` on the "pos" entry; a file without lots gets one lot for the whole position.
  unfoldable pub load_position : SavedPosition F → Position F
  load_position s = record {
    side = s.side;
    qty = s.qty;
    sl = s.sl;
    tp = s.tp;
    opened_at = s.opened_at;
    lots = elim s.lots [
      | some lots ↦ lots
      | none ↦
          record {
            qty = s.qty;
            price = s.entry;
            fees = elim s.entry_fees [ none ↦ nought | some x ↦ x ];
          }
          ∷ []
    ];
    trade_id = "";
    bars_open = s.bars_open;
    trail_active = s.trail_active;
    trail_stop = s.trail_stop;
  }

  -- Working orders less than 24 hours old; an order with no date counts as new.
  unfoldable pub unexpired : F → List (Order F) → List (Order F)
  unexpired now =
      keep_if λ o. lt (now - elim o.created_at [ none ↦ now | some t ↦ t ]) (lit 86400 1)

  unfoldable pub map_option : Option (SavedPosition F) → Option (Position F) → Option (Position F)
  map_option none current = current
  map_option (some s) current = some (load_position s)

module _ {F W : Type 0} ⦃fl : Float F⦄ ⦃host : Host F W (FillEvent F)⦄ where
  abbrev pub snapshot : Broker F W → Snapshot F
  snapshot b = record {
    symbol = b.symbol;
    starting_equity = b.starting_equity;
    current_equity = b.current_equity;
    processed_order_ids = b.processed_order_ids;
    order_history = b.order_history;
    working_orders = b.working_orders;
    pos = elim b.pos [ none ↦ none | some p ↦ some (save_position p) ];
    saved_at = host.time b.world;
  }

  unfoldable pub save_state : Broker F W → Broker F W
  save_state b = if b.persistent then record b { saved = some (snapshot b) } else b

  unfoldable pub load_snapshot : Snapshot F → Broker F W → Broker F W
  load_snapshot s b = record b {
    starting_equity = s.starting_equity;
    current_equity = s.current_equity;
    processed_order_ids = s.processed_order_ids;
    order_history = s.order_history;
    working_orders = unexpired (host.time b.world) s.working_orders;
    pos = map_option s.pos b.pos;
  }

  unfoldable pub load_state : Broker F W → Broker F W
  load_state b = if b.persistent then elim b.saved [ none ↦ b | some s ↦ load_snapshot s b ] else b
