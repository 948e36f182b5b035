-- ===== src/Paper/Events.antt =====
-- The dictionaries that `_try_fill` and `_close_position_fifo` of paper/broker.py build.
use btc_laptop_agents.Prelude.{String, false, Option, none, some, [], ◌∷◌, ◌++◌, if◌then◌else◌}
use btc_laptop_agents.Float.{Float, lit, nought, ◌+◌, ◌-◌, lt, le}
use btc_laptop_agents.Paper.Types.{Lot, Position, Order, limit, FillEvent, CloseEvent}
use btc_laptop_agents.Paper.PositionEngine.{FifoResult}

module _ {F : Type 0} ⦃fl : Float F⦄ where
  abbrev pub remainder_order : String → Order F → F → F → F → Order F
  remainder_order id o actual_qty equity now = record {
    go = false;
    client_order_id = some (Prim.Native.String.◌++◌ id "_remainder");
    side = o.side;
    entry_type = limit;
    entry = o.entry;
    qty = o.qty - actual_qty;
    sl = o.sl;
    tp = o.tp;
    equity = some equity;
    created_at = some now;
  }

  -- The stored quantity below which a position counts as closed.
  abbrev pub dust : F
  dust = lit 1 100_000_000

  abbrev pub close_event : Position F → FifoResult F → Order F → F → String → CloseEvent F
  close_event p x o px at = record {
    full = le p.qty dust;
    trade_id = p.trade_id;
    side = o.side;
    price = px;
    qty = x.reduction;
    pnl = x.realized_pnl;
    fees = x.exit_fees;
    at = at;
  }

  abbrev pub fill_event : Order F → String → F → F → F → F → String → FillEvent F
  fill_event o trade_id px pos_qty actual_qty fees at = record {
    trade_id = trade_id;
    side = o.side;
    price = px;
    qty = pos_qty;
    sl = o.sl;
    tp = o.tp;
    at = at;
    fees = fees;
    requested_qty = if lt actual_qty o.qty then some o.qty else none;
  }

  -- A fresh position, or the old one with one more lot.
  abbrev pub grown : Option (Position F) → Order F → Lot F → String → String → Position F
  grown (some p) o lot trade_id at = record p { lots = p.lots ++ lot ∷ []; qty = p.qty + lot.qty }
  grown none o lot trade_id at = record {
    side = o.side;
    qty = lot.qty;
    sl = o.sl;
    tp = o.tp;
    opened_at = at;
    lots = lot ∷ [];
    trade_id = trade_id;
    bars_open = 0;
    trail_active = false;
    trail_stop = nought;
  }
