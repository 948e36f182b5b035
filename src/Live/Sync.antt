-- ===== src/Live/Sync.antt =====
-- The second half of `BitunixBroker.on_candle` (execution/bitunix_broker.py): the position is read from
-- the push cache or from REST, drift is corrected, and fills and exits are told from the difference.
use btc_laptop_agents.Prelude.{
  String, Bool, true, false, not, ◌&&◌, Option, none, some, List, [], ◌∷◌, ◌++◌, str_eq,
  if◌then◌else◌,
}
use btc_laptop_agents.Float.{
  Float, nought, one, lit, ◌+◌, ◌-◌, ◌*◌, ◌/◌, abs, lt, gt, eq, truthy, or_else,
}
use btc_laptop_agents.Trading.Market.{Candle}
use btc_laptop_agents.Paper.Types.{Side, long, short, is_long}
use btc_laptop_agents.Live.Types.{
  zero_division, provider_failed, Attempt, done, failed, LivePosition, Request, close_order,
  Exchange, is_raised, LiveFill, LiveExit, fill_record, exit_record, LiveBroker, LiveEvents, qty_of,
  price_of,
}

abbrev pub no_events : {F : Type 0} → LiveEvents F
no_events = record { fills = []; exits = []; errors = []; submitted = none }

-- `(p.get("symbol") or p.get("symbolName")) == symbol`
abbrev pub is_for : {F : Type 0} → String → LivePosition F → Bool
is_for symbol p = elim p.symbol [ none ↦ false | some s ↦ str_eq s symbol ]

module _ {F : Type 0} ⦃fl : Float F⦄ where
  -- The side that the exchange gives, or the sign of the quantity.
  abbrev pub side_of : LivePosition F → Side
  side_of p = elim p.side [ some s ↦ s | none ↦ if gt (qty_of p) nought then long else short ]

  -- The first position of the symbol whose quantity is not zero.
  unfoldable pub first_open : String → List (LivePosition F) → Option (LivePosition F)
  first_open symbol [] = none
  first_open symbol (p ∷ ps) =
      if is_for symbol p && gt (abs (qty_of p)) nought then some p else first_open symbol ps

  abbrev pub opt_qty : Option (LivePosition F) → F
  opt_qty none = nought
  opt_qty (some p) = qty_of p

  -- `abs(last_qty - curr_qty) > 0.00000001`
  unfoldable pub is_drift : Option (LivePosition F) → Option (LivePosition F) → Bool
  is_drift last current = gt (abs (opt_qty last - opt_qty current)) (lit 1 100_000_000)

  -- A position that the exchange has and the broker does not know of.
  unfoldable pub is_ghost : Option (LivePosition F) → Option (LivePosition F) → Bool
  is_ghost last current =
      is_drift last current && eq (opt_qty last) nought && not (eq (opt_qty current) nought)

  -- The order that closes it.
  abbrev pub closing : F → Request F
  closing qty = close_order (if gt qty nought then short else long) (abs qty)

  abbrev pub fill_of : LivePosition F → String → LiveFill F
  fill_of p ts = record {
    trade_id = p.position_id;
    side = side_of p;
    price = price_of p;
    qty = abs (qty_of p);
    at = ts;
  }

abbrev pub is_long_entry : Option Side → Bool
is_long_entry none = false
is_long_entry (some s) = is_long s

module _ {F W : Type 0} ⦃fl : Float F⦄ where
  -- The profit of an exit at `px`; nothing where the entry is not known.
  unfoldable pub exit_pnl : LiveBroker F W → F → Attempt F
  exit_pnl b px =
      let entry = or_else b.entry_price nought in
      let qty = or_else b.entry_qty nought in
      let is_buy = is_long_entry b.entry_side in
      if gt entry nought && truthy qty
      then (if b.is_inverse
          then (if eq px nought
              then failed zero_division
              else done (
                  qty
                  * entry
                  * (if is_buy then one / entry - one / px else one / px - one / entry)
                  * px))
          else done (if is_buy then (px - entry) * qty else (entry - px) * qty))
      else done nought

  -- No position before, one now: a fill.
  unfoldable pub report_fill :
      LiveBroker F W → LivePosition F → Candle F → LiveEvents F → LiveEvents F × LiveBroker F W
  report_fill b p candle ev =
      let fill = fill_of p candle.ts in
      (
        record ev { fills = ev.fills ++ fill ∷ [] },
        record b {
          order_generated_at =
              if truthy (or_else b.order_generated_at nought) then none else b.order_generated_at;
          entry_price = some fill.price;
          entry_side = some fill.side;
          entry_qty = some fill.qty;
          order_history = b.order_history ++ fill_record fill ∷ [];
          last_pos = some p;
        },
      )

  -- A position before, none now: an exit at the candle's close.
  unfoldable pub report_exit :
      LiveBroker F W → LivePosition F → Candle F → LiveEvents F → LiveEvents F × LiveBroker F W
  report_exit b p candle ev = elim (exit_pnl b candle.close) [
    | failed e ↦ (record ev { errors = ev.errors ++ e ∷ [] }, b)
    | done pnl ↦
        let exit : LiveExit F = record {
          trade_id = p.position_id;
          entry = or_else b.entry_price nought;
          price = candle.close;
          quantity = or_else b.entry_qty nought;
          pnl = pnl;
          at = candle.ts;
          side = b.entry_side;
        } in
        (
          record ev { exits = ev.exits ++ exit ∷ [] },
          record b {
            order_history = b.order_history ++ exit_record exit ∷ [];
            current_equity = b.current_equity + pnl;
            entry_price = none;
            entry_side = none;
            entry_qty = none;
            last_pos = none;
          },
        )
  ]

  -- The events of the difference; the first synchronisation only notes the position.
  unfoldable pub synthesize :
      LiveBroker F W
      → Option (LivePosition F)
      → Candle F
      → LiveEvents F
      → LiveEvents F × LiveBroker F W
  synthesize b current candle ev =
      if b.initialized
      then elim b.last_pos [
        | none ↦ elim current [ none ↦ (ev, b) | some p ↦ report_fill b p candle ev ]
        | some q ↦ elim current [
          | none ↦ report_exit b q candle ev
          | some p ↦ (ev, record b { last_pos = some p })
        ]
      ]
      else (ev, record b { last_pos = current; initialized = true })

module _ {F W : Type 0} ⦃fl : Float F⦄ (ex : Exchange F W) where
  -- The position of the push cache where it is fresh, else of REST; `failed` where the call raised.
  unfoldable pub read_position : LiveBroker F W → Attempt (Option (LivePosition F)) × LiveBroker F W
  read_position b =
      if lt (ex.time b.world - b.last_ws_update) (lit 30 1)
      then (done b.ws_position_cache, b)
      else (let (r, w) = ex.get_pending_positions b.world in
          elim r [
            | none ↦ (failed provider_failed, record b { world = w })
            | some ps ↦
                let current = first_open b.symbol ps in
                (
                  done current,
                  record b { world = w; ws_position_cache = current; last_ws_update = ex.time w },
                )
          ])

  -- A ghost position is closed at the market, and forgotten if that did not raise.
  unfoldable pub correct_drift :
      LiveBroker F W → Option (LivePosition F) → Option (LivePosition F) × LiveBroker F W
  correct_drift b current =
      if b.initialized && is_ghost b.last_pos current
      then (let (r, w) = ex.place_order (closing (opt_qty current)) b.world in
          (if is_raised r then current else none, record b { world = w }))
      else (current, b)

  unfoldable pub sync : LiveBroker F W → Candle F → LiveEvents F → LiveEvents F × LiveBroker F W
  sync b candle ev =
      let (r, b1) = read_position b in
      elim r [
        | failed e ↦ (record ev { errors = ev.errors ++ e ∷ [] }, b1)
        | done seen ↦ let (current, b2) = correct_drift b1 seen in synthesize b2 current candle ev
      ]
