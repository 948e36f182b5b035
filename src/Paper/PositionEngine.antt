-- ===== src/Paper/PositionEngine.antt =====
-- paper/position_engine.py: profit and loss, and closing lots first in, first out.
use btc_laptop_agents.Prelude.{
  Bool, true, false, Option, none, some, List, [], ◌∷◌, foldl, not, if◌then◌else◌, Result, ok, err,
  ◌>>=◌,
}
use btc_laptop_agents.Float.{
  Float, nought, one, ◌+◌, ◌-◌, ◌*◌, ◌/◌, ◌//◌, neg, abs, lt, le, gt, min,
}
use btc_laptop_agents.Paper.Types.{Side, is_long, is_short, Lot, Position, entry_price}

pub record FifoResult (F : Type 0) : Type 0 where
  pub realized_pnl : F
  pub exit_fees : F
  pub reduction : F

pub record ExitPnl (F : Type 0) : Type 0 where
  pub avg_entry : F
  pub net_pnl : F
  pub total_fees : F
  pub risk : F

-- What one round of the loop of `process_fifo_close` takes from the front lot.
pub record Slice (F : Type 0) : Type 0 where
  pub close_qty : F
  pub entry_fees_portion : F
  pub exit_fees : F
  pub pnl : F

module _ {F : Type 0} ⦃fl : Float F⦄ where
  unfoldable pub calculate_unrealized_pnl : Option (Position F) → F → Bool → Result F
  calculate_unrealized_pnl none current_price is_inverse = ok nought
  calculate_unrealized_pnl (some p) current_price is_inverse =
      let entry = entry_price p in
      if le p.qty nought
      then ok nought
      else if is_inverse
      then (if is_long p.side
          then (do a ← one // entry; b ← one // current_price; ok (p.qty * (a - b) * current_price))
          else (do
            a ← one // current_price
            b ← one // entry
            ok (p.qty * (a - b) * current_price)))
      else if is_long p.side
      then ok ((current_price - entry) * p.qty)
      else ok ((entry - current_price) * p.qty)

  -- The profit of closing `close_qty` of one lot, before fees.
  unfoldable pub lot_pnl : Side → F → F → F → Bool → Result F
  lot_pnl side avg_entry fill_px close_qty is_inverse =
      if is_inverse
      then (do
        a ← one // avg_entry
        b ← one // fill_px
        let coins = (a - b) * close_qty
        ok ((if is_short side then neg coins else coins) * fill_px))
      else if is_long side
      then ok ((fill_px - avg_entry) * close_qty)
      else ok ((avg_entry - fill_px) * close_qty)

  unfoldable pub slice_of : Side → F → F → Bool → Lot F → F → Result (Slice F)
  slice_of side fill_px rate is_inverse lot remaining = do
    let close_qty = min remaining lot.qty
    ratio ← close_qty // lot.qty
    pnl ← lot_pnl side lot.price fill_px close_qty is_inverse
    let size = if not is_inverse then close_qty * fill_px else close_qty
    ok (record {
      close_qty = close_qty;
      entry_fees_portion = lot.fees * ratio;
      exit_fees = abs size * rate;
      pnl = pnl;
    })

  abbrev pub add_slice : FifoResult F → Slice F → FifoResult F
  add_slice t s = record {
    realized_pnl = t.realized_pnl + (s.pnl - s.exit_fees - s.entry_fees_portion);
    exit_fees = t.exit_fees + (s.exit_fees + s.entry_fees_portion);
    reduction = t.reduction + s.close_qty;
  }

  abbrev pub cut_lot : Lot F → Slice F → Lot F
  cut_lot lot s = record lot { qty = lot.qty - s.close_qty; fees = lot.fees - s.entry_fees_portion }

  -- The loop of `process_fifo_close`: the totals, or the exception, and the lots that are left.
  unfoldable pub fifo_loop :
      Side → F → F → Bool → List (Lot F) → F → FifoResult F → Result (FifoResult F) × List (Lot F)
  fifo_loop side fill_px rate is_inverse [] remaining t = (ok t, [])
  fifo_loop side fill_px rate is_inverse (lot ∷ lots) remaining t = elim (gt remaining nought) [
    | false ↦ (ok t, lot ∷ lots)
    | true ↦ elim (slice_of side fill_px rate is_inverse lot remaining) [
      | err e ↦ (err e, lot ∷ lots)
      | ok s ↦ elim (lt s.close_qty lot.qty) [
        | true ↦ (ok (add_slice t s), cut_lot lot s ∷ lots)
        | false ↦
            fifo_loop side fill_px rate is_inverse lots (remaining - s.close_qty) (add_slice t s)
      ]
    ]
  ]

  abbrev pub zero_totals : FifoResult F
  zero_totals = record { realized_pnl = nought; exit_fees = nought; reduction = nought }

  unfoldable pub process_fifo_close :
      Position F → F → F → F → Bool → Result (FifoResult F) × List (Lot F)
  process_fifo_close p actual_qty fill_px rate is_inverse =
      fifo_loop p.side fill_px rate is_inverse p.lots actual_qty zero_totals

  -- The entry notional and fees of all lots, which `calculate_full_exit_pnl` pops.
  abbrev pub lot_notional : List (Lot F) → F
  lot_notional = foldl (λ s l. s + l.qty * l.price) nought

  abbrev pub lot_fees : List (Lot F) → F
  lot_fees = foldl (λ s l. s + l.fees) nought

  -- The profit and the risk, for an inverse or a linear contract.
  unfoldable pub exit_amounts : Position F → F → F → Bool → Result (F × F)
  exit_amounts p avg px is_inverse =
      if is_inverse
      then (do
        a ← one // (if is_long p.side then avg else px)
        b ← one // (if is_long p.side then px else avg)
        c ← one // avg
        d ← one // p.sl
        ok (p.qty * (a - b) * px, p.qty * abs (c - d) * px))
      else ok (
        (if is_long p.side then (px - avg) * p.qty else (avg - px) * p.qty),
        abs (avg - p.sl) * p.qty,
      )

  -- It also empties `pos.lots`, on every path.
  unfoldable pub calculate_full_exit_pnl : Position F → F → F → Bool → Result (ExitPnl F)
  calculate_full_exit_pnl p px rate is_inverse = do
    let avg = if gt p.qty nought then lot_notional p.lots / p.qty else px
    amounts ← exit_amounts p avg px is_inverse
    let fees = abs (if not is_inverse then p.qty * px else p.qty) * rate
    ok (record {
      avg_entry = avg;
      net_pnl = amounts.0 - fees - lot_fees p.lots;
      total_fees = fees + lot_fees p.lots;
      risk = amounts.1;
    })
