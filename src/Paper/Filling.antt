-- ===== src/Paper/Filling.antt =====
-- What one call of `_try_fill` (paper/broker.py) does to the broker, by how it ends: an order that is
-- not filled changes nothing but the counters, and a fill is within the order and the volume.
use btc_laptop_agents.Prelude.{
  ◌≡◌, ◌≢◌, ◌⊎◌, false, Option, none, some, ok, arith, String, Bool, inl, inr, Option-cases,
}
use btc_laptop_agents.Float.{Float, nought, lit, ◌*◌, gt, or_else}
use btc_laptop_agents.Float.Laws.{◌≼◌, IsOrdered, min-le_left, min-le_right}
use btc_laptop_agents.Host.{Host}
use btc_laptop_agents.Trading.Market.{Candle, Tick}
use btc_laptop_agents.Paper.Types.{FillEvent, Order, Fill, filled, Position}
use btc_laptop_agents.Paper.Broker.{Broker}
use btc_laptop_agents.Paper.Pricing.{capped_qty}
use btc_laptop_agents.Paper.Risk.Limits.{validate_risk_limits-IsAccepted}
use btc_laptop_agents.Paper.Fill.{
  claim_order, fill_claimed, fill_at, apply_fill, pick_trade_id, open_or_grow, close_position_fifo,
  try_fill,
}

-- What a call that fills nothing leaves alone.
pub record IsUntouched {F W : Type 0} (b b' : Broker F W) : Type 0 where
  pub pos_same : b'.pos ≡ b.pos
  pub equity_same : b'.current_equity ≡ b.current_equity
  pub history_same : b'.order_history ≡ b.order_history
  pub working_same : b'.working_orders ≡ b.working_orders
  pub saved_same : b'.saved ≡ b.saved

module _ {F W : Type 0} ⦃fl : Float F⦄ ⦃host : Host F W (FillEvent F)⦄ where
  apply_fill-ne-none :
      (b : Broker F W) (id : String) (equity : F) (o : Order F) (qty px : F) (candle : Candle F)
      (is_working : Bool)
      → (apply_fill b id equity o qty px candle is_working).0 ≢ ok none
  unfolding apply_fill
  apply_fill-ne-none b id equity o qty px candle is_working h = ground arith

  fill_claimed-IsUntouched :
      (b : Broker F W) (id : String) (o : Order F) (candle : Candle F) (tick : Option (Tick F))
      (is_working : Bool)
      → (fill_claimed b id o candle tick is_working).0 ≡ ok none
      → IsUntouched b (fill_claimed b id o candle tick is_working).1
  unfolding fill_claimed fill_at
  fill_claimed-IsUntouched b id o candle tick is_working h = grind (arith, apply_fill-ne-none)

  -- An order that is not filled leaves the position, the equity, the history, the working orders and
  -- the store as they were.
  try_fill-IsUntouched :
      (b : Broker F W) (candle : Candle F) (o : Order F) (is_working : Bool)
      (tick : Option (Tick F))
      → (try_fill b candle o is_working tick).0 ≡ ok none
      → IsUntouched b (try_fill b candle o is_working tick).1
  unfolding try_fill claim_order
  try_fill-IsUntouched b candle o is_working tick h = grind (arith, fill_claimed-IsUntouched)

-- A fill of the order `o`: its side, and its quantity within the order and a tenth of the volume.
pub record IsWithin {F : Type 0} ⦃fl : Float F⦄ (o : Order F) (candle : Candle F) (e : FillEvent F)
    : Type 0 where
  pub side_same : e.side ≡ o.side
  pub within_order : e.qty ≼ o.qty
  pub within_volume : (gt candle.volume nought ≡ false) ⊎ (e.qty ≼ candle.volume * lit 1 10)

module _ {F : Type 0} ⦃fl : Float F⦄ (laws : IsOrdered F) where
  capped_qty-within :
      (o : Order F) (candle : Candle F)
      → o.qty ≼ o.qty
      → (candle.volume * lit 1 10) ≼ (candle.volume * lit 1 10)
      → (capped_qty o candle ≼ o.qty)
        × ((gt candle.volume nought ≡ false) ⊎ (capped_qty o candle ≼ (candle.volume * lit 1 10)))
  unfolding capped_qty
  capped_qty-within o candle hq hv = ground (
    arith,
    min-le_left laws o.qty (candle.volume * lit 1 10) hq,
    min-le_left laws o.qty o.qty hq,
    min-le_right laws o.qty (candle.volume * lit 1 10) hq hv,
  )

module _ {F W : Type 0} ⦃fl : Float F⦄ ⦃host : Host F W (FillEvent F)⦄ where
  close_position_fifo-ne-filled :
      (b : Broker F W) (p : Position F) (o : Order F) (qty px : F) (candle : Candle F)
      (e : FillEvent F)
      → (close_position_fifo b p o qty px candle).0 ≢ ok (filled e)
  unfolding close_position_fifo
  close_position_fifo-ne-filled b p o qty px candle e h = ground arith

  open_or_grow-event :
      (b : Broker F W) (id trade_id : String) (equity : F) (o : Order F) (qty px : F)
      (candle : Candle F) (is_working : Bool) (e : FillEvent F)
      → b.is_inverse ≡ false
      → (open_or_grow b id trade_id equity o qty px candle is_working).0 ≡ filled e
      → (e.qty ≡ qty) × (e.side ≡ o.side)
  unfolding open_or_grow
  open_or_grow-event b id trade_id equity o qty px candle is_working e linear h = ground arith

  pick_trade_id-linear :
      (b : Broker F W) (id : String) (is_working : Bool)
      → (pick_trade_id b id is_working).1.is_inverse ≡ b.is_inverse
  unfolding pick_trade_id
  pick_trade_id-linear b id is_working = ground arith

  apply_fill-filled :
      (b : Broker F W) (id : String) (equity : F) (o : Order F) (qty px : F) (candle : Candle F)
      (is_working : Bool) (e : FillEvent F)
      → b.is_inverse ≡ false
      → (apply_fill b id equity o qty px candle is_working).0 ≡ ok (some (filled e))
      → (e.qty ≡ qty) × (e.side ≡ o.side)
  unfolding apply_fill
  apply_fill-filled b id equity o qty px candle is_working e linear h =
      let (trade_id, b1) = pick_trade_id b id is_working in
      let opened = open_or_grow-event b1 id trade_id equity o qty px candle is_working e in
      let same = pick_trade_id-linear b id is_working in
      elim (Option-cases b.pos) [
        | inl flat ↦ ground (arith, opened, same)
        | inr (p, held) ↦
            ground (arith, opened, same, close_position_fifo-ne-filled b1 p o qty px candle e)
      ]

  fill_claimed-capped :
      (b : Broker F W) (id : String) (o : Order F) (candle : Candle F) (tick : Option (Tick F))
      (is_working : Bool) (e : FillEvent F)
      → b.is_inverse ≡ false
      → (fill_claimed b id o candle tick is_working).0 ≡ ok (some (filled e))
      → (e.qty ≡ capped_qty o candle) × (e.side ≡ o.side)
  unfolding fill_claimed fill_at
  fill_claimed-capped b id o candle tick is_working e linear h = grind (arith, apply_fill-filled)

module _ {F W : Type 0} ⦃fl : Float F⦄ ⦃host : Host F W (FillEvent F)⦄ (laws : IsOrdered F) where
  fill_claimed-number :
      (b : Broker F W) (id : String) (o : Order F) (candle : Candle F) (tick : Option (Tick F))
      (is_working : Bool) (x : Fill F)
      → (fill_claimed b id o candle tick is_working).0 ≡ ok (some x)
      → o.qty ≼ o.qty
  unfolding fill_claimed
  fill_claimed-number b id o candle tick is_working x h = grind (
    arith,
    validate_risk_limits-IsAccepted laws b (host.time b.world) o candle
        (or_else o.equity b.current_equity) is_working,
    laws.le_of_lt nought o.qty,
    laws.number_of_le nought o.qty,
  )

  -- Where an order that passed the idempotency check opens or enlarges a position of a linear
  -- contract, the fill has the order's side, and its quantity is at most the order's and, if the
  -- candle has a volume, at most a tenth of it.
  pub fill_claimed-IsWithin :
      (b : Broker F W) (id : String) (o : Order F) (candle : Candle F) (tick : Option (Tick F))
      (is_working : Bool) (e : FillEvent F)
      → b.is_inverse ≡ false
      → (candle.volume * lit 1 10) ≼ (candle.volume * lit 1 10)
      → (fill_claimed b id o candle tick is_working).0 ≡ ok (some (filled e))
      → IsWithin o candle e
  fill_claimed-IsWithin b id o candle tick is_working e linear hv h =
      let hq = fill_claimed-number b id o candle tick is_working (filled e) h in
      ground (
        arith,
        fill_claimed-capped b id o candle tick is_working e linear h,
        capped_qty-within laws o candle hq hv,
      )
