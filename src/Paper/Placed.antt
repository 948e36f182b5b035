-- ===== src/Paper/Placed.antt =====
-- `place_order` of paper/broker.py against the validation of paper/broker_risk.py.
use btc_laptop_agents.Prelude.{◌≡◌, ◌≢◌, true, Option, none, some, ok, arith, String}
use btc_laptop_agents.Float.{Float, nought}
use btc_laptop_agents.Float.Laws.{IsOrdered}
use btc_laptop_agents.Host.{Host}
use btc_laptop_agents.Trading.Market.{Candle, Tick}
use btc_laptop_agents.Paper.Types.{FillEvent, Order, EntryType, Fill}
use btc_laptop_agents.Paper.Broker.{Broker}
use btc_laptop_agents.Paper.Risk.{check_order, validate_risk_limits}
use btc_laptop_agents.Paper.Fill.{claim_order, fill_claimed, try_fill}
use btc_laptop_agents.Paper.Orders.{place_order}

module _ {F : Type 0} ⦃fl : Float F⦄ (laws : IsOrdered F) where
  unpriced : (o : Order F) → o.entry ≡ nought → check_order o ≢ ok true
  unfolding check_order
  unpriced o e h = ground (arith, laws.nought_number)

module _ {F W : Type 0} ⦃fl : Float F⦄ ⦃host : Host F W (FillEvent F)⦄ (laws : IsOrdered F) where
  -- An order placed with no price is never filled, whatever the market does: its entry is 0.0, which
  -- the validation refuses, also for a market order.
  pub place_order_unpriced :
      (b later : Broker F W) (side : String) (qty : F) (kind : EntryType) (sl tp : Option F)
      (id : Option String) (candle : Candle F) (tick : Option (Tick F)) (x : Fill F)
      → let o = (place_order b side qty kind none sl tp id).0 in
        (try_fill later candle o true tick).0 ≢ ok (some x)
  unfolding try_fill claim_order fill_claimed validate_risk_limits place_order
  place_order_unpriced b later side qty kind sl tp id candle tick x h =
      let o = (place_order b side qty kind none sl tp id).0 in ground (arith, unpriced laws o)
