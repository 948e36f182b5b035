-- ===== src/Live/Pending.antt =====
-- The pending orders of `BitunixBroker` (execution/bitunix_broker.py), which order updates maintain.
use btc_laptop_agents.Prelude.{
  String, ◌≡◌, refl, Option, none, some, List, [], ◌∷◌, str_eq, eq_iff, arith, if◌then◌else◌,
}
use btc_laptop_agents.Float.{Float}
use btc_laptop_agents.Live.Types.{OrderEvent, is_final, Exchange, LiveBroker}
use btc_laptop_agents.Live.Broker.{pop, put, on_order_update}

-- The last update of an order in a sequence of updates, the newest one first.
unfoldable pub last_update : {F : Type 0} → String → List (OrderEvent F) → Option (OrderEvent F)
last_update k [] = none
last_update k (e ∷ es) = if str_eq e.order_id k then some e else last_update k es

module _ {F : Type 0} where
  unfoldable pub find : String → List (String × OrderEvent F) → Option (OrderEvent F)
  find k [] = none
  find k ((j, e) ∷ es) = if str_eq j k then some e else find k es

  -- Each id stands once.
  abbrev pub IsUnique : List (String × OrderEvent F) → Type 0
  IsUnique [] = Unit
  IsUnique ((j, e) ∷ es) = (find j es ≡ none) × IsUnique es

  find-put :
      (k j : String) (e : OrderEvent F) (m : List (String × OrderEvent F))
      → find j (put k e m) ≡ (if str_eq k j then some e else find j m)
  unfolding find put
  find-put k j e [] = refl
  find-put k j e ((i, x) ∷ m) = ground (arith, eq_iff k j, eq_iff i k, eq_iff i j, find-put k j e m)

  find-pop :
      (k j : String) (m : List (String × OrderEvent F))
      → IsUnique m
      → find j (pop k m) ≡ (if str_eq k j then none else find j m)
  unfolding find pop
  find-pop k j [] u = ground arith
  find-pop k j ((i, x) ∷ m) u = ground (arith, eq_iff k j, eq_iff i k, eq_iff i j, find-pop k j m)

  put-IsUnique :
      (k : String) (e : OrderEvent F) (m : List (String × OrderEvent F))
      → IsUnique m
      → IsUnique (put k e m)
  unfolding put find
  put-IsUnique k e [] u = (refl, tt)
  put-IsUnique k e ((i, x) ∷ m) u =
      ground (arith, eq_iff i k, eq_iff k i, put-IsUnique k e m, find-put k i e m)

  pop-IsUnique : (k : String) (m : List (String × OrderEvent F)) → IsUnique m → IsUnique (pop k m)
  unfolding pop find
  pop-IsUnique k [] u = tt
  pop-IsUnique k ((i, x) ∷ m) u =
      ground (arith, eq_iff i k, eq_iff k i, pop-IsUnique k m, find-pop k i m)

  -- The last update of an order, unless it was final.
  abbrev pub live_update : Option (OrderEvent F) → Option (OrderEvent F)
  live_update none = none
  live_update (some e) = if is_final e.status then none else some e

module _ {F W : Type 0} ⦃fl : Float F⦄ (ex : Exchange F W) where
  -- The updates of a list, the oldest at its end.
  unfoldable pub updated : LiveBroker F W → List (OrderEvent F) → LiveBroker F W
  updated b [] = b
  updated b (e ∷ es) = on_order_update ex (updated b es) e

  updated-IsUnique :
      (b : LiveBroker F W) (es : List (OrderEvent F))
      → b.pending_orders ≡ []
      → IsUnique (updated b es).pending_orders
  unfolding updated on_order_update
  updated-IsUnique b [] h = ground arith
  updated-IsUnique b (e ∷ es) h =
      let u = updated-IsUnique b es h in
      ground (
        arith,
        pop-IsUnique e.order_id (updated b es).pending_orders,
        put-IsUnique e.order_id e (updated b es).pending_orders,
      )

  -- After any updates of a broker that had no pending orders, the pending entry of an order is its last
  -- update, and there is none once that update is a fill, a cancellation or a rejection, or without any.
  pub find-updated :
      (b : LiveBroker F W) (es : List (OrderEvent F)) (k : String)
      → b.pending_orders ≡ []
      → find k (updated b es).pending_orders ≡ live_update (last_update k es)
  unfolding updated on_order_update last_update find
  find-updated b [] k h = ground arith
  find-updated b (e ∷ es) k h = ground (
    arith,
    updated-IsUnique b es h,
    find-updated b es k h,
    find-pop e.order_id k (updated b es).pending_orders,
    find-put e.order_id k e (updated b es).pending_orders,
  )
