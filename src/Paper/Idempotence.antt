-- ===== src/Paper/Idempotence.antt =====
-- The idempotency check of `_try_fill` in paper/broker.py, which a working order skips.
use btc_laptop_agents.Prelude.{
  ◌≡◌, true, false, Option, none, some, arith, String, Bool, str_eq, eq_iff, Option-cases, inl, inr,
  ◌∷◌,
}
use btc_laptop_agents.Float.{Float}
use btc_laptop_agents.Host.{Host}
use btc_laptop_agents.Trading.Market.{Candle, Tick}
use btc_laptop_agents.Paper.Types.{FillEvent, Order, Position}
use btc_laptop_agents.Paper.Broker.{Broker}
use btc_laptop_agents.Paper.Store.{save_state}
use btc_laptop_agents.Paper.Fill.{
  close_position_fifo, claim_order, order_id, open_or_grow, pick_trade_id, apply_fill, fill_at,
  fill_claimed, try_fill, mem_id,
}

module _ {F W : Type 0} ⦃fl : Float F⦄ ⦃host : Host F W (FillEvent F)⦄ where
  close_position_fifo-processed :
      (b : Broker F W) (p : Position F) (o : Order F) (qty px : F) (candle : Candle F)
      → (close_position_fifo b p o qty px candle).1.processed_order_ids ≡ b.processed_order_ids
  unfolding close_position_fifo save_state
  close_position_fifo-processed b p o qty px candle = ground arith

  open_or_grow-processed :
      (b : Broker F W) (id trade_id : String) (equity : F) (o : Order F) (qty px : F)
      (candle : Candle F) (is_working : Bool)
      → (open_or_grow b id trade_id equity o qty px candle is_working).1.processed_order_ids
        ≡ b.processed_order_ids
  unfolding open_or_grow save_state
  open_or_grow-processed b id trade_id equity o qty px candle is_working = ground arith

  pick_trade_id-processed :
      (b : Broker F W) (id : String) (is_working : Bool)
      → (pick_trade_id b id is_working).1.processed_order_ids ≡ b.processed_order_ids
  unfolding pick_trade_id
  pick_trade_id-processed b id is_working = ground arith

  apply_fill-processed :
      (b : Broker F W) (id : String) (equity : F) (o : Order F) (qty px : F) (candle : Candle F)
      (is_working : Bool)
      → (apply_fill b id equity o qty px candle is_working).1.processed_order_ids
        ≡ b.processed_order_ids
  unfolding apply_fill
  apply_fill-processed b id equity o qty px candle is_working =
      grind (arith, close_position_fifo-processed, open_or_grow-processed, pick_trade_id-processed)

  fill_claimed-processed :
      (b : Broker F W) (id : String) (o : Order F) (candle : Candle F) (tick : Option (Tick F))
      (is_working : Bool)
      → (fill_claimed b id o candle tick is_working).1.processed_order_ids ≡ b.processed_order_ids
  unfolding fill_claimed fill_at
  fill_claimed-processed b id o candle tick is_working = grind (arith, apply_fill-processed)

  -- A call with an id that was seen before leaves the broker as it is.
  try_fill_seen :
      (b : Broker F W) (k : String) (o : Order F) (candle : Candle F) (tick : Option (Tick F))
      → o.client_order_id ≡ some k
      → str_eq k "" ≡ false
      → mem_id k b.processed_order_ids ≡ true
      → (try_fill b candle o false tick).1 ≡ b
  unfolding try_fill claim_order order_id
  try_fill_seen b k o candle tick named full seen = ground arith

  -- After a call with an id, the id counts as seen or its result is in the cache.
  try_fill_marks :
      (b : Broker F W) (k : String) (o : Order F) (candle : Candle F) (tick : Option (Tick F))
      → o.client_order_id ≡ some k
      → str_eq k "" ≡ false
      → host.cache_get k b.world ≡ none
      → mem_id k (try_fill b candle o false tick).1.processed_order_ids ≡ true
  unfolding try_fill claim_order order_id
  try_fill_marks b k o candle tick named full fresh =
      let marked : Broker F W = record b { processed_order_ids = k ∷ b.processed_order_ids } in
      ground (arith, eq_iff k k, fill_claimed-processed marked k o candle tick false)

  cached_again :
      (b : Broker F W) (k : String) (o : Order F) (candle : Candle F) (tick : Option (Tick F))
      (e : FillEvent F)
      → o.client_order_id ≡ some k
      → str_eq k "" ≡ false
      → host.cache_get k b.world ≡ some e
      → (try_fill b candle o false tick).1 ≡ b
  unfolding try_fill claim_order order_id
  cached_again b k o candle tick e named full cached = ground arith

  -- A second call for an order with a non-empty id that is not tried as a working order, neither time,
  -- leaves the broker as the first call left it, whatever its candle and tick.
  pub try_fill_idempotent :
      (b : Broker F W) (k : String) (o : Order F) (candle candle' : Candle F)
      (tick tick' : Option (Tick F))
      → o.client_order_id ≡ some k
      → str_eq k "" ≡ false
      → let b' = (try_fill b candle o false tick).1 in (try_fill b' candle' o false tick').1 ≡ b'
  try_fill_idempotent b k o candle candle' tick tick' named full =
      elim (Option-cases (host.cache_get k b.world)) [
        | inl fresh ↦
            try_fill_seen (try_fill b candle o false tick).1 k o candle' tick' named full
              (try_fill_marks b k o candle tick named full fresh)
        | inr (e, cached) ↦
            rw (cached_again b k o candle tick e named full cached)
              (cached_again b k o candle' tick' e named full cached)
      ]
