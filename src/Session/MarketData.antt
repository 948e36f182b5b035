-- ===== src/Session/MarketData.antt =====
-- session/market_data.py: `market_data_task`, one item of the stream at a time, and the exceptions of
-- the stream. `parse_ts` is the runner's reading of a timestamp, by Python's datetime; what the REST
-- interface answers, none where it raises, is an argument, and no other task runs while it is awaited.
use btc_laptop_agents.Prelude.{
  ℕ, ◌+◌ as add, ◌*◌ as times, ◌-◌ as minus, ◌/◌ as per, String, Bool, false, not, ◌&&◌, ◌||◌,
  Option, none, some, List, [], ◌∷◌, ◌++◌, Result, length, last?, last_n, init, ltb, leb, str_eq,
  if◌then◌else◌,
}
use btc_laptop_agents.Float.{Float, nought, lit, ◌-◌, le, lt, gt, ge}
use btc_laptop_agents.Host.{Host}
use btc_laptop_agents.Trading.Market.{Candle, Tick}
use btc_laptop_agents.Trading.Sequence.{normalize_candle_order}
use btc_laptop_agents.Paper.Types.{FillEvent}
use btc_laptop_agents.Agents.Types.{Decision}
use btc_laptop_agents.Session.Runner.{
  AsyncRunner, SessionConfig, market_data_failed, market_data_errors, fatal_error,
  max_errors_per_session, request_shutdown,
}
use btc_laptop_agents.Session.StaleData.{max_candle_buffer}
use btc_laptop_agents.Session.Strategy.{on_candle_closed}

-- The events of the provider; the others are only logged.
pub data DataEvent : Type 0 where
  order_book_stale circuit_tripped other_event : DataEvent

pub data Item (F : Type 0) : Type 0 where
  event : DataEvent → Item F
  tick : Tick F → Item F
  candle : Candle F → Item F

-- How the stream ends other than by an item.
pub data StreamError : Type 0 where
  fatal other_error : StreamError

-- `interval_sec`
abbrev pub seconds_of : String → ℕ
seconds_of interval =
    if str_eq interval "5m"
    then 300
    else if str_eq interval "15m"
    then 900
    else if str_eq interval "1h"
    then 3600
    else 60

abbrev pub smaller : ℕ → ℕ → ℕ
smaller m n = if leb m n then m else n

-- `min(missing_count + 5, 200)`
abbrev pub backfill_limit : ℕ → ℕ → ℕ → ℕ
backfill_limit seconds last new = smaller (add (per (minus new last) seconds) 5) 200

abbrev pub has_ts : {F : Type 0} → String → List (Candle F) → Bool
has_ts ts [] = false
has_ts ts (c ∷ cs) = str_eq ts c.ts || has_ts ts cs

module _ {F : Type 0} ⦃fl : Float F⦄ where
  -- A price that is finite and above 0.
  abbrev pub is_price : F → Bool
  is_price x = fl.is_finite x && not (le x nought)

  unfoldable pub is_sound_tick : Tick F → Bool
  is_sound_tick t = is_price t.bid && is_price t.ask && is_price t.last && not (gt t.bid t.ask)

  unfoldable pub is_sound_candle : Candle F → Bool
  is_sound_candle c =
      is_price c.open_px
      && is_price c.high
      && is_price c.low
      && is_price c.close
      && not (gt c.low c.high)
      && fl.is_finite c.volume
      && not (lt c.volume nought)

-- The time of the last item, or 0.
abbrev pub seen_ts : (String → ℕ) → Option String → ℕ
seen_ts parse_ts none = 0
seen_ts parse_ts (some ts) = parse_ts ts

module _ {F : Type 0} (parse_ts : String → ℕ) where
  -- The sort by timestamp, which keeps the order of equal ones.
  abbrev pub insert_by_ts : Candle F → List (Candle F) → List (Candle F)
  insert_by_ts c [] = c ∷ []
  insert_by_ts c (x ∷ xs) =
      let rest = insert_by_ts c xs in
      if ltb (parse_ts x.ts) (parse_ts c.ts) then x ∷ rest else c ∷ x ∷ xs

  abbrev pub sort_by_ts : List (Candle F) → List (Candle F)
  sort_by_ts [] = []
  sort_by_ts (x ∷ xs) = insert_by_ts x (sort_by_ts xs)

  -- The loop over the candles that were fetched.
  unfoldable pub add_missing : ℕ → ℕ → List (Candle F) → List (Candle F) → List (Candle F)
  add_missing last new [] candles = candles
  add_missing last new (c ∷ cs) candles =
      let is_missing =
        ltb last (parse_ts c.ts) && ltb (parse_ts c.ts) new && not (has_ts c.ts candles) in
      add_missing last new cs (if is_missing then candles ++ c ∷ [] else candles)

module _ {F W A : Type 0} ⦃fl : Float F⦄ ⦃host : Host F W (FillEvent F)⦄
    (parse_ts : String → ℕ) where
  -- Newer than the last item of its kind, and not too old.
  abbrev pub is_fresh : F → ℕ → Option String → AsyncRunner F W A → Bool
  is_fresh timeout ts last r =
      not (leb ts 0)
      && not (leb ts (seen_ts parse_ts last))
      && not (gt (host.time r.broker.world - lit ts 1) timeout)

  unfoldable pub take_tick : F → Tick F → AsyncRunner F W A → AsyncRunner F W A
  take_tick timeout t r =
      if is_fresh timeout (parse_ts t.ts) r.last_tick_ts r && is_sound_tick t
      then record r {
        latest_tick = some t;
        last_tick_ts = some t.ts;
        last_data_time = host.time r.broker.world;
        stale_restart_attempts = 0;
        consecutive_ws_errors = 0;
      }
      else r

  -- `last_ts_sec`, `new_ts_sec` and the answer; the time of the backfill is set where it succeeded.
  unfoldable pub backfill : ℕ → ℕ → Option (List (Candle F)) → AsyncRunner F W A → AsyncRunner F W A
  backfill last new none r = r
  backfill last new (some fetched) r = record r {
    last_backfill_time = host.time r.broker.world;
    candles =
        sort_by_ts parse_ts
          (add_missing parse_ts last new (normalize_candle_order fetched) r.candles);
  }

  unfoldable pub fill_gap :
      String → (ℕ → Option (List (Candle F))) → ℕ → AsyncRunner F W A → AsyncRunner F W A
  fill_gap interval fetch new r = elim (last? r.candles) [
    | none ↦ r
    | some c ↦
        let last = parse_ts c.ts in
        let seconds = seconds_of interval in
        if ltb (add (times 2 last) (times 3 seconds)) (times 2 new)
          && ltb 0 (per (minus new last) seconds)
          && ge (host.time r.broker.world - r.last_backfill_time) (lit 30 1)
        then backfill last new (fetch (backfill_limit seconds last new)) r
        else r
  ]

module _ {F W A : Type 0} where
  -- `runner.candles.append(item)`, and the cut to the size of the buffer.
  unfoldable pub append_candle : Candle F → AsyncRunner F W A → AsyncRunner F W A
  append_candle c r =
      let cs = r.candles ++ c ∷ [] in
      record r {
        candles = if ltb max_candle_buffer (length cs) then last_n max_candle_buffer cs else cs;
      }

module _ {F W A : Type 0} ⦃fl : Float F⦄ ⦃host : Host F W (FillEvent F)⦄
    (agents : List (Candle F) → Candle F → A → Result (Decision F) × A) (cfg : SessionConfig F)
    (parse_ts : String → ℕ) (interval : String) where
  -- A candle of a new timestamp closes the last one; of the same, it replaces it.
  unfoldable pub store_candle : Candle F → AsyncRunner F W A → AsyncRunner F W A
  store_candle c r = elim (last? r.candles) [
    | none ↦ append_candle c r
    | some last ↦
        if not (str_eq c.ts last.ts)
        then append_candle c (on_candle_closed agents cfg last r)
        else record r { candles = init r.candles ++ c ∷ [] }
  ]

  unfoldable pub take_candle :
      (ℕ → Option (List (Candle F))) → Candle F → AsyncRunner F W A → AsyncRunner F W A
  take_candle fetch c r =
      if is_fresh parse_ts cfg.stale_data_timeout_sec (parse_ts c.ts) r.last_candle_ts r
        && is_sound_candle c
      then store_candle c (
          fill_gap parse_ts interval fetch (parse_ts c.ts) (record r {
            consecutive_ws_errors = 0;
            last_candle_ts = some c.ts;
            last_data_time = host.time r.broker.world;
            stale_restart_attempts = 0;
          }))
      else r

  -- An item of the stream. The task looks for a shutdown before it waits for the item, not after it.
  unfoldable pub take_item :
      (ℕ → Option (List (Candle F))) → Item F → AsyncRunner F W A → AsyncRunner F W A
  take_item fetch (event order_book_stale) r = request_shutdown market_data_failed r
  take_item fetch (event circuit_tripped) r = request_shutdown market_data_failed r
  take_item fetch (event other_event) r = r
  take_item fetch (tick t) r = take_tick parse_ts cfg.stale_data_timeout_sec t r
  take_item fetch (candle c) r = take_candle fetch c r

module _ {F W A : Type 0} where
  -- An exception of the stream, or of what an item led to.
  unfoldable pub stream_failed : StreamError → AsyncRunner F W A → AsyncRunner F W A
  stream_failed fatal r =
      request_shutdown fatal_error (record r { errors = max_errors_per_session })
  stream_failed other_error r =
      if r.shutdown_event
      then r
      else (let r' = record r {
        errors = add r.errors 1;
        consecutive_ws_errors = add r.consecutive_ws_errors 1;
      } in
          if leb 10 r'.consecutive_ws_errors then request_shutdown market_data_errors r' else r')
