-- ===== src/Session/Tasks/Data.antt =====
-- The steps of a session that handle market data, and funding.
use btc_laptop_agents.Prelude.{
  ℕ, String, true, not, ◌≡◌, ◌≤◌, Option, some, List, Result, last?, Option-split, if-split,
  if-both, arith, str_eq, ◌&&◌,
}
use btc_laptop_agents.Float.{Float, ◌-◌}
use btc_laptop_agents.Host.{Host}
use btc_laptop_agents.Trading.Market.{Candle, Tick}
use btc_laptop_agents.Paper.Types.{FillEvent}
use btc_laptop_agents.Agents.Types.{Decision}
use btc_laptop_agents.Session.Runner.{AsyncRunner, SessionConfig, request_shutdown}
use btc_laptop_agents.Session.MarketData.{
  Item, event, tick, candle, order_book_stale, circuit_tripped, other_event, StreamError, seen_ts,
  take_tick, backfill, fill_gap, append_candle, store_candle, take_candle, take_item, stream_failed,
  is_fresh, is_sound_candle,
}
use btc_laptop_agents.Session.Funding.{Reading}
use btc_laptop_agents.Session.StaleData.{
  Runner, Inputs, take_latest, rest_poll, restart, recover, stale_round,
}
use btc_laptop_agents.Session.Tasks.{charge_funding, watched, put_watched, watch_data}
use btc_laptop_agents.Session.Tasks.Stops.{IsAside, request_shutdown-IsAside}
use btc_laptop_agents.Session.Tasks.Proceeding.{
  Proceeds, aside-Proceeds, same-Proceeds, chain-Proceeds,
}
use btc_laptop_agents.Session.Tasks.Orders.{on_candle_closed-Proceeds}

module _ {F : Type 0} ⦃fl : Float F⦄ (parse_ts : String → ℕ) where
  -- The last candle that was seen only becomes later.
  rest_poll-seen :
      (i : Inputs F) (v : Runner F)
      → seen_ts parse_ts v.last_candle_ts ≤ seen_ts parse_ts (rest_poll parse_ts i v).last_candle_ts
  unfolding rest_poll take_latest
  rest_poll-seen i v = ground arith

  recover-seen :
      (age : F) (i : Inputs F) (v : Runner F)
      → (recover parse_ts age i v).last_candle_ts ≡ v.last_candle_ts
  unfolding recover restart
  recover-seen age i v = ground arith

  stale_round-seen :
      (i : Inputs F) (v : Runner F)
      → seen_ts parse_ts v.last_candle_ts
        ≤ seen_ts parse_ts (stale_round parse_ts v i).last_candle_ts
  unfolding stale_round
  stale_round-seen i v = ground (
    arith,
    rest_poll-seen i v,
    recover-seen (i.checked_at - v.last_data_time) i (rest_poll parse_ts i v),
    recover-seen (i.checked_at - v.last_data_time) i v,
  )

module _ {F W A : Type 0} where
  append_candle-IsAside : (c : Candle F) (r : AsyncRunner F W A) → IsAside r (append_candle c r)
  unfolding append_candle
  append_candle-IsAside c r = ground arith

module _ {F W A : Type 0} ⦃fl : Float F⦄ ⦃host : Host F W (FillEvent F)⦄
    (parse_ts : String → ℕ) where
  take_tick-IsAside :
      (timeout : F) (t : Tick F) (r : AsyncRunner F W A)
      → IsAside r (take_tick parse_ts timeout t r)
  unfolding take_tick
  take_tick-IsAside timeout t r = ground arith

  fill_gap-IsAside :
      (interval : String) (fetch : ℕ → Option (List (Candle F))) (new : ℕ) (r : AsyncRunner F W A)
      → IsAside r (fill_gap parse_ts interval fetch new r)
  unfolding fill_gap backfill
  fill_gap-IsAside interval fetch new r = ground arith

  pub stream_failed-IsAside :
      (e : StreamError) (r : AsyncRunner F W A) → IsAside r (stream_failed e r)
  unfolding stream_failed request_shutdown
  stream_failed-IsAside e r = ground arith

  pub charge_funding-IsAside :
      (now : Reading) (rate : Option F) (r : AsyncRunner F W A)
      → IsAside r (charge_funding now rate r)
  unfolding charge_funding
  charge_funding-IsAside now rate r = ground arith

  put_watched-Proceeds :
      (v : Runner F) (r : AsyncRunner F W A)
      → seen_ts parse_ts r.last_candle_ts ≤ seen_ts parse_ts v.last_candle_ts
      → Proceeds parse_ts r (put_watched v r)
  unfolding put_watched request_shutdown
  put_watched-Proceeds v r h = ground arith

  pub watch_data-Proceeds :
      (cfg : SessionConfig F) (i : Inputs F) (r : AsyncRunner F W A)
      → Proceeds parse_ts r (watch_data parse_ts cfg i r)
  unfolding watch_data
  watch_data-Proceeds cfg i r =
      if-both (Proceeds parse_ts r) r.shutdown_event r _ (same-Proceeds parse_ts r)
        (put_watched-Proceeds _ r (stale_round-seen parse_ts i (watched cfg r)))

module _ {F W A : Type 0} ⦃fl : Float F⦄ ⦃host : Host F W (FillEvent F)⦄
    (agents : List (Candle F) → Candle F → A → Result (Decision F) × A) (cfg : SessionConfig F)
    (parse_ts : String → ℕ) (interval : String) where
  store_candle-Proceeds :
      (c : Candle F) (r : AsyncRunner F W A)
      → Proceeds parse_ts r (store_candle agents cfg parse_ts interval c r)
  unfolding store_candle
  store_candle-Proceeds c r =
      let append : (s : AsyncRunner F W A) → Proceeds parse_ts s (append_candle c s) =
        λ s. aside-Proceeds parse_ts s _ (append_candle-IsAside c s) in
      Option-split (Proceeds parse_ts r) (last? r.candles) _ _ (λ e. append r)
        (λ last e.
          if-both (Proceeds parse_ts r) (not (str_eq c.ts last.ts)) _ _
            (chain-Proceeds parse_ts r _ _ (on_candle_closed-Proceeds agents cfg parse_ts last r)
              (append _))
            (aside-Proceeds parse_ts r _ (ground arith)))

  -- A candle that is taken is newer than the last.
  accepted-Proceeds :
      (c : Candle F) (r : AsyncRunner F W A)
      → is_fresh parse_ts cfg.stale_data_timeout_sec (parse_ts c.ts) r.last_candle_ts r
          && is_sound_candle c
        ≡ true
      → Proceeds parse_ts r (record r {
        consecutive_ws_errors = 0;
        last_candle_ts = some c.ts;
        last_data_time = host.time r.broker.world;
        stale_restart_attempts = 0;
      })
  accepted-Proceeds c r h = ground arith

  take_candle-Proceeds :
      (fetch : ℕ → Option (List (Candle F))) (c : Candle F) (r : AsyncRunner F W A)
      → Proceeds parse_ts r (take_candle agents cfg parse_ts interval fetch c r)
  unfolding take_candle
  take_candle-Proceeds fetch c r =
      if-split (Proceeds parse_ts r) _ _ r
        (λ h. chain-Proceeds parse_ts r _ _ (accepted-Proceeds c r h) (
          chain-Proceeds parse_ts _ _ _
            (aside-Proceeds parse_ts _ _
              (fill_gap-IsAside parse_ts interval fetch (parse_ts c.ts) _))
            (store_candle-Proceeds c _)))
        (λ h. same-Proceeds parse_ts r)

  pub take_item-Proceeds :
      (fetch : ℕ → Option (List (Candle F))) (item : Item F) (r : AsyncRunner F W A)
      → Proceeds parse_ts r (take_item agents cfg parse_ts interval fetch item r)
  unfolding take_item
  take_item-Proceeds fetch (event order_book_stale) r =
      aside-Proceeds parse_ts r _ (request_shutdown-IsAside _ r (λ e. ground arith))
  take_item-Proceeds fetch (event circuit_tripped) r =
      aside-Proceeds parse_ts r _ (request_shutdown-IsAside _ r (λ e. ground arith))
  take_item-Proceeds fetch (event other_event) r = same-Proceeds parse_ts r
  take_item-Proceeds fetch (tick t) r =
      aside-Proceeds parse_ts r _ (take_tick-IsAside parse_ts cfg.stale_data_timeout_sec t r)
  take_item-Proceeds fetch (candle c) r = take_candle-Proceeds fetch c r
