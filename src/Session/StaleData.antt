-- ===== src/Session/StaleData.antt =====
-- session/stale_data.py: one round of the task that watches the age of the market data. The awaits of a
-- round are taken to let no other task change the runner.
use btc_laptop_agents.Prelude.{
  ℕ, ◌+◌ as add, ◌≡◌, ◌⊎◌, inl, inr, ◌≤◌, String, Bool, true, false, Option, none, some, List, [],
  ◌∷◌, ◌++◌, if-both, if-split, ltb→lt, ◌<◌, length, last_n, last?, ltb, if◌then◌else◌, arith,
}
use btc_laptop_agents.Float.{Float, lit, ◌-◌, gt, ge, min}
use btc_laptop_agents.Trading.Market.{Candle}
use btc_laptop_agents.Trading.Sequence.{normalize_candle_order}

-- What the task reads and writes of the runner; `shutdown` is the event with its reason
-- "stale_data", or whatever set it before.
pub record Runner (F : Type 0) : Type 0 where
  pub last_data_time : F
  pub last_rest_poll_time : F
  pub candles : List (Candle F)
  pub last_candle_ts : Option String
  pub stale_restart_attempts : ℕ
  pub max_stale_restarts : ℕ
  pub stale_data_timeout_sec : F
  pub consecutive_ws_errors : ℕ
  pub errors : ℕ
  pub shutdown : Bool

-- The clock at its four readings in a round; the candles that the poll gets, or none where it raises;
-- and whether the restart of the provider raises.
pub record Inputs (F : Type 0) : Type 0 where
  pub checked_at : F
  pub polled_at : F
  pub refreshed_at : F
  pub restarted_at : F
  pub rest_candles : Option (List (Candle F))
  pub restart_raises : Bool

-- `MAX_CANDLE_BUFFER`
abbrev pub max_candle_buffer : ℕ
max_candle_buffer = 500

-- The attempts are within their bound, and a shutdown comes only once they are used up.
pub record IsBounded {F : Type 0} (r : Runner F) : Type 0 where
  pub attempts : r.stale_restart_attempts ≤ r.max_stale_restarts
  pub last_resort : (r.shutdown ≡ false) ⊎ (r.stale_restart_attempts ≡ r.max_stale_restarts)

-- `parse_ts` is the runner's reading of a timestamp, by Python's datetime.
module _ {F : Type 0} ⦃fl : Float F⦄ (parse_ts : String → ℕ) where
  abbrev pub last_ts : Runner F → ℕ
  last_ts r = elim r.last_candle_ts [ none ↦ 0 | some ts ↦ parse_ts ts ]

  -- A candle newer than the last one is kept.
  unfoldable pub take_latest : Candle F → Runner F → Runner F
  take_latest latest r =
      if ltb (last_ts r) (parse_ts latest.ts)
      then record r {
        candles =
            if ltb max_candle_buffer (length (r.candles ++ latest ∷ []))
            then last_n max_candle_buffer (r.candles ++ latest ∷ [])
            else r.candles ++ latest ∷ [];
        last_candle_ts = some latest.ts;
      }
      else r

  unfoldable pub rest_poll : Inputs F → Runner F → Runner F
  rest_poll i r =
      if ge (i.polled_at - r.last_rest_poll_time) (lit 15 1)
      then elim i.rest_candles [
        | none ↦ record r { last_rest_poll_time = i.polled_at }
        | some candles ↦ elim (last? (normalize_candle_order candles)) [
          | none ↦ record r { last_rest_poll_time = i.polled_at }
          | some latest ↦ record (take_latest latest r) {
            last_data_time = i.refreshed_at;
            last_rest_poll_time = i.polled_at;
          }
        ]
      ]
      else r

  -- The restart of the provider, whose attempt is counted before.
  unfoldable pub restart : Inputs F → Runner F → Runner F
  restart i r =
      let r1 = record r { stale_restart_attempts = add r.stale_restart_attempts 1 } in
      if i.restart_raises
      then record r1 { errors = add r1.errors 1 }
      else record r1 { last_data_time = i.restarted_at; consecutive_ws_errors = 0 }

  -- Where the data is too old: a restart while there are attempts left, or the shutdown.
  unfoldable pub recover : F → Inputs F → Runner F → Runner F
  recover age i r =
      if ltb r.stale_restart_attempts r.max_stale_restarts
      then restart i r
      else if gt age r.stale_data_timeout_sec
      then record r { errors = add r.errors 1; shutdown = true }
      else r

  -- A round of the loop, which ends once the shutdown is requested.
  unfoldable pub stale_round : Runner F → Inputs F → Runner F
  stale_round r i =
      let age = i.checked_at - r.last_data_time in
      let r1 = if gt age (lit 15 1) then rest_poll i r else r in
      if r.shutdown
      then r
      else if gt age (min (lit 30 1) r.stale_data_timeout_sec)
      then (if r1.shutdown then r1 else recover age i r1)
      else r1

  -- `stale_data_task`
  unfoldable pub stale_data_task : Runner F → List (Inputs F) → Runner F
  stale_data_task r [] = r
  stale_data_task r (i ∷ is) = stale_data_task (stale_round r i) is

  rest_poll-counts :
      (i : Inputs F) (r : Runner F)
      → ((rest_poll i r).stale_restart_attempts ≡ r.stale_restart_attempts)
        × ((rest_poll i r).max_stale_restarts ≡ r.max_stale_restarts)
        × ((rest_poll i r).shutdown ≡ r.shutdown)
  unfolding rest_poll take_latest
  rest_poll-counts i r = ground arith

  rest_poll-IsBounded : (i : Inputs F) (r : Runner F) → IsBounded r → IsBounded (rest_poll i r)
  rest_poll-IsBounded i r h =
      let (a, m, s) = rest_poll-counts i r in
      record { attempts = rw (a, m) h.attempts; last_resort = rw (a, m, s) h.last_resort }

  restart-IsBounded :
      (i : Inputs F) (r : Runner F)
      → r.shutdown ≡ false
      → r.stale_restart_attempts < r.max_stale_restarts
      → IsBounded (restart i r)
  unfolding restart
  restart-IsBounded i r h l = record { attempts = ground arith; last_resort = inl (ground arith) }

  recover-IsBounded :
      (age : F) (i : Inputs F) (r : Runner F)
      → r.shutdown ≡ false
      → IsBounded r
      → IsBounded (recover age i r)
  unfolding recover
  recover-IsBounded age i r d h =
      if-split IsBounded (ltb r.stale_restart_attempts r.max_stale_restarts) (restart i r) _
        (λ e. restart-IsBounded i r d (ltb→lt _ _ e))
        (λ e.
          let spent : r.stale_restart_attempts ≡ r.max_stale_restarts =
            ground (arith, h.attempts) in
          if-both IsBounded (gt age r.stale_data_timeout_sec)
            (record r { errors = add r.errors 1; shutdown = true }) r
            (record { attempts = h.attempts; last_resort = inr spent }) h)

  stale_round-IsBounded : (r : Runner F) (i : Inputs F) → IsBounded r → IsBounded (stale_round r i)
  unfolding stale_round
  stale_round-IsBounded r i h =
      let age = i.checked_at - r.last_data_time in
      let r1 = if gt age (lit 15 1) then rest_poll i r else r in
      let h1 : IsBounded r1 =
        if-both IsBounded (gt age (lit 15 1)) (rest_poll i r) r (rest_poll-IsBounded i r h) h in
      if-both IsBounded r.shutdown r _ h (
        if-both IsBounded (gt age (min (lit 30 1) r.stale_data_timeout_sec)) _ r1
          (if-split IsBounded r1.shutdown r1 (recover age i r1) (λ e. h1)
            (λ e. recover-IsBounded age i r1 e h1))
          h1)

  -- A session that starts with no shutdown and within its attempts stays so, and is shut down for stale
  -- data only once every attempt to restart the provider was made.
  pub stale_data_task-IsBounded :
      (r : Runner F) (is : List (Inputs F)) → IsBounded r → IsBounded (stale_data_task r is)
  unfolding stale_data_task
  stale_data_task-IsBounded r [] h = h
  stale_data_task-IsBounded r (i ∷ is) h =
      stale_data_task-IsBounded (stale_round r i) is (stale_round-IsBounded r i h)
