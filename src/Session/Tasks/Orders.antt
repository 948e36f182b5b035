-- ===== src/Session/Tasks/Orders.antt =====
-- The steps of a session that end in the strategy: from a closed candle to an order in the queue.
use btc_laptop_agents.Prelude.{
  ◌+◌ as add, ℕ, String, true, false, ◌||◌, ◌≡◌, ◌⊎◌, refl, Option, none, some, List, [], ◌∷◌, ◌++◌,
  Result, All-append, length, length-append, Option-cases, if-split, if-both, inl, inr, ltb, ltb→lt,
  arith,
}
use btc_laptop_agents.Float.{Float}
use btc_laptop_agents.Host.{Host}
use btc_laptop_agents.Trading.Market.{Candle}
use btc_laptop_agents.Paper.Types.{Order, FillEvent}
use btc_laptop_agents.Agents.Types.{Decision}
use btc_laptop_agents.Resilience.Breaker.{allow_request}
use btc_laptop_agents.Session.Runner.{
  AsyncRunner, Payload, SessionConfig, queue_size, request_shutdown, spend_error,
}
use btc_laptop_agents.Session.Strategy.{
  Proposal, passes, put_world, enqueue, settle, place, gate, decided, consult, consulted,
  on_candle_closed, is_priced,
}
use btc_laptop_agents.Session.Tasks.Stops.{IsAside, spend_error-IsAside}
use btc_laptop_agents.Session.Tasks.Proceeding.{
  IsSound, Proceeds, aside-Proceeds, same-Proceeds, chain-Proceeds,
}

module _ {F W A : Type 0} ⦃fl : Float F⦄ ⦃host : Host F W (FillEvent F)⦄
    (parse_ts : String → ℕ) where
  settle-IsAside : (candle : Candle F) (r : AsyncRunner F W A) → IsAside r (settle candle r)
  unfolding settle spend_error request_shutdown
  settle-IsAside candle r = ground arith

  pub put_world-IsAside : (w : W) (r : AsyncRunner F W A) → IsAside r (put_world w r)
  put_world-IsAside w r = ground arith

  pushed-Proceeds :
      (p : Payload F) (w : W) (r : AsyncRunner F W A)
      → IsSound p
      → (r.shutdown_event || r.kill_switch_triggered) ≡ false
      → ltb (length r.execution_queue) queue_size ≡ true
      → Proceeds parse_ts r (record r {
        broker = record r.broker { world = w };
        execution_queue = r.execution_queue ++ p ∷ [];
      })
  pushed-Proceeds p w r s h l = record {
    heeds = ground arith;
    vetted = λ v. record {
      queued = All-append IsSound r.execution_queue (p ∷ []) v.queued (s, tt);
      waits = v.waits;
      fits = omega (arith, length-append r.execution_queue (p ∷ []), ltb→lt _ _ l);
    };
    locked = λ l. record { alone = l.alone; ids = l.ids };
    idle = ground arith;
    quiet = λ d e. (d, e);
    breaker = λ c. refl;
    untripped = λ c e. e;
    seen = omega arith;
  }

  enqueue-Proceeds :
      (o : Order F) (candle : Candle F) (r : AsyncRunner F W A)
      → passes o ≡ true
      → (r.shutdown_event || r.kill_switch_triggered) ≡ false
      → Proceeds parse_ts r (enqueue o candle r)
  unfolding enqueue
  enqueue-Proceeds o candle r s h =
      let w = (host.randint 50 500 r.broker.world).1 in
      if-split (Proceeds parse_ts r) (ltb (length r.execution_queue) queue_size) _ _
        (λ l. pushed-Proceeds _ w r s h l)
        (λ l.
          chain-Proceeds parse_ts r (put_world w r) _
            (aside-Proceeds parse_ts r _ (put_world-IsAside w r))
            (aside-Proceeds parse_ts _ _ (spend_error-IsAside (put_world w r))))

  place-Proceeds :
      (p : Proposal F) (candle : Candle F) (r : AsyncRunner F W A)
      → (r.shutdown_event || r.kill_switch_triggered) ≡ false
      → Proceeds parse_ts r (place (some p) candle r)
  unfolding place
  place-Proceeds p candle r h =
      let w = (host.uuid_hex r.broker.world).1 in
      chain-Proceeds parse_ts r (put_world w r) _
        (aside-Proceeds parse_ts r _ (put_world-IsAside w r))
        (if-split (Proceeds parse_ts (put_world w r)) (passes _) _ _
          (λ s. enqueue-Proceeds _ candle (put_world w r) s h)
          (λ s. aside-Proceeds parse_ts _ _ (settle-IsAside candle (put_world w r))))

  placed-Proceeds :
      (p : Option (Proposal F)) (candle : Candle F) (r : AsyncRunner F W A)
      → (p ≡ none) ⊎ ((r.shutdown_event || r.kill_switch_triggered) ≡ false)
      → Proceeds parse_ts r (place p candle r)
  unfolding place
  placed-Proceeds none candle r h = aside-Proceeds parse_ts r _ (settle-IsAside candle r)
  placed-Proceeds (some p) candle r (inr h) = place-Proceeds p candle r h
  placed-Proceeds (some p) candle r (inl e) = ground arith

  gate-Proceeds :
      (p : Option (Proposal F)) (r : AsyncRunner F W A) → Proceeds parse_ts r (gate p r).1
  unfolding gate allow_request
  gate-Proceeds p r = ground arith

  gate-stops :
      (p : Option (Proposal F)) (r : AsyncRunner F W A)
      → ((gate p r).0 ≡ none)
        ⊎ (((gate p r).1.shutdown_event || (gate p r).1.kill_switch_triggered) ≡ false)
  unfolding gate allow_request
  gate-stops p r = ground arith

  -- An order is let through only where the session runs.
  gated-Proceeds :
      (candle : Candle F) (p : Option (Proposal F)) (r : AsyncRunner F W A)
      → Proceeds parse_ts r (decided candle (gate p r))
  gated-Proceeds candle p r =
      chain-Proceeds parse_ts r (gate p r).1 _ (gate-Proceeds p r)
        (placed-Proceeds (gate p r).0 candle (gate p r).1 (gate-stops p r))

module _ {F W A : Type 0} ⦃fl : Float F⦄ ⦃host : Host F W (FillEvent F)⦄
    (agents : List (Candle F) → Candle F → A → Result (Decision F) × A)
    (cfg : SessionConfig F) where
  consult-IsAside :
      (candle : Candle F) (r : AsyncRunner F W A) → IsAside r (consult agents cfg candle r).1
  unfolding consult
  consult-IsAside candle r = ground arith

  consulted-Proceeds :
      (parse_ts : String → ℕ) (candle : Candle F) (r : AsyncRunner F W A)
      → Proceeds parse_ts r (consulted agents cfg candle (consult agents cfg candle r))
  consulted-Proceeds parse_ts candle r = elim (Option-cases (consult agents cfg candle r).0) [
    | inl e ↦ rw e (aside-Proceeds parse_ts r _ (consult-IsAside candle r))
    | inr (p, e) ↦ rw e (
        chain-Proceeds parse_ts r (consult agents cfg candle r).1 _
          (aside-Proceeds parse_ts r _ (consult-IsAside candle r))
          (gated-Proceeds parse_ts candle p _))
  ]

  pub on_candle_closed-Proceeds :
      (parse_ts : String → ℕ) (candle : Candle F) (r : AsyncRunner F W A)
      → Proceeds parse_ts r (on_candle_closed agents cfg candle r)
  unfolding on_candle_closed
  on_candle_closed-Proceeds parse_ts candle r =
      let r' = record r { iterations = add r.iterations 1 } in
      let counted = aside-Proceeds parse_ts r r' (ground arith) in
      if-both (Proceeds parse_ts r) (is_priced candle) _ r
        (chain-Proceeds parse_ts r r' _ counted (
          if-both (Proceeds parse_ts r') (ltb (length r'.candles) cfg.warmup_bars) r' _
            (same-Proceeds parse_ts r') (consulted-Proceeds parse_ts candle r')))
        (same-Proceeds parse_ts r)
