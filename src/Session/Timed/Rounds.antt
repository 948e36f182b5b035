-- ===== src/Session/Timed/Rounds.antt =====
-- The rounds of a timed session: the books of its broker, and its breaker.
use btc_laptop_agents.Prelude.{
  ◌+◌ as add, ◌<◌, ◌≡◌, refl, inl, inr, Option, none, List, [], ◌∷◌, Result, last?, ltb, length,
  if-both, Option-split, Result-both, arith,
}
use btc_laptop_agents.Float.{Float}
use btc_laptop_agents.Host.{Host}
use btc_laptop_agents.Trading.Market.{Candle}
use btc_laptop_agents.Trading.Sequence.{normalize_candle_order}
use btc_laptop_agents.Paper.Types.{Order, FillEvent}
use btc_laptop_agents.Paper.Soundness.{IsSound, on_candle-IsSound}
use btc_laptop_agents.Resilience.Breaker.{
  ErrorCircuitBreaker, closed, record_success, allow_request,
}
use btc_laptop_agents.Session.Timed.{
  Signal, Poll, TimedConfig, TimedSession, failed, count_events, execute, ask_signal, trade,
  poll_once, timed_round, timed_rounds, timed_order,
}
use btc_laptop_agents.Session.Timed.Spacing.{
  IsSpaced, IsSparse, record_failure-IsSparse, skipped-IsSparse, IsReported, IsReported-from,
}

module _ {F W : Type 0} ⦃fl : Float F⦄ ⦃host : Host F W (FillEvent F)⦄ where
  execute-IsReported :
      (p : Poll F) (latest : Candle F) (o : Option (Order F)) (s : TimedSession F W)
      → IsReported p s.circuit_breaker (execute p latest o s).circuit_breaker
  unfolding execute count_events
  execute-IsReported p latest o s = ground arith

  execute-IsSound :
      (start : F) (p : Poll F) (latest : Candle F) (o : Option (Order F)) (s : TimedSession F W)
      → IsSound start s.broker
      → IsSound start (execute p latest o s).broker
  unfolding execute count_events
  execute-IsSound start p latest o s h =
      let sound = on_candle-IsSound start s.broker latest o none h in ground arith

module _ {F W : Type 0} ⦃fl : Float F⦄ ⦃host : Host F W (FillEvent F)⦄
    (signal_of : List (Candle F) → Result (Option Signal)) (cfg : TimedConfig F) where
  ask_signal-breaker :
      (candles : List (Candle F)) (s : TimedSession F W)
      → s.circuit_breaker.state ≡ closed
      → (ask_signal signal_of cfg candles s).1.circuit_breaker ≡ s.circuit_breaker
  unfolding ask_signal record_success
  ask_signal-breaker candles s c = ground arith

  trade-IsReported :
      (p : Poll F) (candles : List (Candle F)) (s : TimedSession F W)
      → s.circuit_breaker.state ≡ closed
      → IsReported p s.circuit_breaker (trade signal_of cfg p candles s).circuit_breaker
  unfolding trade
  trade-IsReported p candles s c =
      let (res, s') = ask_signal signal_of cfg candles s in
      let P =
        λ (b : ErrorCircuitBreaker F) (t : TimedSession F W). IsReported p b t.circuit_breaker in
      if-both (P s.circuit_breaker) (ltb (length candles) 31) s _ (inl refl) (
        Option-split (P s.circuit_breaker) (last? candles) s _ (λ e. inl refl)
          (λ latest e. IsReported-from p _ s'.circuit_breaker _ (ask_signal-breaker candles s c) (
            Result-both (P s'.circuit_breaker) res (λ e. failed p s') _ (λ e. inr refl)
              (λ x.
                execute-IsReported p latest
                  (timed_order cfg s'.current_equity latest.close p.order_id x) s'))))

  poll_once-IsReported :
      (p : Poll F) (s : TimedSession F W)
      → s.circuit_breaker.state ≡ closed
      → IsReported p s.circuit_breaker (poll_once signal_of cfg p s).circuit_breaker
  unfolding poll_once
  poll_once-IsReported p s c =
      Option-split (λ (t : TimedSession F W). IsReported p s.circuit_breaker t.circuit_breaker)
        p.candles (failed p s) _ (λ e. inr refl)
        (λ candles e.
          trade-IsReported p (normalize_candle_order candles)
            (record s { candles = normalize_candle_order candles }) c)

  timed_round-IsReported :
      (p : Poll F) (s : TimedSession F W)
      → s.circuit_breaker.state ≡ closed
      → IsReported p s.circuit_breaker (timed_round signal_of cfg p s).circuit_breaker
  unfolding timed_round allow_request
  timed_round-IsReported p s c =
      let polled = poll_once-IsReported p (record s { iterations = add s.iterations 1 }) c in
      ground arith

  ask_signal-broker :
      (candles : List (Candle F)) (s : TimedSession F W)
      → (ask_signal signal_of cfg candles s).1.broker ≡ s.broker
  unfolding ask_signal
  ask_signal-broker candles s = ground arith

  trade-IsSound :
      (start : F) (p : Poll F) (candles : List (Candle F)) (s : TimedSession F W)
      → IsSound start s.broker
      → IsSound start (trade signal_of cfg p candles s).broker
  unfolding trade
  trade-IsSound start p candles s h =
      let (res, s') = ask_signal signal_of cfg candles s in
      let h' : IsSound start s'.broker = rw (ask_signal-broker candles s) h in
      let P = λ (t : TimedSession F W). IsSound start t.broker in
      if-both P (ltb (length candles) 31) s _ h (
        Option-split P (last? candles) s _ (λ e. h)
          (λ latest e.
            Result-both P res (λ e. failed p s') _ (λ e. h')
              (λ x.
                execute-IsSound start p latest
                  (timed_order cfg s'.current_equity latest.close p.order_id x) s' h')))

  poll_once-IsSound :
      (start : F) (p : Poll F) (s : TimedSession F W)
      → IsSound start s.broker
      → IsSound start (poll_once signal_of cfg p s).broker
  unfolding poll_once
  poll_once-IsSound start p s h =
      Option-split (λ (t : TimedSession F W). IsSound start t.broker) p.candles (failed p s) _
        (λ e. h)
        (λ candles e.
          trade-IsSound start p (normalize_candle_order candles)
            (record s { candles = normalize_candle_order candles }) h)

  timed_round-IsSound :
      (start : F) (p : Poll F) (s : TimedSession F W)
      → IsSound start s.broker
      → IsSound start (timed_round signal_of cfg p s).broker
  unfolding timed_round
  timed_round-IsSound start p s h =
      let polled =
        poll_once-IsSound start p
          (record s {
            circuit_breaker = (allow_request p.asked_at s.circuit_breaker).1;
            iterations = add s.iterations 1;
          })
          h in
      ground (arith, polled)

  -- Whatever is polled and whatever raises, the equity of the broker stays the amount it started from
  -- with the profits of its history, over all rounds of a timed session.
  timed_rounds-IsSound :
      (start : F) (ps : List (Poll F)) (s : TimedSession F W)
      → IsSound start s.broker
      → IsSound start (timed_rounds signal_of cfg ps s).broker
  unfolding timed_rounds
  timed_rounds-IsSound start [] s h = h
  timed_rounds-IsSound start (p ∷ ps) s h =
      timed_rounds-IsSound start ps (timed_round signal_of cfg p s)
        (timed_round-IsSound start p s h)

  timed_round-IsSparse :
      (window : F) (p : Poll F) (ps : List (Poll F)) (s : TimedSession F W)
      → IsSpaced window (p ∷ ps)
      → IsSparse window (p ∷ ps) s.circuit_breaker
      → IsSparse window ps (timed_round signal_of cfg p s).circuit_breaker
  timed_round-IsSparse window p ps s a h = elim (timed_round-IsReported p s h.intact) [
    | inl e ↦ rw e (skipped-IsSparse window p ps s.circuit_breaker h)
    | inr e ↦ rw e (record_failure-IsSparse window p ps s.circuit_breaker a h)
  ]

  timed_rounds-IsSparse :
      (window : F) (ps : List (Poll F)) (s : TimedSession F W)
      → IsSpaced window ps
      → IsSparse window ps s.circuit_breaker
      → IsSparse window [] (timed_rounds signal_of cfg ps s).circuit_breaker
  unfolding timed_rounds
  timed_rounds-IsSparse window [] s a h = h
  timed_rounds-IsSparse window (p ∷ ps) s (a, later) h =
      timed_rounds-IsSparse window ps (timed_round signal_of cfg p s) later
        (timed_round-IsSparse window p ps s (a, later) h)

  -- A session that starts with a closed breaker, no failures and a threshold above 2, where each failure is
  -- older than the breaker's window by the time of the poll after the next, as it is with a minute between
  -- polls and a window of a minute: however many rounds fail, the breaker stays closed.
  pub spaced_failures_never_trip :
      (ps : List (Poll F)) (s : TimedSession F W)
      → s.circuit_breaker.state ≡ closed
      → s.circuit_breaker.failures ≡ []
      → 2 < s.circuit_breaker.failure_threshold
      → IsSpaced s.circuit_breaker.time_window ps
      → (timed_rounds signal_of cfg ps s).circuit_breaker.state ≡ closed
  spaced_failures_never_trip ps s c f t a =
      let start : IsSparse s.circuit_breaker.time_window ps s.circuit_breaker = record {
        intact = c;
        window_kept = refl;
        threshold = t;
        recent = rw f tt;
      } in
      (timed_rounds-IsSparse s.circuit_breaker.time_window ps s a start).intact
