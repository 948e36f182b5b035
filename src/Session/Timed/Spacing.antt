-- ===== src/Session/Timed/Spacing.antt =====
-- When the failures of the rounds of a timed session come too far apart to trip its breaker.
use btc_laptop_agents.Prelude.{
  ◌<◌, ◌≤◌, false, ◌≡◌, ◌⊎◌, List, [], ◌∷◌, All, drop, leb, leb→le, keep_if, ◌++◌, length, if-both,
  if-split, arith,
}
use btc_laptop_agents.Float.{Float, ◌-◌, le}
use btc_laptop_agents.Resilience.Breaker.{
  ErrorCircuitBreaker, closed, prune_failures, record_failure,
}
use btc_laptop_agents.Session.Timed.{Poll}

module _ {F : Type 0} ⦃fl : Float F⦄ (window : F) where
  -- The failures of these polls find one at the time `t` too old to count.
  abbrev pub IsApart : F → List (Poll F) → Type 0
  IsApart t = All λ p. le (p.failed_at - t) window ≡ false

  -- A failure is too old to count for any poll but the next.
  abbrev pub IsSpaced : List (Poll F) → Type 0
  IsSpaced [] = Unit
  IsSpaced (p ∷ ps) = IsApart p.failed_at (drop 1 ps) × IsSpaced ps

  -- At most two failures, of which the polls to come count one at most.
  abbrev pub AreRecent : List (Poll F) → List F → Type 0
  AreRecent ps [] = Unit
  AreRecent ps (t ∷ []) = IsApart t (drop 1 ps)
  AreRecent ps (t ∷ u ∷ []) = IsApart t ps × IsApart u (drop 1 ps)
  AreRecent ps (t ∷ u ∷ v ∷ ts) = ⊥

  pub record IsSparse (ps : List (Poll F)) (b : ErrorCircuitBreaker F) : Type 0 where
    pub intact : b.state ≡ closed
    pub window_kept : b.time_window ≡ window
    pub threshold : 2 < b.failure_threshold
    pub recent : AreRecent ps b.failures

  IsApart-drop : (t : F) (ps : List (Poll F)) → IsApart t ps → IsApart t (drop 1 ps)
  IsApart-drop t [] h = tt
  IsApart-drop t (p ∷ ps) (_, hs) = hs

  -- A round without a failure.
  skipped-recent :
      (p : Poll F) (ps : List (Poll F)) (ts : List F) → AreRecent (p ∷ ps) ts → AreRecent ps ts
  skipped-recent p ps [] h = tt
  skipped-recent p ps (t ∷ []) h = IsApart-drop t ps h
  skipped-recent p ps (t ∷ u ∷ []) ((_, a), b) = (a, IsApart-drop u ps b)
  skipped-recent p ps (t ∷ u ∷ v ∷ ts) h = h

  recent-length : (ps : List (Poll F)) (ts : List F) → AreRecent ps ts → length ts ≤ 2
  recent-length ps [] h = omega arith
  recent-length ps (t ∷ []) h = omega arith
  recent-length ps (t ∷ u ∷ []) h = omega arith
  recent-length ps (t ∷ u ∷ v ∷ ts) h = absurd h

  -- The failures that a poll counts, with its own.
  abbrev pub counted : F → List F → List F
  counted now ts = keep_if (λ t. le (now - t) window) (ts ++ now ∷ [])

  own-recent :
      (p : Poll F) (ps : List (Poll F))
      → IsApart p.failed_at (drop 1 ps)
      → AreRecent ps (counted p.failed_at [])
  own-recent p ps a =
      if-both (AreRecent ps) (le (p.failed_at - p.failed_at) window) (p.failed_at ∷ []) [] a tt

  one-recent :
      (p : Poll F) (ps : List (Poll F)) (t : F)
      → IsApart p.failed_at (drop 1 ps)
      → IsApart t ps
      → AreRecent ps (counted p.failed_at (t ∷ []))
  one-recent p ps t a h =
      if-both (AreRecent ps) (le (p.failed_at - t) window) _ _
        (if-both (λ ts. AreRecent ps (t ∷ ts)) (le (p.failed_at - p.failed_at) window)
          (p.failed_at ∷ []) [] (h, a) (IsApart-drop t ps h))
        (own-recent p ps a)

  counted-recent :
      (p : Poll F) (ps : List (Poll F)) (ts : List F)
      → IsApart p.failed_at (drop 1 ps)
      → AreRecent (p ∷ ps) ts
      → AreRecent ps (counted p.failed_at ts)
  counted-recent p ps [] a h = own-recent p ps a
  counted-recent p ps (t ∷ []) a h = one-recent p ps t a h
  counted-recent p ps (t ∷ u ∷ []) a ((old, _), h) = rw old (one-recent p ps u a h)
  counted-recent p ps (t ∷ u ∷ v ∷ ts) a h = absurd h

  pub record_failure-IsSparse :
      (p : Poll F) (ps : List (Poll F)) (b : ErrorCircuitBreaker F)
      → IsSpaced (p ∷ ps)
      → IsSparse (p ∷ ps) b
      → IsSparse ps (record_failure p.failed_at p.tripped_at b)
  unfolding record_failure prune_failures
  record_failure-IsSparse p ps b (a, _) h =
      let recent = counted-recent p ps b.failures a h.recent in
      let few = recent-length ps (counted p.failed_at b.failures) recent in
      let recent' : AreRecent ps
          (keep_if (λ t. le (p.failed_at - t) b.time_window) (b.failures ++ p.failed_at ∷ [])) =
        rw h.window_kept recent in
      if-split (IsSparse ps)
        (leb b.failure_threshold (
          length
            (keep_if (λ t. le (p.failed_at - t) b.time_window) (b.failures ++ p.failed_at ∷ []))))
        _ _ (λ e. ground (arith, h.threshold, few, h.window_kept, leb→le _ _ e))
        (λ e. record {
          intact = h.intact;
          window_kept = h.window_kept;
          threshold = h.threshold;
          recent = recent';
        })

  pub skipped-IsSparse :
      (p : Poll F) (ps : List (Poll F)) (b : ErrorCircuitBreaker F)
      → IsSparse (p ∷ ps) b
      → IsSparse ps b
  skipped-IsSparse p ps b h = record {
    intact = h.intact;
    window_kept = h.window_kept;
    threshold = h.threshold;
    recent = skipped-recent p ps b.failures h.recent;
  }

module _ {F : Type 0} ⦃fl : Float F⦄ where
  -- The breaker is left alone, or one failure is reported to it.
  abbrev pub IsReported : Poll F → ErrorCircuitBreaker F → ErrorCircuitBreaker F → Type 0
  IsReported p c d = (d ≡ c) ⊎ (d ≡ record_failure p.failed_at p.tripped_at c)

  pub IsReported-from :
      (p : Poll F) (a b c : ErrorCircuitBreaker F) → b ≡ a → IsReported p b c → IsReported p a c
  IsReported-from p a b c e h = rw⁻¹ e h
