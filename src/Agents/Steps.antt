-- ===== src/Agents/Steps.antt =====
-- What a whole step of the supervisor guarantees of the order that it hands to the broker.
use btc_laptop_agents.Prelude.{
  ℕ, zero, suc, ◌<◌, String, Bool, ◌≡◌, refl, sym, ap, ◌∙◌, Option, some, List, [], ◌∷◌, ◌++◌,
  Result, Result-cases, inl, inr, ok, arith, last?, last?-append, last?-last_n,
}
use btc_laptop_agents.Float.{Float, ◌*◌}
use btc_laptop_agents.Float.Laws.{IsOrdered}
use btc_laptop_agents.Trading.Market.{Candle}
use btc_laptop_agents.Agents.Types.{Setup, market, Resolved, Decision, resolved, State}
use btc_laptop_agents.Agents.Derivatives.{flag_funding}
use btc_laptop_agents.Agents.Gate.{keep_candle, decide}
use btc_laptop_agents.Agents.Context.{Context, market_intake}
use btc_laptop_agents.Agents.Setups.{chosen, range_of, setup_signal}
use btc_laptop_agents.Agents.Journal.{
  Events, Journal, open_plan, open_with, follow, log_events, journal_coach,
}
use btc_laptop_agents.Agents.Supervisor.{Config, Desk, observe, ask_broker, carry_out, step}
use btc_laptop_agents.Agents.Brackets.{StopBehind, IsMargin, setup_signal-StopBehind}
use btc_laptop_agents.Agents.Entries.{EntersAt, decide-EntersAt, decide-setup}

module _ {F Fill W : Type 0} ⦃fl : Float F⦄ (two_places : F → String)
    (new_id : W → String × W) where
  journal_coach-order :
      (ev : Events F Fill) (s : State F) (j : Journal F Fill) (w : W)
      → (journal_coach two_places new_id ev s j w).0.order ≡ s.order
  unfolding journal_coach open_plan open_with follow log_events
  journal_coach-order ev s j w = ground arith

  journal_coach-setup :
      (ev : Events F Fill) (s : State F) (j : Journal F Fill) (w : W)
      → (journal_coach two_places new_id ev s j w).0.setup ≡ s.setup
  unfolding journal_coach open_plan open_with follow log_events
  journal_coach-setup ev s j w = ground arith

-- The last candle that is kept is the one that arrived.
keep_candle-last :
    {F : Type 0} ⦃fl : Float F⦄ (n : ℕ) (s : State F) (candle : Candle F)
    → 0 < n
    → last? (keep_candle n s candle).candles ≡ some candle
unfolding keep_candle
keep_candle-last zero s candle h = ground arith
keep_candle-last (suc n) s candle h =
    let tail = candle ∷ [] in
    let ends : last? (s.candles ++ tail) ≡ some candle = last?-append s.candles tail candle refl in
    last?-last_n n (s.candles ++ tail) candle ends

module _ {F Fill B W : Type 0} ⦃fl : Float F⦄ (laws : IsOrdered F)
    (provider : W → Option (Option F) × W)
    (on_candle : Candle F → Decision F → B → Result (Events F Fill) × B) (two_places : F → String)
    (new_id : W → String × W) (cfg : Config F) where
  observe-setup :
      (candle : Candle F) (k : Desk F Fill B W) (ctx : Context F) (x : Setup F)
      → (observe provider on_candle two_places new_id cfg candle k).0 ≡ ok ctx
      → (observe provider on_candle two_places new_id cfg candle k).1.state.setup ≡ some x
      → (market_intake cfg.eq_tolerance_pct (keep_candle cfg.max_keep k.state candle).candles
          ≡ ok ctx)
        × (setup_signal cfg.setups ctx
              (keep_candle cfg.max_keep k.state candle).candles
              (observe provider on_candle two_places new_id cfg candle k).1.divergence
            ≡ ok (chosen x))
  unfolding observe flag_funding
  observe-setup candle k ctx x h e = ground arith

  ask_broker-state :
      (skip : Bool) (candle : Candle F) (cancels : List ℕ) (k : Desk F Fill B W)
      → (ask_broker provider on_candle two_places new_id cfg skip candle cancels k).1.state
        ≡ k.state
  unfolding ask_broker
  ask_broker-state skip candle cancels k = ground arith

  carry_out-order :
      (skip : Bool) (candle : Candle F) (k : Desk F Fill B W) (ev : Events F Fill)
      → (carry_out provider on_candle two_places new_id cfg skip candle k).0 ≡ ok ev
      → (expired : Bool) × ((decide cfg.risk cfg.limits cfg.pending_trigger_max_bars candle
            k.state).0
          ≡ ok expired)
        × ((decide cfg.risk cfg.limits cfg.pending_trigger_max_bars candle k.state).1.order
            ≡ (carry_out provider on_candle two_places new_id cfg skip candle k).1.state.order)
        × ((carry_out provider on_candle two_places new_id cfg skip candle k).1.state.setup
            ≡ k.state.setup)
  unfolding carry_out
  carry_out-order skip candle k ev h =
      let r = decide cfg.risk cfg.limits cfg.pending_trigger_max_bars candle k.state in
      elim (Result-cases r.0) [
        | inl (e, q) ↦ ground arith
        | inr (expired, q) ↦ (
          expired,
          q,
          grind (arith, journal_coach-order, ask_broker-state),
          grind (arith, journal_coach-setup, ask_broker-state, decide-setup),
        )
      ]

  step-observed :
      (skip : Bool) (candle : Candle F) (k : Desk F Fill B W) (ev : Events F Fill)
      → (step provider on_candle two_places new_id cfg skip candle k).0 ≡ ok ev
      → (ctx : Context F) × ((observe provider on_candle two_places new_id cfg candle k).0 ≡ ok ctx)
        × (step provider on_candle two_places new_id cfg skip candle k
            ≡ carry_out provider on_candle two_places new_id cfg skip candle
                (observe provider on_candle two_places new_id cfg candle k).1)
  unfolding step
  step-observed skip candle k ev h =
      elim (Result-cases (observe provider on_candle two_places new_id cfg candle k).0) [
        | inl (e, q) ↦ ground arith
        | inr (ctx, q) ↦ (ctx, q, ground arith)
      ]

  -- In a step that raises nothing, where the history keeps at least one candle and the distance that
  -- a stop is set from the swept level is finite and not negative: an order that reaches the broker
  -- from a market setup enters at the close of the candle that arrived, keeps the setup's side, stop
  -- and target, and has its stop strictly on the losing side of its entry.
  pub step-StopBehind :
      (skip : Bool) (candle : Candle F) (k : Desk F Fill B W) (ctx : Context F) (ev : Events F Fill)
      (x : Setup F) (r : Resolved F)
      → 0 < cfg.max_keep
      → market_intake cfg.eq_tolerance_pct (keep_candle cfg.max_keep k.state candle).candles
        ≡ ok ctx
      → IsMargin (
          range_of ctx (keep_candle cfg.max_keep k.state candle).candles
          * cfg.setups.sweep_invalidation.stop_atr_mult)
      → (step provider on_candle two_places new_id cfg skip candle k).0 ≡ ok ev
      → (step provider on_candle two_places new_id cfg skip candle k).1.state.setup ≡ some x
      → x.entry_type ≡ market
      → (step provider on_candle two_places new_id cfg skip candle k).1.state.order ≡ resolved r
      → EntersAt candle.close x r × StopBehind r.side r.entry r.sl
  step-StopBehind skip candle k ctx ev x r n i m h e t o =
      let k1 = (observe provider on_candle two_places new_id cfg candle k).1 in
      let s0 = keep_candle cfg.max_keep k.state candle in
      let (ctx', seen, whole) = step-observed skip candle k ev h in
      let (expired, d, same_order, same_setup) =
        carry_out-order skip candle k1 ev (ap (λ a. a.0) (sym whole) ∙ h) in
      let setup : k1.state.setup ≡ some x =
        sym same_setup ∙ ap (λ a. a.1.state.setup) (sym whole) ∙ e in
      let order = same_order ∙ ap (λ a. a.1.state.order) (sym whole) ∙ o in
      let (taken, signalled) = observe-setup candle k ctx' x seen setup in
      let same : ctx' ≡ ctx = ground arith in
      let last = keep_candle-last cfg.max_keep k.state candle n in
      let (at, behind) =
        setup_signal-StopBehind laws cfg.setups cfg.eq_tolerance_pct s0.candles candle ctx
          k1.divergence x last i m (rw (sym same) signalled) t in
      let enters =
        decide-EntersAt cfg.risk cfg.limits cfg.pending_trigger_max_bars candle k1.state x expired r
          setup t d order in
      (enters, rw (enters.same_terms.0, enters.entry, enters.same_terms.1) (rw (sym at) behind))
