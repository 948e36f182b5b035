-- ===== src/Agents/Records.antt =====
-- The journal over a whole step of the supervisor, whatever the step's outcome.
use btc_laptop_agents.Prelude.{ℕ, String, Bool, ◌≡◌, Option, List, Result, Result-both, arith}
use btc_laptop_agents.Float.{Float}
use btc_laptop_agents.Trading.Market.{Candle}
use btc_laptop_agents.Agents.Types.{Decision, State}
use btc_laptop_agents.Agents.Derivatives.{flag_funding}
use btc_laptop_agents.Agents.Sentinel.{RiskConfig, execution_risk}
use btc_laptop_agents.Agents.Resolve.{Limits}
use btc_laptop_agents.Agents.Gate.{keep_candle, decide, age_trigger, risk_gate}
use btc_laptop_agents.Agents.Journal.{Events, Journal}
use btc_laptop_agents.Agents.Supervisor.{
  Config, Desk, cancels_of, observe, ask_broker, carry_out, step,
}
use btc_laptop_agents.Agents.Plans.{IsJournal, journal_coach-IsJournal}

module _ {F : Type 0} ⦃fl : Float F⦄ where
  execution_risk-trade :
      (cfg : RiskConfig F) (s : State F) → (execution_risk cfg s).trade_id ≡ s.trade_id
  unfolding execution_risk
  execution_risk-trade cfg s = ground arith

  age_trigger-trade : (n : ℕ) (s : State F) → (age_trigger n s).1.trade_id ≡ s.trade_id
  unfolding age_trigger
  age_trigger-trade n s = ground arith

  risk_gate-trade : (s : State F) → (risk_gate s).trade_id ≡ s.trade_id
  unfolding risk_gate
  risk_gate-trade s = ground arith

  decide-trade :
      (cfg : RiskConfig F) (limits : Limits F) (max_bars : ℕ) (candle : Candle F) (s : State F)
      → (decide cfg limits max_bars candle s).1.trade_id ≡ s.trade_id
  unfolding decide
  decide-trade cfg limits max_bars candle s =
      grind (arith, execution_risk-trade, age_trigger-trade, risk_gate-trade)

  -- Of the state, the journal is about the open trade alone.
  same-IsJournal :
      {Fill : Type 0} (s s' : State F) (j : Journal F Fill)
      → s'.trade_id ≡ s.trade_id
      → IsJournal s j
      → IsJournal s' j
  same-IsJournal s s' j e h = record { traced = h.traced; tracked = rw e h.tracked }

abbrev Journaled : {F Fill B W : Type 0} → Result (Events F Fill) × Desk F Fill B W → Type 0
Journaled p = IsJournal p.1.state p.1.journal

module _ {F Fill B W : Type 0} ⦃fl : Float F⦄ (provider : W → Option (Option F) × W)
    (on_candle : Candle F → Decision F → B → Result (Events F Fill) × B) (two_places : F → String)
    (new_id : W → String × W) (cfg : Config F) where
  observe-trade :
      (candle : Candle F) (k : Desk F Fill B W)
      → (observe provider on_candle two_places new_id cfg candle k).1.state.trade_id
        ≡ k.state.trade_id
  unfolding observe flag_funding keep_candle
  observe-trade candle k = ground arith

  observe-journal :
      (candle : Candle F) (k : Desk F Fill B W)
      → (observe provider on_candle two_places new_id cfg candle k).1.journal ≡ k.journal
  unfolding observe
  observe-journal candle k = ground arith

  ask_broker-keeps :
      (skip : Bool) (candle : Candle F) (cancels : List ℕ) (k : Desk F Fill B W)
      → ((ask_broker provider on_candle two_places new_id cfg skip candle cancels k).1.state
          ≡ k.state)
        × ((ask_broker provider on_candle two_places new_id cfg skip candle cancels k).1.journal
            ≡ k.journal)
  unfolding ask_broker
  ask_broker-keeps skip candle cancels k = ground arith

  carry_out-IsJournal :
      (skip : Bool) (candle : Candle F) (k : Desk F Fill B W)
      → IsJournal k.state k.journal
      → IsJournal
          (carry_out provider on_candle two_places new_id cfg skip candle k).1.state
          (carry_out provider on_candle two_places new_id cfg skip candle k).1.journal
  unfolding carry_out
  carry_out-IsJournal skip candle k h =
      let (r, s) = decide cfg.risk cfg.limits cfg.pending_trigger_max_bars candle k.state in
      let kept : IsJournal s k.journal =
        same-IsJournal k.state s k.journal
          (decide-trade cfg.risk cfg.limits cfg.pending_trigger_max_bars candle k.state) h in
      Result-both Journaled r _ _ (λ e. kept)
        (λ expired.
          let ask =
            ask_broker provider on_candle two_places new_id cfg skip candle (cancels_of expired s)
              (record k { state = s }) in
          let (same_state, same_journal) =
            ask_broker-keeps skip candle (cancels_of expired s) (record k { state = s }) in
          let asked : Journaled ask = rw (same_state, same_journal) kept in
          Result-both Journaled ask.0 _ _ (λ e. asked)
            (λ ev.
              journal_coach-IsJournal two_places new_id ev ask.1.state ask.1.journal ask.1.world
                asked))

  -- Whatever the provider, the broker and the candle, and also where a step raises: a journal each of
  -- whose lines is about a trade that a line before it opened, and that opened the trade which is
  -- open now, is such a journal after the step.
  pub step-IsJournal :
      (skip : Bool) (candle : Candle F) (k : Desk F Fill B W)
      → IsJournal k.state k.journal
      → IsJournal
          (step provider on_candle two_places new_id cfg skip candle k).1.state
          (step provider on_candle two_places new_id cfg skip candle k).1.journal
  unfolding step
  step-IsJournal skip candle k h =
      let (r, k1) = observe provider on_candle two_places new_id cfg candle k in
      let kept : IsJournal k1.state k1.journal =
        rw (observe-journal candle k)
          (same-IsJournal k.state k1.state k.journal (observe-trade candle k) h) in
      Result-both Journaled r _ _ (λ e. kept) (λ ctx. carry_out-IsJournal skip candle k1 kept)
