-- ===== src/Agents/Supervisor.antt =====
-- `Supervisor.step` of agents/supervisor.py: one candle through all the agents, to the broker and the
-- journal. The broker is any object with the method `on_candle`; it may raise.
use btc_laptop_agents.Prelude.{
  ℕ, String, Bool, Option, List, [], ◌∷◌, Result, ok, err, if◌then◌else◌,
}
use btc_laptop_agents.Float.{Float}
use btc_laptop_agents.Trading.Market.{Candle}
use btc_laptop_agents.Agents.Types.{Decision, State}
use btc_laptop_agents.Agents.Derivatives.{DerivativesFlows, flag_funding}
use btc_laptop_agents.Agents.Sentinel.{RiskConfig}
use btc_laptop_agents.Agents.Resolve.{Limits}
use btc_laptop_agents.Agents.Gate.{keep_candle, decide}
use btc_laptop_agents.Agents.Context.{Context, Divergence, market_intake, cvd_divergence}
use btc_laptop_agents.Agents.Setups.{SetupConfig, as_setup, setup_signal}
use btc_laptop_agents.Agents.Journal.{Events, Journal, journal_coach}

pub record Config (F : Type 0) : Type 0 where
  pub eq_tolerance_pct : F
  pub cvd_lookback : ℕ
  pub setups : SetupConfig F
  pub risk : RiskConfig F
  pub limits : Limits F
  pub pending_trigger_max_bars : ℕ
  -- `max(800, self.min_history_bars + 100)`
  pub max_keep : ℕ

-- What a step changes: the shared state with its divergence, the agents that keep a state of their
-- own, the broker, and the world `W` that the provider and the fresh ids come from.
pub record Desk (F Fill B W : Type 0) : Type 0 where
  pub state : State F
  pub divergence : Divergence
  pub flows : DerivativesFlows F
  pub journal : Journal F Fill
  pub broker : B
  pub world : W

abbrev pub cancels_of : {F : Type 0} → Bool → State F → List ℕ
cancels_of expired s = if expired then s.pending_trigger_bars ∷ [] else []

abbrev pub no_events : {F Fill : Type 0} → List ℕ → Events F Fill
no_events cancels = record { fills = []; exits = []; cancels = cancels }

module _ {F Fill B W : Type 0} ⦃fl : Float F⦄ (provider : W → Option (Option F) × W)
    (on_candle : Candle F → Decision F → B → Result (Events F Fill) × B) (two_places : F → String)
    (new_id : W → String × W) (cfg : Config F) where
  -- From the market intake to the setup.
  unfoldable pub observe : Candle F → Desk F Fill B W → Result (Context F) × Desk F Fill B W
  observe candle k =
      let s = keep_candle cfg.max_keep k.state candle in
      elim (market_intake cfg.eq_tolerance_pct s.candles) [
        | err e ↦ (err e, record k { state = s })
        | ok ctx ↦
            let (s1, flows, w) = flag_funding provider k.flows s k.world in
            let d = cvd_divergence cfg.cvd_lookback s.candles k.divergence in
            let k1 = record k { state = s1; flows = flows; world = w; divergence = d } in
            elim (setup_signal cfg.setups ctx s.candles d) [
              | err e ↦ (err e, k1)
              | ok c ↦ (ok ctx, record k1 { state = record s1 { setup = as_setup c } })
            ]
      ]

  -- The broker's answer to the order.
  unfoldable pub ask_broker :
      Bool → Candle F → List ℕ → Desk F Fill B W → Result (Events F Fill) × Desk F Fill B W
  ask_broker skip candle cancels k =
      if skip
      then (ok (no_events cancels), k)
      else (let (r, b) = on_candle candle k.state.order k.broker in
          let k' = record k { broker = b } in
          elim r [ err e ↦ (err e, k') | ok ev ↦ (ok (record ev { cancels = cancels }), k') ])

  -- From the order to the journal.
  unfoldable pub carry_out :
      Bool → Candle F → Desk F Fill B W → Result (Events F Fill) × Desk F Fill B W
  carry_out skip candle k =
      let (r, s) = decide cfg.risk cfg.limits cfg.pending_trigger_max_bars candle k.state in
      let k1 = record k { state = s } in
      elim r [
        | err e ↦ (err e, k1)
        | ok expired ↦
            let (answer, k2) = ask_broker skip candle (cancels_of expired s) k1 in
            elim answer [
              | err e ↦ (err e, k2)
              | ok ev ↦
                  let (s', j, w) =
                    journal_coach two_places new_id ev k2.state k2.journal k2.world in
                  (ok ev, record k2 { state = s'; journal = j; world = w })
            ]
      ]

  unfoldable pub step : Bool → Candle F → Desk F Fill B W → Result (Events F Fill) × Desk F Fill B W
  step skip candle k =
      let (r, k1) = observe candle k in
      elim r [ err e ↦ (err e, k1) | ok ctx ↦ carry_out skip candle k1 ]
