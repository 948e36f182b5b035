-- ===== src/Session/Startup.antt =====
-- session/state_sync.py: `sync_initial_state`, with the starting equity it returns, which becomes that
-- of the session.
use btc_laptop_agents.Prelude.{
  Bool, true, false, not, ◌&&◌, ◌≡◌, is_some, List, [], ◌∷◌, if◌then◌else◌, arith, none,
}
use btc_laptop_agents.Float.{Float, nought, lit, ◌-◌, eq, gt, ge}
use btc_laptop_agents.Paper.Types.{Order}
use btc_laptop_agents.Paper.Broker.{Broker}

abbrev pub is_empty : {F : Type 0} → List (Order F) → Bool
is_empty [] = true
is_empty (_ ∷ _) = false

module _ {F W : Type 0} ⦃fl : Float F⦄ where
  -- The broker's starting equity where the balance is the default, or the balance.
  abbrev pub restored : F → Broker F W → F × Broker F W
  restored balance b =
      if eq balance (lit 10_000 1)
      then (b.starting_equity, b)
      else (balance, record b { starting_equity = balance })

  -- A drawdown that a flat broker starts with is forgotten.
  abbrev pub forget_drawdown : F → F × Broker F W → F × Broker F W
  forget_drawdown max_loss (start, b) =
      if not (is_some b.pos)
        && is_empty b.working_orders
        && gt start nought
        && ge (start - b.current_equity) max_loss
      then (b.current_equity, record b { starting_equity = b.current_equity })
      else (start, b)

  unfoldable pub sync_initial_state : F → F → Broker F W → F × Broker F W
  sync_initial_state max_loss balance b = forget_drawdown max_loss (restored balance b)

  -- A flat broker with no working orders, whatever it lost before, starts a session within the daily
  -- loss limit; only that the equity less itself is below the limit is used. So a restart forgets the
  -- losses of the day.
  pub sync_initial_state-unbreached :
      (max_loss balance : F) (b : Broker F W)
      → b.pos ≡ none
      → b.working_orders ≡ []
      → ge (b.current_equity - b.current_equity) max_loss ≡ false
      → (gt (sync_initial_state max_loss balance b).0 nought
          && ge ((sync_initial_state max_loss balance b).0 - b.current_equity) max_loss)
        ≡ false
  unfolding sync_initial_state
  sync_initial_state-unbreached max_loss balance b p w h = ground arith
