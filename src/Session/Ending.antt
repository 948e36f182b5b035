-- ===== src/Session/Ending.antt =====
-- session/shutdown_handler.py: `perform_shutdown`, as far as the broker and the queue are concerned.
-- What tasks that have not ended yet do in its wait of two seconds is not part of it.
use btc_laptop_agents.Prelude.{
  Option, none, some, is_some, List, [], ◌∷◌, ◌++◌, last?, Result, ok, err, if◌then◌else◌,
}
use btc_laptop_agents.Float.{Float, nought, truthy, gt}
use btc_laptop_agents.Host.{Host}
use btc_laptop_agents.Paper.Types.{Order, ExitEvent, FillEvent}
use btc_laptop_agents.Paper.Broker.{Broker}
use btc_laptop_agents.Paper.Orders.{shutdown}
use btc_laptop_agents.Paper.Exit.{close_all}
use btc_laptop_agents.Session.Runner.{AsyncRunner, Payload}

abbrev pub queued_orders : {F : Type 0} → List (Payload F) → List (Order F)
queued_orders [] = []
queued_orders (p ∷ ps) = p.order ∷ queued_orders ps

module _ {F W A : Type 0} where
  -- The orders of the queue go to the working orders of the broker.
  unfoldable pub drain_queue : AsyncRunner F W A → AsyncRunner F W A
  drain_queue r = record r {
    execution_queue = [];
    broker = record r.broker {
      working_orders = r.broker.working_orders ++ queued_orders r.execution_queue;
    };
  }

  -- The last price, where there is one.
  abbrev pub closing_price : AsyncRunner F W A → Option F
  closing_price r = elim r.latest_tick [
    | some tick ↦ some tick.last
    | none ↦ elim (last? r.candles) [ none ↦ none | some c ↦ some c.close ]
  ]

module _ {F W : Type 0} ⦃fl : Float F⦄ ⦃host : Host F W (FillEvent F)⦄ where
  -- Where the price is none or not above 0, nothing is closed.
  unfoldable pub close_at : Option F → Broker F W → Result (List (ExitEvent F)) × Broker F W
  close_at none b = (ok [], b)
  close_at (some price) b =
      if truthy price
      then (if gt price nought then close_all b price else (ok [], b))
      else (ok [], b)

module _ {F W A : Type 0} ⦃fl : Float F⦄ ⦃host : Host F W (FillEvent F)⦄ where
  unfoldable pub close_position :
      AsyncRunner F W A → Result (List (ExitEvent F)) × AsyncRunner F W A
  close_position r =
      if is_some r.broker.pos
      then (let (res, b) = close_at (closing_price r) r.broker in (res, record r { broker = b }))
      else (ok [], r)

  -- An exception of `close_all` is not caught, and leaves the rest of the shutdown out.
  abbrev pub shut_broker : Result (List (ExitEvent F)) × AsyncRunner F W A → AsyncRunner F W A
  shut_broker (err e, r) = r
  shut_broker (ok exits, r) = record r { broker = shutdown r.broker }

  unfoldable pub perform_shutdown : AsyncRunner F W A → AsyncRunner F W A
  perform_shutdown r =
      shut_broker (close_position (drain_queue (record r { broker = shutdown r.broker })))
