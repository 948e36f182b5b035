-- ===== src/Session/Strategy.antt =====
-- session/strategy.py: from a closed candle to an order in the queue, or to the broker's exits. The
-- agents are asked through `agents`, with the history, the candle and their state: their order, or the
-- exception. Their orders name no symbol, so the symbol is the session's.
use Prim.Native.String.{String, ◌++◌ as joined}
use btc_laptop_agents.Prelude.{
  ◌+◌ as add, Bool, true, false, not, ◌&&◌, ◌||◌, Option, none, some, List, [], ◌∷◌, ◌++◌, Result,
  ok, err, length, init, ltb, if◌then◌else◌,
}
use btc_laptop_agents.Float.{Float, nought, lt, le}
use btc_laptop_agents.Host.{Host}
use btc_laptop_agents.Trading.Market.{Candle}
use btc_laptop_agents.Paper.Types.{Side, long, short, other, EntryType, Order, FillEvent}
use btc_laptop_agents.Paper.Orders.{on_candle}
use btc_laptop_agents.Agents.Types.{Decision, nothing, refused, intended, resolved, goes}
use btc_laptop_agents.Agents.Types as Agent
use btc_laptop_agents.Resilience.Breaker.{allow_request}
use btc_laptop_agents.Session.Runner.{AsyncRunner, Payload, SessionConfig, queue_size, spend_error}

-- What an order of the agents says; a value that is missing takes the default of `safe_float`.
pub record Proposal (F : Type 0) : Type 0 where
  pub side : Side
  pub entry_type : EntryType
  pub entry : F
  pub qty : F
  pub sl : F
  pub tp : F

abbrev pub order_type : Agent.EntryType → EntryType
order_type Agent.market = EntryType.market
order_type Agent.limit = EntryType.limit
order_type _ = EntryType.other_type

module _ {F : Type 0} ⦃fl : Float F⦄ where
  -- Not `math.isnan(candle.close) or candle.close <= 0`: a number that is not NaN is at most itself.
  abbrev pub is_priced : Candle F → Bool
  is_priced c = le c.close c.close && not (le c.close nought)

  -- `agent_order`, where it goes.
  abbrev pub proposal : Candle F → Decision F → Option (Proposal F)
  proposal candle nothing = none
  proposal candle (refused x) = none
  proposal candle (intended o) = some (record {
    side = o.side;
    entry_type = order_type o.entry_type;
    entry = elim o.entry [ none ↦ candle.close | some x ↦ x ];
    qty = nought;
    sl = o.sl;
    tp = o.tp;
  })
  proposal candle (resolved r) = some (record {
    side = r.side;
    entry_type = order_type r.entry_type;
    entry = r.entry;
    qty = r.qty;
    sl = r.sl;
    tp = r.tp;
  })

  -- The order of stop, entry and target: each side has its own, another side none.
  abbrev pub is_ordered : Side → F → F → F → Bool
  is_ordered long entry sl tp = lt sl entry && lt entry tp
  is_ordered short entry sl tp = lt tp entry && lt entry sl
  is_ordered (other s) entry sl tp = false

  -- The tests that an order passes before it is queued.
  unfoldable pub passes : Order F → Bool
  passes o =
      not (le o.sl nought || le o.tp nought)
      && fl.is_finite o.entry
      && fl.is_finite o.qty
      && fl.is_finite o.sl
      && fl.is_finite o.tp
      && not (le o.qty nought)
      && is_ordered o.side o.entry o.sl o.tp

  abbrev pub session_order : Proposal F → F → String → Order F
  session_order p equity id = record {
    go = true;
    client_order_id = some id;
    side = p.side;
    entry_type = p.entry_type;
    entry = p.entry;
    qty = p.qty;
    sl = p.sl;
    tp = p.tp;
    equity = some equity;
    created_at = none;
  }

module _ {F W A : Type 0} ⦃fl : Float F⦄ ⦃host : Host F W (FillEvent F)⦄ where
  abbrev pub put_world : W → AsyncRunner F W A → AsyncRunner F W A
  put_world w r = record r { broker = record r.broker { world = w } }

  -- `put_nowait`, with the draw of the latency before it.
  unfoldable pub enqueue : Order F → Candle F → AsyncRunner F W A → AsyncRunner F W A
  enqueue o candle r =
      let (latency, w) = host.randint 50 500 r.broker.world in
      let r' = put_world w r in
      let p : Payload F = record {
        order = o;
        candle = candle;
        latency_ms = latency;
        queued_at = host.time w;
      } in
      if ltb (length r.execution_queue) queue_size
      then record r' { execution_queue = r'.execution_queue ++ p ∷ [] }
      else spend_error r'

  -- No order: the broker still looks for exits.
  unfoldable pub settle : Candle F → AsyncRunner F W A → AsyncRunner F W A
  settle candle r =
      let (res, b) = on_candle r.broker candle none r.latest_tick in
      let r' = record r { broker = b } in
      elim res [
        | err e ↦ spend_error r'
        | ok events ↦ record r' { trades = add r'.trades (length events.exits) }
      ]

  -- From the agents' order on: the vetting, then the queue or the exits.
  unfoldable pub place : Option (Proposal F) → Candle F → AsyncRunner F W A → AsyncRunner F W A
  place none candle r = settle candle r
  place (some p) candle r =
      let (id, w) = host.uuid_hex r.broker.world in
      let o = session_order p r.broker.current_equity (joined "async_" id) in
      let r' = put_world w r in if passes o then enqueue o candle r' else settle candle r'

  -- `agent_order = {}` where the session stops or the breaker refuses, whom only the last test asks.
  unfoldable pub gate :
      Option (Proposal F) → AsyncRunner F W A → Option (Proposal F) × AsyncRunner F W A
  gate p r =
      if r.kill_switch_triggered || r.shutdown_event
      then (none, r)
      else (let (allowed, c) = allow_request (host.time r.broker.world) r.circuit_breaker in
          (if allowed then p else none, record r { circuit_breaker = c }))

  abbrev pub decided : Candle F → Option (Proposal F) × AsyncRunner F W A → AsyncRunner F W A
  decided candle (p, r) = place p candle r

module _ {F W A : Type 0} ⦃fl : Float F⦄ ⦃host : Host F W (FillEvent F)⦄
    (agents : List (Candle F) → Candle F → A → Result (Decision F) × A)
    (cfg : SessionConfig F) where
  -- The agents' order; an exception of theirs is counted, without a look at the budget.
  unfoldable pub consult :
      Candle F → AsyncRunner F W A → Option (Option (Proposal F)) × AsyncRunner F W A
  consult candle r =
      if cfg.has_strategy
      then (let (res, a) = agents (init r.candles) candle r.agents in
          let r' = record r { agents = a } in
          elim res [
            | err e ↦ (none, record r' { errors = add r'.errors 1 })
            | ok d ↦ (some (proposal candle d), r')
          ])
      else (some none, r)

  abbrev pub consulted :
      Candle F → Option (Option (Proposal F)) × AsyncRunner F W A → AsyncRunner F W A
  consulted candle (none, r) = r
  consulted candle (some p, r) = decided candle (gate p r)

  unfoldable pub on_candle_closed : Candle F → AsyncRunner F W A → AsyncRunner F W A
  on_candle_closed candle r =
      if is_priced candle
      then (let r' = record r { iterations = add r.iterations 1 } in
          if ltb (length r'.candles) cfg.warmup_bars
          then r'
          else consulted candle (consult candle r'))
      else r
