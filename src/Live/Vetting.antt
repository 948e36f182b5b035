-- ===== src/Live/Vetting.antt =====
-- What the live broker sends: the limits that every submitted order has passed.
use btc_laptop_agents.Prelude.{
  ◌<◌, ◌≡◌, true, false, Option, none, some, length, arith, [], ◌∷◌, ◌++◌, Option-cases, Bool-cases,
  ◌⊎◌, inl, inr,
}
use btc_laptop_agents.Float.{Float, nought, lit, ◌*◌, ◌/◌, gt, ◌-◌, truthy, or_else}
use btc_laptop_agents.Trading.Market.{Candle}
use btc_laptop_agents.Paper.Types.{Order}
use btc_laptop_agents.Paper.Broker.{HardLimits, max_orders_per_minute}
use btc_laptop_agents.Paper.Risk.{recent}
use btc_laptop_agents.Live.Types.{
  done, LivePosition, LiveEvents, close_order, Instrument, Request, open_order, Exchange,
  LiveBroker,
}
use btc_laptop_agents.Live.Submit.{
  limits_broken, prepared, with_start, stamped, is_lossy, get_info, send, prepare_and_send, submit,
}
use btc_laptop_agents.Live.Sync.{sync, synthesize, report_fill, report_exit}
use btc_laptop_agents.Live.Broker.{submitted, on_candle}

module _ {F : Type 0} ⦃fl : Float F⦄ where
  -- An order to open with the side of the given one, within the limits on the notional and the
  -- leverage.
  abbrev pub IsWithin : HardLimits F → Order F → Request F → Type 0
  IsWithin limits o (close_order _ _) = true ≡ false
  IsWithin limits o (open_order side qty kind price sl tp) =
      (side ≡ o.side)
      × (gt (qty * price) limits.max_position_size_usd ≡ false)
      × (gt (qty * price / or_else o.equity (lit 10_000 1)) limits.max_leverage ≡ false)

  -- At most 5 percent of the starting equity are lost, where the broker knows one other than 0 and is
  -- told of an equity above 0. A broker that knows none takes the equity that it is told of for one.
  abbrev pub IsSolvent : Option F → F → Type 0
  IsSolvent none equity = Unit
  IsSolvent (some start) equity =
      (truthy start ≡ false)
      ⊎ (gt equity nought ≡ false)
      ⊎ (gt ((start - equity) / start * lit 100 1) (lit 5 1) ≡ false)

module _ {F W : Type 0} ⦃fl : Float F⦄ where
  limits_broken-none :
      (b : LiveBroker F W) (o : Order F) (notional : F)
      → limits_broken b o notional ≡ none
      → (gt notional b.limits.max_position_size_usd ≡ false)
        × (gt (notional / or_else o.equity (lit 10_000 1)) b.limits.max_leverage ≡ false)
  unfolding limits_broken
  limits_broken-none b o notional h = ground arith

  prepared-IsWithin :
      (b : LiveBroker F W) (info : Instrument F) (o : Order F) (candle : Candle F) (q : Request F)
      → prepared b info o candle ≡ done q
      → IsWithin b.limits o q
  unfolding prepared
  prepared-IsWithin b info o candle q h = grind (arith, limits_broken-none)

  -- What a vetted order was checked for: the limits on its notional and its leverage, fewer than ten
  -- orders in the last minute, and the daily loss.
  pub record IsVetted (now : F) (b : LiveBroker F W) (o : Order F) (q : Request F) : Type 0 where
    pub within : IsWithin b.limits o q
    pub rare : length (recent now b.order_timestamps) < max_orders_per_minute
    pub solvent : IsSolvent b.starting_equity (or_else o.equity nought)

module _ {F W : Type 0} ⦃fl : Float F⦄ (ex : Exchange F W) where
  get_info-limits : (b : LiveBroker F W) → (get_info ex b).1.limits ≡ b.limits
  unfolding get_info
  get_info-limits b = ground arith

  prepare_and_send-IsWithin :
      (b : LiveBroker F W) (o : Order F) (candle : Candle F) (q : Request F)
      → (prepare_and_send ex b o candle).0 ≡ done q
      → IsWithin b.limits o q
  unfolding prepare_and_send send
  prepare_and_send-IsWithin b o candle q h =
      let (info, b') = get_info ex b in
      elim (Option-cases info) [
        | inl e ↦ ground (arith, e)
        | inr (i, e) ↦
            rw (← get_info-limits b) (ground (arith, e, prepared-IsWithin b' i o candle q))
      ]

  stamped-limits :
      (b : LiveBroker F W) (equity : F) → (stamped ex (with_start b equity)).limits ≡ b.limits
  stamped-limits b equity = ground arith

  -- An order whose daily loss is not above the limit.
  with_start-IsSolvent :
      (b : LiveBroker F W) (equity : F)
      → is_lossy (with_start b equity) equity ≡ false
      → IsSolvent b.starting_equity equity
  unfolding is_lossy
  with_start-IsSolvent b equity h = elim (Option-cases b.starting_equity) [
    | inl none_known ↦ rw none_known tt
    | inr (start, known) ↦ rw known (elim (Bool-cases (truthy start)) [
      | inr zero ↦ inl zero
      | inl set ↦ elim (Bool-cases (gt equity nought)) [
        | inr told ↦ inr (inl told)
        | inl above ↦ inr (inr (ground (arith, h, known, set, above)))
      ]
    ])
  ]

  submit-IsVetted :
      (b : LiveBroker F W) (o : Order F) (candle : Candle F) (q : Request F)
      → (submit ex b o candle).0 ≡ done q
      → IsVetted (ex.time b.world) b o q
  unfolding submit
  submit-IsVetted b o candle q h =
      let stamps = recent (ex.time b.world) b.order_timestamps ++ ex.time b.world ∷ [] in
      let b1 = with_start (record b { order_timestamps = stamps }) (or_else o.equity nought) in
      ground (
        arith,
        prepare_and_send-IsWithin (stamped ex b1) o candle q,
        stamped-limits (record b { order_timestamps = stamps }) (or_else o.equity nought),
        with_start-IsSolvent (record b { order_timestamps = stamps }) (or_else o.equity nought),
      )

  report-submitted :
      (b : LiveBroker F W) (current : Option (LivePosition F)) (candle : Candle F)
      (ev : LiveEvents F)
      → (synthesize b current candle ev).0.submitted ≡ ev.submitted
  unfolding synthesize report_fill report_exit
  report-submitted b none candle ev = ground arith
  report-submitted b (some p) candle ev = ground arith

  sync-submitted :
      (b : LiveBroker F W) (candle : Candle F) (ev : LiveEvents F)
      → (sync ex b candle ev).0.submitted ≡ ev.submitted
  unfolding sync
  sync-submitted b candle ev = grind (arith, report-submitted)

  -- An order that a candle submits was asked for by an order that goes, to a broker with no position
  -- and with the kill switch off; it has that order's side, its notional and its leverage are within
  -- the hard limits, fewer than ten orders were sent in the last minute, and the daily loss is at most 5
  -- percent of the starting equity, where the order tells of an equity above 0 and the broker knows a
  -- starting equity other than 0.
  pub on_candle-IsVetted :
      (b : LiveBroker F W) (candle : Candle F) (o : Order F) (q : Request F)
      → (on_candle ex b candle (some o)).0.submitted ≡ some q
      → (ex.kill_switch b.world ≡ false)
        × (o.go ≡ true)
        × (b.last_pos ≡ none)
        × IsVetted (ex.time b.world) b o q
  unfolding on_candle submitted
  on_candle-IsVetted b candle o q h = ground (
    arith,
    sync-submitted (submitted ex b candle (some o)).1 candle (submitted ex b candle (some o)).0,
    submit-IsVetted b o candle q,
  )
