-- ===== src/Paper/Exit/Decisions.antt =====
-- What the exit decisions of paper/broker.py promise: a position is kept only inside its stop and
-- its target, the stop comes first, and a trailing stop only tightens.
use btc_laptop_agents.Prelude.{
  ◌≡◌, refl, ap, ◌∙◌, ◌⊎◌, ◌↔◌, true, false, Bool, none, some, List, [], ◌∷◌, arith, Bool-cases,
  inl, inr,
}
use btc_laptop_agents.Float.{Float, ◌+◌, ◌-◌, ◌*◌, le, ge}
use btc_laptop_agents.Float.Laws.{◌≼◌, IsOrdered, min-le_left, le-max_left}
use btc_laptop_agents.Trading.Market.{Candle, Tick}
use btc_laptop_agents.Paper.Types.{Position, Reason, is_long}
use btc_laptop_agents.Paper.Exit.{update_trail, stop_distance, stop_or_target, tick_decision}

module _ {F : Type 0} ⦃fl : Float F⦄ where
  abbrev pub stop_hit : Candle F → Position F → Bool
  stop_hit c p = elim (is_long p.side) [ true ↦ le c.low p.sl | false ↦ ge c.high p.sl ]

  abbrev pub target_hit : Candle F → Position F → Bool
  target_hit c p = elim (is_long p.side) [ true ↦ ge c.high p.tp | false ↦ le c.low p.tp ]

  -- A candle leaves the position open exactly when it touches neither the stop nor the target.
  stop_or_target-none_iff :
      (c : Candle F) (p : Position F)
      → (stop_or_target c p ≡ none) ↔ ((stop_hit c p ≡ false) × (target_hit c p ≡ false))
  unfolding stop_or_target
  stop_or_target-none_iff c p = (ground arith, ground arith)

  -- A stop that the candle touches wins over the target: the exit is a stop, and it is the
  -- conservative one exactly where the target was touched too.
  stop_or_target_stop_first :
      (c : Candle F) (p : Position F) (px : F) (reason : Reason)
      → stop_hit c p ≡ true
      → stop_or_target c p ≡ some (px, reason)
      → ((target_hit c p ≡ true) × (reason ≡ Reason.sl_conservative) × (px ≡ p.sl))
        ⊎ ((target_hit c p ≡ false) × (reason ≡ Reason.sl_stop))
  unfolding stop_or_target
  stop_or_target_stop_first c p px reason hit e = ground arith

  -- A tick leaves a position open only while neither its stop nor its target nor an active trailing
  -- stop is reached by the side of the quote that it would close at.
  tick_decision-none :
      (t : Tick F) (p : Position F)
      → tick_decision t p ≡ none
      → ((is_long p.side ≡ true)
          × (le t.bid p.sl ≡ false)
          × (ge t.bid p.tp ≡ false)
          × ((p.trail_active ≡ false) ⊎ (le t.bid p.trail_stop ≡ false)))
        ⊎ ((is_long p.side ≡ false)
            × (ge t.ask p.sl ≡ false)
            × (le t.ask p.tp ≡ false)
            × ((p.trail_active ≡ false) ⊎ (ge t.ask p.trail_stop ≡ false)))
  unfolding tick_decision
  tick_decision-none t p h = elim (Bool-cases (is_long p.side)) [
    | inl long_side ↦ inl (ground arith)
    | inr short_side ↦ inr (ground arith)
  ]

  -- From `b` to `a` a trailing stop does not loosen, for a long position or another one.
  abbrev pub NoLooser : Bool → F → F → Type 0
  NoLooser true b a = b ≼ a
  NoLooser false b a = a ≼ b

  -- The position after the trailing stop followed some candles.
  abbrev pub follow : F → List (Candle F) → Position F → Position F
  follow mult [] p = p
  follow mult (c ∷ cs) p = follow mult cs (update_trail c mult p)

module _ {F : Type 0} ⦃fl : Float F⦄ (laws : IsOrdered F) where
  -- A stop that the candle gaps through fills at the worse of stop and open, never at a better price
  -- than the stop.
  stop_or_target_no_better :
      (c : Candle F) (p : Position F) (px : F) (reason : Reason)
      → p.sl ≼ p.sl
      → stop_hit c p ≡ true
      → stop_or_target c p ≡ some (px, reason)
      → ((is_long p.side ≡ true) × (px ≼ p.sl)) ⊎ ((is_long p.side ≡ false) × (p.sl ≼ px))
  unfolding stop_or_target
  stop_or_target_no_better c p px reason number hit e = elim (Bool-cases (is_long p.side)) [
    | inl long_side ↦ inl (long_side, ground (arith, min-le_left laws p.sl c.open_px number))
    | inr short_side ↦ inr (short_side, ground (arith, le-max_left laws p.sl c.open_px number))
  ]

  NoLooser-trans :
      (long_side : Bool) (a b c : F)
      → NoLooser long_side a b
      → NoLooser long_side b c
      → NoLooser long_side a c
  NoLooser-trans true a b c h k = laws.le_trans a b c h k
  NoLooser-trans false a b c h k = laws.le_trans c b a k h

  NoLooser-number : (long_side : Bool) (a b : F) → NoLooser long_side a b → b ≼ b
  NoLooser-number true a b h = (laws.number_of_le a b h).1
  NoLooser-number false a b h = (laws.number_of_le b a h).0

  -- One candle never loosens a trailing stop that is active, and it stays active.
  pub update_trail-NoLooser :
      (c : Candle F) (mult : F) (p : Position F)
      → p.trail_active ≡ true
      → p.trail_stop ≼ p.trail_stop
      → ((update_trail c mult p).trail_active ≡ true)
        × ((update_trail c mult p).side ≡ p.side)
        × NoLooser (is_long p.side) p.trail_stop (update_trail c mult p).trail_stop
  unfolding update_trail
  update_trail-NoLooser c mult p active number =
      let dist = stop_distance p * mult in
      ground (
        arith,
        le-max_left laws p.trail_stop (c.close - dist) number,
        min-le_left laws p.trail_stop (c.close + dist) number,
      )

  -- The statement for the side as a variable.
  follow_side-NoLooser :
      (mult : F) (cs : List (Candle F)) (p : Position F) (long_side : Bool)
      → is_long p.side ≡ long_side
      → p.trail_active ≡ true
      → p.trail_stop ≼ p.trail_stop
      → ((follow mult cs p).trail_active ≡ true)
        × NoLooser long_side p.trail_stop (follow mult cs p).trail_stop
  follow_side-NoLooser mult [] p long_side e active number = (active, ground arith)
  follow_side-NoLooser mult (c ∷ cs) p long_side e active number =
      let p' = update_trail c mult p in
      let (active', same, moved) = update_trail-NoLooser c mult p active number in
      let step : NoLooser long_side p.trail_stop p'.trail_stop = rw e at moved in
      let number' = NoLooser-number long_side p.trail_stop p'.trail_stop step in
      let (still, rest) =
        follow_side-NoLooser mult cs p' long_side (ap is_long same ∙ e) active' number' in
      (still, NoLooser-trans long_side p.trail_stop p'.trail_stop _ step rest)

  -- Over any number of candles an active trailing stop only tightens: upwards for a long position,
  -- downwards for another one.
  pub follow-NoLooser :
      (mult : F) (cs : List (Candle F)) (p : Position F)
      → p.trail_active ≡ true
      → p.trail_stop ≼ p.trail_stop
      → ((follow mult cs p).trail_active ≡ true)
        × NoLooser (is_long p.side) p.trail_stop (follow mult cs p).trail_stop
  follow-NoLooser mult cs p = follow_side-NoLooser mult cs p (is_long p.side) refl
