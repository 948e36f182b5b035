-- ===== src/Agents/Journal.antt =====
-- agents/journal_coach.py: when a plan opens a trade in the journal, and when the trade is over. Of an
-- exit, what the coach's note is made from; the times of the journal's lines are left out.
use Prim.Native.String.{◌++◌ as joined}
use btc_laptop_agents.Prelude.{
  ℕ, String, Bool, true, false, not, ◌&&◌, Option, none, some, List, [], ◌∷◌, ◌++◌, map, str_eq,
  leb, if◌then◌else◌,
}
use btc_laptop_agents.Float.{Float, neg, lit, one, le, ge}
use btc_laptop_agents.Paper.Types.{Side, long, short, other}
use btc_laptop_agents.Agents.Types.{Decision, nothing, refused, intended, resolved, State, Setup}

pub record ExitEvent (F : Type 0) : Type 0 where
  pub r : F
  pub bars_open : ℕ

-- `broker_events`: the fills, of whatever form, the exits, and the bars of the cancels.
pub record Events (F Fill : Type 0) : Type 0 where
  pub fills : List Fill
  pub exits : List (ExitEvent F)
  pub cancels : List ℕ

pub data Tag : Type 0 where
  stopped_fast followed_plan_profit : Tag

-- A line of the journal.
pub data Entry (F Fill : Type 0) : Type 0 where
  new_trade : String → Side → Entry F Fill
  plan_created : String → String → Entry F Fill
  canceled : String → ℕ → Entry F Fill
  filled : String → Fill → Entry F Fill
  exited : String → ExitEvent F → List Tag → Entry F Fill

-- The agent's part of the state, beside `State`: `last_plan_key` of `meta`, and the journal.
pub record Journal (F Fill : Type 0) : Type 0 where
  pub last_plan_key : Option String
  pub lines : List (Entry F Fill)

abbrev pub side_text : Side → String
side_text long = "LONG"
side_text short = "SHORT"
side_text (other s) = s

-- The side, entry, stop and target of an order.
abbrev pub terms_of : {F : Type 0} → Decision F → Option (Side × Option F × F × F)
terms_of (intended o) = some (o.side, o.entry, o.sl, o.tp)
terms_of (resolved r) = some (r.side, some r.entry, r.sl, r.tp)
terms_of nothing = none
terms_of (refused x) = none

abbrev pub name_of : {F : Type 0} → Option (Setup F) → String
name_of none = "NONE"
name_of (some x) = x.name

module _ {F : Type 0} ⦃fl : Float F⦄ where
  -- `_coach_note`
  unfoldable pub coach_note : ExitEvent F → List Tag
  coach_note x =
      let fast = if le x.r (neg (lit 9 10)) && leb x.bars_open 3 then stopped_fast ∷ [] else [] in
      if ge x.r one then fast ++ followed_plan_profit ∷ [] else fast

-- `two_places` is Python's formatting with two decimals.
module _ {F : Type 0} (two_places : F → String) where
  abbrev entry_text : Option F → String
  entry_text none = "None"
  entry_text (some x) = two_places x

  -- `_plan_key`
  unfoldable pub plan_key : Option (Setup F) → Side × Option F × F × F → String
  plan_key x (side, entry, sl, tp) = joined (name_of x) (
      joined "|" (
        joined (side_text side) (
          joined "|e=" (
            joined (entry_text entry)
              (joined "|sl=" (joined (two_places sl) (joined "|tp=" (two_places tp))))))))

abbrev pub is_last : Option String → String → Bool
is_last none key = false
is_last (some k) key = str_eq key k

-- `new_id` makes a trade's id, from the clock and at random.
module _ {F Fill W : Type 0} (two_places : F → String) (new_id : W → String × W) where
  -- A new plan, where no trade is open and the order goes, by its terms.
  unfoldable pub open_with :
      Option String
      → Option (Side × Option F × F × F)
      → State F
      → Journal F Fill
      → W
      → State F × Journal F Fill × W
  open_with (some k) terms s j w = (s, j, w)
  open_with none none s j w = (s, j, w)
  open_with none (some terms) s j w =
      let key = plan_key two_places s.setup terms in
      let (tid, w') = new_id w in
      if is_last j.last_plan_key key then (s, j, w) else (
        record s { trade_id = some tid },
        record {
          last_plan_key = some key;
          lines = j.lines ++ new_trade tid terms.0 ∷ plan_created tid key ∷ [];
        },
        w',
      )

  unfoldable pub open_plan : State F → Journal F Fill → W → State F × Journal F Fill × W
  open_plan s j w = open_with s.trade_id (terms_of s.order) s j w

abbrev pub is_empty : {A : Type 0} → List A → Bool
is_empty [] = true
is_empty (x ∷ xs) = false

abbrev pub over : {F : Type 0} → State F → State F
over s = record s { trade_id = none; pending_trigger_bars = 0 }

module _ {F Fill : Type 0} ⦃fl : Float F⦄ where
  -- What a candle's events do to the open trade.
  unfoldable pub log_events :
      String → Events F Fill → State F → Journal F Fill → State F × Journal F Fill
  log_events tid ev s j =
      if not (is_empty ev.cancels)
      then (over s, record j { lines = j.lines ++ map (λ n. canceled tid n) ev.cancels })
      else (
        if is_empty ev.exits then s else over s,
        record j {
          lines =
              (j.lines ++ map (λ f. filled tid f) ev.fills)
              ++ map (λ x. exited tid x (coach_note x)) ev.exits;
        },
      )

  -- The events are logged where a trade is open.
  unfoldable pub follow :
      Option String → Events F Fill → State F → Journal F Fill → State F × Journal F Fill
  follow none ev s j = (s, j)
  follow (some tid) ev s j = if str_eq tid "" then (s, j) else log_events tid ev s j

module _ {F Fill W : Type 0} ⦃fl : Float F⦄ (two_places : F → String)
    (new_id : W → String × W) where
  -- `run`
  unfoldable pub journal_coach :
      Events F Fill → State F → Journal F Fill → W → State F × Journal F Fill × W
  journal_coach ev s j w =
      let (s', j', w') = open_plan two_places new_id s j w in
      let (s'', j'') = follow s'.trade_id ev s' j' in (s'', j'', w')
