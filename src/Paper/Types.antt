-- ===== src/Paper/Types.antt =====
-- paper/broker_types.py, and the dictionaries that the paper broker passes around: orders, events
-- and the persisted state.
use btc_laptop_agents.Prelude.{
  ℕ, String, Bool, true, false, Option, List, [], ◌∷◌, map, if◌then◌else◌, str_eq,
}
use btc_laptop_agents.Float.{Float, nought, ◌*◌, ◌/◌, eq, sum}

-- The strings "LONG" and "SHORT", and any other.
pub data Side : Type 0 where
  long short : Side
  other : String → Side

abbrev pub is_long : Side → Bool
is_long long = true
is_long _ = false

abbrev pub is_short : Side → Bool
is_short short = true
is_short _ = false

-- `a == b`, on sides.
abbrev pub same_side : Side → Side → Bool
same_side long long = true
same_side short short = true
same_side (other a) (other b) = str_eq a b
same_side _ _ = false

pub data EntryType : Type 0 where
  market limit other_type : EntryType

abbrev pub is_market : EntryType → Bool
is_market market = true
is_market _ = false

abbrev pub is_limit : EntryType → Bool
is_limit limit = true
is_limit _ = false

pub data Reason : Type 0 where
  sl_conservative sl_stop tp_target trail stale_exit sl_tick tp_tick trail_tick force_close : Reason

pub record Lot (F : Type 0) : Type 0 where
  pub qty : F
  pub price : F
  pub fees : F

pub record Position (F : Type 0) : Type 0 where
  pub side : Side
  pub qty : F
  pub sl : F
  pub tp : F
  pub opened_at : String
  pub lots : List (Lot F)
  pub trade_id : String
  pub bars_open : ℕ
  pub trail_active : Bool
  pub trail_stop : F

-- The keys that the code reads of an order; those it reads by `get` are optional.
pub record Order (F : Type 0) : Type 0 where
  pub go : Bool
  pub client_order_id : Option String
  pub side : Side
  pub entry_type : EntryType
  pub entry : F
  pub qty : F
  pub sl : F
  pub tp : F
  pub equity : Option F
  pub created_at : Option F

pub record FillEvent (F : Type 0) : Type 0 where
  pub trade_id : String
  pub side : Side
  pub price : F
  pub qty : F
  pub sl : F
  pub tp : F
  pub at : String
  pub fees : F
  -- `requested_qty`, where the fill is partial
  pub requested_qty : Option F

pub record CloseEvent (F : Type 0) : Type 0 where
  -- "exit" where true, else "partial_exit"
  pub full : Bool
  pub trade_id : String
  pub side : Side
  pub price : F
  pub qty : F
  pub pnl : F
  pub fees : F
  pub at : String

pub record ExitEvent (F : Type 0) : Type 0 where
  pub trade_id : String
  pub reason : Reason
  pub entry : F
  pub price : F
  pub qty : F
  pub pnl : F
  pub at : String
  pub fees : F
  pub r : F
  pub side : Side
  pub bars_open : ℕ

-- What `_try_fill` returns: a fill, or the close event of an opposite order.
pub data Fill (F : Type 0) : Type 0 where
  filled : FillEvent F → Fill F
  closed : CloseEvent F → Fill F

-- An entry of `order_history`.
pub data Record (F : Type 0) : Type 0 where
  close_record : CloseEvent F → Record F
  exit_record : ExitEvent F → Record F

module _ {F : Type 0} ⦃fl : Float F⦄ where
  -- `Position.entry`: the average entry price of all lots.
  unfoldable pub entry_price : Position F → F
  entry_price p = elim p.lots [
    | [] ↦ nought
    | _ ∷ _ ↦
        let total_qty = sum (map (λ l. l.qty) p.lots) in
        if eq total_qty nought then nought else sum (map (λ l. l.qty * l.price) p.lots) / total_qty
  ]

  -- `Position.entry_fees`
  unfoldable pub entry_fees : Position F → F
  entry_fees p = sum (map (λ l. l.fees) p.lots)
