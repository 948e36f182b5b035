-- ===== src/Backtest/Segment.antt =====
-- `run_backtest_on_segment` of backtest/engine.py: a crossover of two moving averages over a sequence of
-- candles. The ids and times of the trades' records are left out.
use btc_laptop_agents.Prelude.{
  ℕ, suc, String, Bool, true, false, not, ◌&&◌, ◌||◌, Option, none, some, List, [], ◌∷◌, ◌++◌,
  Result, ok, err, ◌>>=◌, zero_division, ◌==◌, if◌then◌else◌,
}
use btc_laptop_agents.Float.{Float, nought, ◌+◌, ◌-◌, ◌*◌, ◌/◌, le, ge, gt, truthy, max}
use btc_laptop_agents.Trading.Market.{Candle}
use btc_laptop_agents.Trading.Costs.{calculate_fees, apply_slippage}
use btc_laptop_agents.Trading.Sizing.{Sized, sma, calculate_position_size}

pub record Params (F : Type 0) : Type 0 where
  pub fees_bps : F
  pub slip_bps : F
  pub risk_pct : F
  pub fast_sma : ℕ
  pub slow_sma : ℕ
  pub stop_bps : F
  pub tp_r : F
  pub max_leverage : F
  -- `intrabar_mode == "conservative"`
  pub is_conservative : Bool

pub data ExitReason : Type 0 where
  stop tp reverse_signal : ExitReason

pub record Trade (F : Type 0) : Type 0 where
  pub is_long : Bool
  pub entry : F
  pub exit_px : F
  pub quantity : F
  pub pnl : F
  pub fees : F
  pub entry_ts : String
  pub exit_ts : String
  pub reason : ExitReason

-- The variables of an open position.
pub record Held (F : Type 0) : Type 0 where
  pub is_long : Bool
  pub entry_price : F
  pub entry_ts : String
  pub quantity : F
  pub stop_price : F
  pub tp_price : F

-- The variables of the loop.
pub record Run (F : Type 0) : Type 0 where
  pub realized_equity : F
  pub equity_history : List (String × F)
  pub trades : List (Trade F)
  pub position : Option (Held F)
  pub wins : ℕ
  pub losses : ℕ
  pub total_fees : F
  pub max_equity : F
  pub max_drawdown : F

module _ {F : Type 0} ⦃fl : Float F⦄ where
  abbrev pub started : F → Run F
  started balance = record {
    realized_equity = balance;
    equity_history = [];
    trades = [];
    position = none;
    wins = 0;
    losses = 0;
    total_fees = nought;
    max_equity = balance;
    max_drawdown = nought;
  }

  abbrev pub or_nought : F → F
  or_nought x = if truthy x then x else nought

  -- The fees of entering at `entry`.
  unfoldable pub entry_fee : Params F → F → F → F
  entry_fee p entry qty = calculate_fees (entry * qty) p.fees_bps

  unfoldable pub opened : Params F → Run F → Candle F → Bool → Sized F → Run F
  opened p r candle is_long s =
      let entry = apply_slippage candle.close true is_long p.slip_bps in
      let fees = entry_fee p entry s.qty in
      record r {
        position = some (record {
          is_long = is_long;
          entry_price = entry;
          entry_ts = candle.ts;
          quantity = s.qty;
          stop_price = or_nought s.stop_price;
          tp_price = or_nought s.tp_price;
        });
        realized_equity = r.realized_equity - fees;
        total_fees = r.total_fees + fees;
      }

  -- The size for an entry at the close, on the side of the signal.
  unfoldable pub sized_entry : Params F → Run F → Candle F → Bool → Result (Option (Sized F))
  sized_entry p r candle buys =
      calculate_position_size r.realized_equity candle.close p.risk_pct p.stop_bps p.tp_r
        p.max_leverage buys

  -- With no position: an entry where the size is not None.
  unfoldable pub enter : Params F → Run F → Candle F → Bool → Result (Run F)
  enter p r candle buys = do
    s ← sized_entry p r candle buys
    ok (elim s [ none ↦ r | some x ↦ opened p r candle buys x ])

  -- After a reversal: an entry where the size is neither None nor zero.
  unfoldable pub flip : Params F → Run F → Candle F → Bool → Result (Run F)
  flip p r candle buys = do
    s ← sized_entry p r candle buys
    ok (elim s [ none ↦ r | some x ↦ if truthy x.qty then opened p r candle buys x else r ])

  abbrev pub both_hit : Params F → Held F → F × ExitReason
  both_hit p h = if p.is_conservative then (h.stop_price, stop) else (h.tp_price, tp)

  abbrev pub hit_exit : Params F → Held F → Bool → Bool → Option (F × ExitReason)
  hit_exit p h stop_hit tp_hit =
      if stop_hit && tp_hit
      then some (both_hit p h)
      else if stop_hit
      then some (h.stop_price, stop)
      else if tp_hit
      then some (h.tp_price, tp)
      else none

  unfoldable pub bracket_exit : Params F → Held F → Candle F → Option (F × ExitReason)
  bracket_exit p h candle =
      if h.is_long
      then hit_exit p h (le candle.low h.stop_price) (ge candle.high h.tp_price)
      else hit_exit p h (ge candle.high h.stop_price) (le candle.low h.tp_price)

  -- The trade that closes a position at a price.
  unfoldable pub closing : Params F → Held F → Candle F → F → ExitReason → Trade F
  closing p h candle px reason =
      let left = apply_slippage px false h.is_long p.slip_bps in
      let pnl =
        if h.is_long
        then (left - h.entry_price) * h.quantity
        else (h.entry_price - left) * h.quantity in
      let fees = calculate_fees (left * h.quantity) p.fees_bps in
      record {
        is_long = h.is_long;
        entry = h.entry_price;
        exit_px = left;
        quantity = h.quantity;
        pnl = pnl - fees;
        fees = fees;
        entry_ts = h.entry_ts;
        exit_ts = candle.ts;
        reason = reason;
      }

  unfoldable pub booked : Run F → Trade F → Run F
  booked r t = record r {
    trades = r.trades ++ t ∷ [];
    wins = if ge t.pnl nought then suc r.wins else r.wins;
    losses = if ge t.pnl nought then r.losses else suc r.losses;
    realized_equity = r.realized_equity + t.pnl;
    total_fees = r.total_fees + t.fees;
    position = none;
  }

  -- An open position: its stop or its target, or a crossing against it, which also enters anew.
  unfoldable pub manage : Params F → Run F → Held F → Candle F → Bool → Result (Run F)
  manage p r h candle buys = elim (bracket_exit p h candle) [
    | some x ↦ ok (booked r (closing p h candle x.0 x.1))
    | none ↦
        if (h.is_long && not buys) || (not h.is_long && buys)
        then flip p (booked r (closing p h candle candle.close reverse_signal)) candle buys
        else ok r
  ]

  abbrev pub noted : Run F → Candle F → Run F
  noted r candle = record r {
    equity_history = r.equity_history ++ (candle.ts, r.realized_equity) ∷ [];
  }

  -- The end of a round: the history and the drawdown.
  unfoldable pub measured : Run F → Candle F → Run F
  measured r candle =
      let peak = max r.max_equity r.realized_equity in
      let dd = if gt peak nought then (peak - r.realized_equity) / peak else nought in
      record (noted r candle) { max_equity = peak; max_drawdown = max r.max_drawdown dd }

  unfoldable pub traded : Params F → Run F → Candle F → Bool → Result (Run F)
  traded p r candle buys = elim r.position [
    | none ↦ enter p r candle buys
    | some h ↦ manage p r h candle buys
  ]

  abbrev pub crossing : Option F → Option F → Option Bool
  crossing none _ = none
  crossing (some fast) none = none
  crossing (some fast) (some slow) = some (gt fast slow)

  -- Whether the signal is "BUY"; none while an average is missing. An average of no values raises.
  unfoldable pub signal_of : Params F → List F → Result (Option Bool)
  signal_of p closes =
      if p.fast_sma == 0 || p.slow_sma == 0
      then err zero_division
      else ok (crossing (sma closes p.fast_sma) (sma closes p.slow_sma))

  -- One round, after the given closes, the candle's among them.
  unfoldable pub round : Params F → Run F → List F → Candle F → Result (Run F)
  round p r closes candle = do
    signal ← signal_of p closes
    elim signal [
      | none ↦ ok (noted r candle)
      | some buys ↦ (do r' ← traded p r candle buys; ok (measured r' candle))
    ]

  unfoldable pub rounds : Params F → Run F → List F → List (Candle F) → Result (Run F)
  rounds p r closes [] = ok r
  rounds p r closes (c ∷ cs) = do
    r' ← round p r (closes ++ c.close ∷ []) c
    rounds p r' (closes ++ c.close ∷ []) cs
