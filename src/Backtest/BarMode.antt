-- ===== src/Backtest/BarMode.antt =====
-- The reports of backtest/engine.py: the Sharpe ratio, `run_backtest_on_segment` around its loop, and
-- `run_backtest_bar_mode`. Python's statistics and square root are parameters; the files that are
-- written are left out.
use btc_laptop_agents.Prelude.{
  ℕ, suc, ◌+◌ as add, String, Bool, ◌||◌, Option, none, some, List, [], ◌∷◌, ◌++◌, map, Result, ok,
  err, value_error, ◌>>=◌, length, ltb, if◌then◌else◌,
}
use btc_laptop_agents.Float.{Float, nought, lit, ◌+◌, ◌-◌, ◌*◌, ◌/◌, ge, gt, eq, max}
use btc_laptop_agents.Trading.Market.{Candle}
use btc_laptop_agents.Trading.Sequence.{normalize_candle_order}
use btc_laptop_agents.Trading.Sizing.{sma}
use btc_laptop_agents.Trading.OneBar.{BarTrade, simulate_trade_one_bar}
use btc_laptop_agents.Backtest.Segment.{Params, Trade, started, rounds}

-- `statistics.mean`, `statistics.stdev` and `math.sqrt`.
pub record Statistics (F : Type 0) : Type 0 where
  pub mean : List F → F
  pub stdev : List F → F
  pub sqrt : F → F

module _ {F : Type 0} ⦃fl : Float F⦄ where
  -- The returns between consecutive equities, after the given one, where that is positive.
  unfoldable pub returns_after : F → List F → List F
  returns_after prev [] = []
  returns_after prev (curr ∷ rest) =
      let later = returns_after curr rest in
      if gt prev nought then (curr - prev) / prev ∷ later else later

  abbrev pub returns_of : List F → List F
  returns_of [] = []
  returns_of (e ∷ es) = returns_after e es

  unfoldable pub calculate_sharpe_ratio : Statistics F → List F → F
  calculate_sharpe_ratio st equities =
      let returns = returns_of equities in
      let std = st.stdev returns in
      if ltb (length equities) 2 || ltb (length returns) 2
      then nought
      else if eq std nought
      then nought
      else st.mean returns / std * st.sqrt (lit 252 1)

pub record Report (F : Type 0) : Type 0 where
  pub net_pnl : F
  pub max_drawdown : F
  pub sharpe : F
  pub trades : ℕ
  pub wins : ℕ
  pub losses : ℕ
  pub fees_total : F
  pub equity_history : List (String × F)
  pub trades_list : List (Trade F)

-- The variables of the loop of `run_backtest_bar_mode`.
pub record BarRun (F : Type 0) : Type 0 where
  pub equity : F
  pub equity_history : List (String × F)
  pub trades : List (BarTrade F)
  pub wins : ℕ
  pub losses : ℕ
  pub total_fees : F
  pub max_equity : F
  pub max_drawdown : F

abbrev pub larger : ℕ → ℕ → ℕ
larger a b = if ltb a b then b else a

module _ {F : Type 0} ⦃fl : Float F⦄ where
  -- Too few candles give an empty report; its "sharpe" is missing, here 0.
  unfoldable pub run_backtest_on_segment :
      Statistics F → Params F → F → List (Candle F) → Result (Report F)
  run_backtest_on_segment st p starting_balance candles =
      if ltb (length candles) (add (larger p.fast_sma p.slow_sma) 1)
      then ok (record {
        net_pnl = nought;
        max_drawdown = nought;
        sharpe = nought;
        trades = 0;
        wins = 0;
        losses = 0;
        fees_total = nought;
        equity_history = [];
        trades_list = [];
      })
      else (do
        r ← rounds p (started starting_balance) [] (normalize_candle_order candles)
        ok (record {
          net_pnl = r.realized_equity - starting_balance;
          max_drawdown = r.max_drawdown;
          sharpe = calculate_sharpe_ratio st (map (λ x. x.1) r.equity_history);
          trades = length r.trades;
          wins = r.wins;
          losses = r.losses;
          fees_total = r.total_fees;
          equity_history = r.equity_history;
          trades_list = r.trades;
        }))

  abbrev pub bar_start : F → BarRun F
  bar_start balance = record {
    equity = balance;
    equity_history = [];
    trades = [];
    wins = 0;
    losses = 0;
    total_fees = nought;
    max_equity = balance;
    max_drawdown = nought;
  }

  -- One trade from the close of a candle to that of the next.
  unfoldable pub bar_round : F → F → BarRun F → Bool → Candle F → Candle F → BarRun F
  bar_round fees_bps slip_bps r buys from to =
      let t = simulate_trade_one_bar buys from.close to.close r.equity fees_bps slip_bps in
      let equity = r.equity + t.pnl in
      let peak = max r.max_equity equity in
      record {
        equity = equity;
        equity_history = r.equity_history ++ (to.ts, equity) ∷ [];
        trades = r.trades ++ t ∷ [];
        wins = if ge t.pnl nought then suc r.wins else r.wins;
        losses = if ge t.pnl nought then r.losses else suc r.losses;
        total_fees = r.total_fees + t.fees;
        max_equity = peak;
        max_drawdown =
            max r.max_drawdown (if gt peak nought then (peak - equity) / peak else nought);
      }

  abbrev pub bar_step : F → F → BarRun F → Option F → Option F → Candle F → Candle F → BarRun F
  bar_step fees_bps slip_bps r (some fast) (some slow) from to =
      bar_round fees_bps slip_bps r (gt fast slow) from to
  bar_step fees_bps slip_bps r (some fast) none from to = r
  bar_step fees_bps slip_bps r none _ from to = r

  -- The rounds from a candle on, after the given closes, the candle's among them.
  unfoldable pub bar_rounds : F → F → BarRun F → List F → Candle F → List (Candle F) → BarRun F
  bar_rounds fees_bps slip_bps r closes from [] = r
  bar_rounds fees_bps slip_bps r closes from (to ∷ rest) =
      bar_rounds fees_bps slip_bps
        (bar_step fees_bps slip_bps r (sma closes 10) (sma closes 30) from to)
        (closes ++ to.close ∷ []) to rest

  -- Before the thirtieth candle the code makes no round, and here a round has no slow average.
  unfoldable pub run_backtest_bar_mode : F → F → F → List (Candle F) → Result (BarRun F)
  run_backtest_bar_mode starting_balance fees_bps slip_bps candles =
      if ltb (length candles) 31 then err value_error else elim (normalize_candle_order candles) [
        | [] ↦ err value_error
        | c ∷ cs ↦
            ok (bar_rounds fees_bps slip_bps (bar_start starting_balance) (c.close ∷ []) c cs)
      ]
