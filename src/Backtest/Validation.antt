-- ===== src/Backtest/Validation.antt =====
-- `run_validation` of backtest/engine.py: walk-forward folds, each of which picks the best parameters on
-- its training window and runs them on the test window after it. The candidates are those of
-- `parse_grid`; the leaderboard and the files that are written are left out.
use btc_laptop_agents.Prelude.{
  ℕ, zero, suc, ◌+◌ as add, ◌*◌ as mul, Option, none, some, List, [], ◌∷◌, Result, ok, err,
  value_error, ◌>>=◌, length, slice, ltb, if◌then◌else◌,
}
use btc_laptop_agents.Float.{Float, lit, ◌-◌, ◌*◌, gt}
use btc_laptop_agents.Trading.Market.{Candle}
use btc_laptop_agents.Trading.Sequence.{normalize_candle_order}
use btc_laptop_agents.Backtest.Segment.{Params}
use btc_laptop_agents.Backtest.BarMode.{Statistics, Report, run_backtest_on_segment}

-- A combination of the grid, and the numbers of splits and candles.
pub record Candidate (F : Type 0) : Type 0 where
  pub fast_sma : ℕ
  pub slow_sma : ℕ
  pub stop_bps : F
  pub tp_r : F

pub record Splits : Type 0 where
  pub count : ℕ
  pub train : ℕ
  pub test : ℕ

pub record Fold (F : Type 0) : Type 0 where
  pub fold_index : ℕ
  pub best_params : Candidate F
  pub test_result : Report F

-- The best objective so far, and the candidate that has it.
pub record Best (F : Type 0) : Type 0 where
  pub objective : F
  pub params : Option (Candidate F)

-- The candles from which fold `k` trains, and those on which it is tested.
module _ {A : Type 0} where
  unfoldable pub train_window : Splits → ℕ → List A → List A
  train_window s k xs = slice (mul k s.test) s.train xs

  unfoldable pub test_window : Splits → ℕ → List A → List A
  test_window s k xs = slice (add (mul k s.test) s.train) s.test xs

module _ {F : Type 0} ⦃fl : Float F⦄ where
  -- The parameters of a run with a candidate's values.
  abbrev pub with_candidate : Params F → Candidate F → Params F
  with_candidate p c = record p {
    fast_sma = c.fast_sma;
    slow_sma = c.slow_sma;
    stop_bps = c.stop_bps;
    tp_r = c.tp_r;
  }

  unfoldable pub objective_of : F → Report F → F
  objective_of balance r = r.net_pnl - lit 5 10 * r.max_drawdown * balance

  -- The objective of a candidate on its training window; none where the run raises.
  unfoldable pub evaluate : Statistics F → Params F → F → List (Candle F) → Candidate F → Option F
  evaluate st p balance candles c =
      elim (run_backtest_on_segment st (with_candidate p c) balance candles) [
        | ok r ↦ some (objective_of balance r)
        | err e ↦ none
      ]

  unfoldable pub improved : Best F → Candidate F → Option F → Best F
  improved best c none = best
  improved best c (some obj) =
      if gt obj best.objective then record { objective = obj; params = some c } else best

  -- `score` is the evaluation.
  unfoldable pub search_best : (Candidate F → Option F) → Best F → List (Candidate F) → Best F
  search_best score best [] = best
  search_best score best (c ∷ cs) = search_best score (improved best c (score c)) cs

  -- The first candidate stands in where none is better than the start.
  abbrev pub chosen : Candidate F → Best F → Candidate F
  chosen first best = elim best.params [ none ↦ first | some c ↦ c ]

  -- Fold `k`, for a non-empty grid; `start` is minus infinity.
  unfoldable pub fold_of :
      Statistics F
      → Params F
      → F
      → F
      → Splits
      → List (Candle F)
      → Candidate F
      → List (Candidate F)
      → ℕ
      → Result (Fold F)
  fold_of st p balance start s candles first grid k = do
    let score = evaluate st p balance (train_window s k candles)
    let best = search_best score (record { objective = start; params = none }) (first ∷ grid)
    let params = chosen first best
    r ← run_backtest_on_segment st (with_candidate p params) balance (test_window s k candles)
    ok (record { fold_index = k; best_params = params; test_result = r })

  -- The folds from `k` on, of which so many are left; a test window past the end breaks off.
  unfoldable pub folds_from : (ℕ → Result (Fold F)) → Splits → ℕ → ℕ → ℕ → Result (List (Fold F))
  folds_from fold s total zero k = ok []
  folds_from fold s total (suc left) k =
      let rest = folds_from fold s total left (suc k) in
      if ltb total (add (add (mul k s.test) s.train) s.test)
      then ok []
      else (do x ← fold k; xs ← rest; ok (x ∷ xs))

  -- The folds and the total of their profits; an empty grid is a ValueError of `parse_grid`.
  unfoldable pub run_validation :
      Statistics F
      → Params F
      → F
      → F
      → Splits
      → List (Candle F)
      → List (Candidate F)
      → Result (List (Fold F))
  run_validation st p balance start s candles [] = err value_error
  run_validation st p balance start s candles (first ∷ grid) =
      let sorted = normalize_candle_order candles in
      if ltb (length sorted) (add s.train (mul s.count s.test))
      then err value_error
      else folds_from (fold_of st p balance start s sorted first grid) s (length sorted) s.count 0
