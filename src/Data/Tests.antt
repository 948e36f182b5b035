-- ===== src/Data/Tests.antt =====
-- The pages on concrete answers.
use btc_laptop_agents.Prelude.{
  ℕ, zero, suc, ◌+◌ as add, String, ◌≡◌, refl, Option, none, List, [], ◌∷◌, Result, ok,
}
use btc_laptop_agents.Float.Fixed.{Fixed, fixed_float}
use btc_laptop_agents.Trading.Market.{Candle}
use btc_laptop_agents.Trading.Sequence.{before}
use btc_laptop_agents.Paper.Sample.{calm}
use btc_laptop_agents.Data.Pages.{page_loop, klines_paged}

abbrev at : String → Candle Fixed
at ts = record calm { ts = ts }

-- An exchange that counts the requests, and answers each with a full page of two, the newest first.
abbrev exchange : ℕ → Option ℕ → ℕ → Result (List (Candle Fixed)) × ℕ
exchange n end_ms zero = (ok (at "5" ∷ at "4" ∷ []), 1)
exchange n end_ms (suc k) = (ok (at "3" ∷ at "2" ∷ []), add k 2)

abbrev end_before : String → ℕ
end_before ts = 0

-- One page is short of three rows, which ends the loop.
one_page : klines_paged exchange end_before 3 none 0 ≡ (ok (at "4" ∷ at "5" ∷ []), 1)
unfolding klines_paged page_loop before
one_page = refl
