-- ===== src/Paper/Sample.antt =====
-- Concrete inputs for the tests of the paper broker: a host whose clock stands still and whose
-- generator always draws the lower end, a broker, and some orders, candles and ticks.
use btc_laptop_agents.Prelude.{
  ℕ, ◌*◌, String, true, false, Option, none, some, List, [], ◌∷◌, if◌then◌else◌, str_eq,
}
use btc_laptop_agents.Prelude.Int.{pos}
use btc_laptop_agents.Float.Fixed.{Fixed, fixed_float}
use btc_laptop_agents.Host.{Host, IsSteady}
use btc_laptop_agents.Trading.Market.{Candle, Tick}
use btc_laptop_agents.Paper.Types.{FillEvent, Order, Position, long, limit}
use btc_laptop_agents.Paper.Broker.{Broker}
use mathlib.Core.Path.{refl}

-- A price or an amount in ten-thousandths, of whole units.
abbrev pub units : ℕ → Fixed
units n = pos (n * 10_000)

pub record World : Type 0 where
  pub clock : Fixed
  pub cache : List (String × FillEvent Fixed)

abbrev pub find : String → List (String × FillEvent Fixed) → Option (FillEvent Fixed)
find k [] = none
find k ((j, e) ∷ es) = if str_eq k j then some e else find k es

instance abbrev pub still_host : Host Fixed World (FillEvent Fixed)
still_host = record {
  time = λ w. w.clock;
  iso_now = λ w. "2026-01-01T00:00:00+00:00";
  uniform = λ a b w. (a, w);
  randint = λ a b w. (a, w);
  uuid_hex = λ w. ("0123456789abcdef0123456789abcdef", w);
  cache_get = λ k w. find k w.cache;
  cache_set = λ k e w. record w { cache = (k, e) ∷ w.cache };
}

pub still_host-IsSteady : IsSteady still_host
still_host-IsSteady = record {
  uniform_time = λ a b w. refl;
  randint_time = λ a b w. refl;
  uuid_time = λ w. refl;
  cache_time = λ k v w. refl;
}

abbrev pub start_equity : Fixed
start_equity = units 10_000

-- A linear broker without slippage and fees, whose last trade was long ago.
abbrev pub broker : Broker Fixed World
broker = record {
  symbol = "BTCUSDT";
  is_inverse = false;
  config = record { max_bars_open = 2; trailing_atr_mult = pos 15_000 };
  limits = record {
    max_position_size_usd = units 200_000;
    max_daily_loss_usd = units 50;
    max_leverage = units 1;
  };
  slip_bps = pos 0;
  maker_fee = pos 2;
  taker_fee = pos 6;
  min_trade_interval_sec = units 60;
  last_trade_time = pos 0;
  starting_equity = start_equity;
  current_equity = start_equity;
  symbol_cap = none;
  pos = none;
  processed_order_ids = [];
  order_timestamps = [];
  order_history = [];
  working_orders = [];
  persistent = true;
  saved = none;
  world = record { clock = units 100_000; cache = [] };
}

-- A limit order for one coin at 100, with the stop at 90 and the target at 120.
abbrev pub buy : Order Fixed
buy = record {
  go = true;
  client_order_id = some "a1";
  side = long;
  entry_type = limit;
  entry = units 100;
  qty = units 1;
  sl = units 90;
  tp = units 120;
  equity = none;
  created_at = some (units 100_000);
}

abbrev pub bar : ℕ → ℕ → ℕ → ℕ → ℕ → Candle Fixed
bar o h l c v = record {
  ts = "1700000000";
  open_px = units o;
  high = units h;
  low = units l;
  close = units c;
  volume = units v;
}

abbrev pub calm : Candle Fixed
calm = bar 100 101 99 100 50

abbrev pub trickle : Candle Fixed
trickle = bar 100 101 99 100 2

abbrev pub crash : Candle Fixed
crash = bar 85 125 80 85 50

abbrev pub low_tick : Tick Fixed
low_tick = record {
  symbol = "BTCUSDT";
  bid = units 89;
  ask = units 91;
  last = units 90;
  ts = "1700000060";
}

-- The position that `buy` opens in `calm`.
abbrev pub held : Position Fixed
held = record {
  side = long;
  qty = units 1;
  sl = units 90;
  tp = units 120;
  opened_at = "1700000000";
  lots = record { qty = units 1; price = units 100; fees = pos 200 } ∷ [];
  trade_id = "a1";
  bars_open = 0;
  trail_active = false;
  trail_stop = pos 0;
}

abbrev pub holding : Broker Fixed World
holding = record broker { pos = some held }
