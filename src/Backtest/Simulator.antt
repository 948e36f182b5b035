-- ===== src/Backtest/Simulator.antt =====
-- backtest/fill_simulator.py. The simulator's own generator is the host's.
use btc_laptop_agents.Prelude.{Bool, true, if◌then◌else◌, ◌&&◌}
use btc_laptop_agents.Float.{Float, lit, one, ◌+◌, ◌-◌, ◌*◌, ◌/◌, le}
use btc_laptop_agents.Host.{Host}
use btc_laptop_agents.Trading.Market.{Candle}
use btc_laptop_agents.Paper.Types.{Order, FillEvent, is_market}

pub data SlippageModel : Type 0 where
  fixed_bps random other_model : SlippageModel

pub record FillSimulator (F : Type 0) : Type 0 where
  pub slippage_model : SlippageModel
  pub slippage_bps : F

module _ {F : Type 0} ⦃fl : Float F⦄ where
  -- The price moved against the side by the given basis points.
  unfoldable pub slipped : F → Bool → Bool → F → F
  slipped price is_long is_entry factor =
      let rate = factor / lit 10_000 1 in
      if is_long
      then (if is_entry then price * (one + rate) else price * (one - rate))
      else if is_entry
      then price * (one - rate)
      else price * (one + rate)

  unfoldable pub should_fill : Order F → Candle F → Bool
  should_fill o candle =
      if is_market o.entry_type then true else le candle.low o.entry && le o.entry candle.high

module _ {F W : Type 0} ⦃fl : Float F⦄ ⦃host : Host F W (FillEvent F)⦄ where
  unfoldable pub simulate_slippage : FillSimulator F → F → Bool → Bool → W → F × W
  simulate_slippage s price is_long is_entry w = elim s.slippage_model [
    | random ↦
        let (draw, w') = host.uniform (lit 5 10) (lit 15 10) w in
        (slipped price is_long is_entry (s.slippage_bps * draw), w')
    | _ ↦ (slipped price is_long is_entry s.slippage_bps, w)
  ]
