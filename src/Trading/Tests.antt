-- ===== src/Trading/Tests.antt =====
-- Runs of the pricing, the sizing and the strategies.
use autotrader_ai.Prelude.{◌≡◌, refl, ◌≢◌, ◌⊎◌, true, none, some, [], arith}
use autotrader_ai.Prelude.Int.{pos, ◌+ℤ◌, ◌-ℤ◌, ◌*ℤ◌, min_ℤ}
use autotrader_ai.Prelude.Text.{text, text_eq, upper}
use autotrader_ai.Float.{Fixed, fixed_float}
use autotrader_ai.Domain.{Side, Signal, position_qty, gross_exposure, option_right_on}
use autotrader_ai.Risk.Core.{Reason, evaluate}
use autotrader_ai.Trading.Pricing.{tick_size, raw_limit, capped_limit_price}
use autotrader_ai.Trading.Sizing.{
  SizeReason, SizeResult, stop_distance, size_factor, risk_qty, size_from_risk, size_position, Fits,
  size_position-Fits,
}
use autotrader_ai.Trading.Clearance.{sized_buy_passes_position_cap}
use autotrader_ai.Trading.Strategies.{StrategyParams}
use autotrader_ai.Fixtures.{amount, aapl, sample_cfg, account_after, market_order}

-- A one-cent tick above one dollar, and a cap of three ticks.
limit_runs :
    capped_limit_price Side.buy (amount 100) (record sample_cfg { order_cap_ticks = amount 3 })
    ≡ some (fixed_float.lit 10_003 2)
unfolding capped_limit_price raw_limit tick_size ◌+ℤ◌ ◌-ℤ◌ ◌*ℤ◌
limit_runs = refl

abbrev sized_20 : SizeResult
sized_20 = record { qty = pos 20; reason = SizeReason.sized; used_risk_sizing = true }

sizing_runs :
    size_position
      (amount 50_000)
      (amount 100)
      (some (amount 95))
      (amount 1)
      sample_cfg
      (pos 200)
      (gross_exposure (account_after (pos 0)))
      (pos 10)
    ≡ some sized_20
unfolding size_position stop_distance size_from_risk risk_qty size_factor gross_exposure
    position_qty upper text_eq option_right_on min_ℤ ◌+ℤ◌ ◌-ℤ◌ ◌*ℤ◌
sizing_runs = refl

size_position-Fits_example :
    (pos 20 ≡ pos 0)
    ⊎ Fits
        (amount 50_000)
        (amount 100)
        (some (amount 95))
        (amount 1)
        sample_cfg
        (pos 200)
        (gross_exposure (account_after (pos 0)))
        (pos 10)
        (pos 20)
size_position-Fits_example =
    size_position-Fits (amount 50_000) (amount 100) (some (amount 95)) (amount 1) sample_cfg
      (pos 200) (gross_exposure (account_after (pos 0))) (pos 10) sized_20 sizing_runs refl

sized_buy_passes_position_cap_example :
    let req = market_order aapl Side.buy (pos 20) in
    ((evaluate req (account_after (pos 0)) sample_cfg (some (amount 100)) []).reason
      ≢ Reason.position_cap)
    × ((evaluate req (account_after (pos 0)) sample_cfg (some (amount 100)) []).reason
        ≢ Reason.long_only)
unfolding sizing_runs
sized_buy_passes_position_cap_example =
    sized_buy_passes_position_cap (market_order aapl Side.buy (pos 20)) (account_after (pos 0))
      sample_cfg (some (amount 100)) [] (amount 100) (some (amount 95)) (amount 1) (pos 10) sized_20
      refl refl (omega arith) (omega arith) refl refl refl

abbrev params : StrategyParams Fixed
params = record {
  symbol = aapl;
  stop_loss_pct = fixed_float.lit 5 2;
  take_profit_pct = fixed_float.lit 10 2;
  confidence = fixed_float.lit 7 1;
}

abbrev entry : Signal Fixed
entry = record {
  symbol = aapl;
  direction = Side.buy;
  confidence = fixed_float.lit 7 1;
  rationale = text "breakout";
  stop_price = none;
  overlay = none;
}
