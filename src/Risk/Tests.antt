-- ===== src/Risk/Tests.antt =====
-- The gate and the check of the day at concrete orders.
use autotrader_ai.Prelude.{◌≡◌, refl, true, false, not, ◌&&◌, some, [], arith, or_default}
use autotrader_ai.Prelude.Int.{pos, negsuc, ◌+ℤ◌, ◌-ℤ◌, ◌*ℤ◌, ◌≤ℤ◌, floordiv_ℕ, leb_ℤ}
use autotrader_ai.Prelude.Text.{text, text_eq, contains, upper}
use autotrader_ai.Float.{fzero, Fixed, fixed_float, Fixed-IsOrdered}
use autotrader_ai.Domain.{
  OptionContract, OrderRequest, Side, PositionEffect, OptionRight, position_qty,
  short_option_contracts, option_right_on, gross_exposure,
}
use autotrader_ai.Fixtures.{
  amount, aapl, msft, sample_cfg, account_after, market_order, contract_on, leg_order,
}
use autotrader_ai.Risk.Core.{
  Reason, refuse, approve, paper, breached, unusable, limit_or, notional, is_reduce_only,
  resulting_qty, evaluate_equity, evaluate_option_leg, evaluate, available_cover,
  long_cover_contracts, leg_cover, risk_check,
}
use autotrader_ai.Risk.Equity.{approved_long_only, approved_buy_capped, exit_never_blocked}
use autotrader_ai.Risk.Options.{approved_short_covered, close_approved_iff}
use autotrader_ai.Risk.Day.{risk_check-gates_orders}

-- All that a run of the gate computes with.
gate_runs :
    evaluate
      (market_order aapl Side.buy (pos 10))
      (account_after (pos 0))
      sample_cfg
      (some (amount 100))
      []
    ≡ approve
unfolding evaluate evaluate_equity evaluate_option_leg limit_or notional is_reduce_only
    resulting_qty breached contains text_eq gross_exposure upper position_qty short_option_contracts
    option_right_on available_cover long_cover_contracts leg_cover ◌+ℤ◌ ◌-ℤ◌ ◌*ℤ◌
gate_runs = refl

loss_blocks_entry :
    evaluate
      (market_order aapl Side.buy (pos 10))
      (account_after (negsuc 599))
      sample_cfg
      (some (amount 100))
      []
    ≡ refuse Reason.daily_loss
unfolding gate_runs
loss_blocks_entry = refl

approved_long_only_example :
    (text "PAPER" ≡ paper)
    × (false ≡ false)
    × (contains (upper aapl) sample_cfg.allowed_symbols ≡ true)
    × (unusable (limit_or (market_order aapl Side.buy (pos 10)) (some (amount 100))) ≡ false)
    × (pos 0 ≤ℤ resulting_qty (market_order aapl Side.buy (pos 10)) (account_after (pos 0)))
    × (resulting_qty (market_order aapl Side.buy (pos 10)) (account_after (pos 0)) ≤ℤ pos 250)
unfolding gate_runs
approved_long_only_example =
    approved_long_only (market_order aapl Side.buy (pos 10)) (account_after (pos 0)) sample_cfg
      (some (amount 100)) [] refl refl

approved_buy_capped_example :
    let req = market_order aapl Side.buy (pos 10) in
    (breached (account_after (pos 0)).day_pnl (amount 500) ≡ false)
    × (fixed_float.is_finite (notional req (or_default (limit_or req (some (amount 100))) fzero))
        ≡ true)
    × (fixed_float.le
          (notional req (or_default (limit_or req (some (amount 100))) fzero))
          (amount 2000)
        ≡ true)
    × (fixed_float.lt (amount 50_000) (
          fixed_float.add
            (gross_exposure (account_after (pos 0)))
            (notional req (or_default (limit_or req (some (amount 100))) fzero)))
        ≡ false)
unfolding gate_runs
approved_buy_capped_example =
    approved_buy_capped (market_order aapl Side.buy (pos 10)) (account_after (pos 0)) sample_cfg
      (some (amount 100)) [] Fixed-IsOrdered refl refl refl refl

exit_never_blocked_example :
    evaluate
      (market_order aapl Side.sell (pos 200))
      (account_after (negsuc 4999))
      sample_cfg
      (some (amount 100))
      []
    ≡ approve
unfolding gate_runs
exit_never_blocked_example =
    exit_never_blocked (market_order aapl Side.sell (pos 200)) (account_after (negsuc 4999))
      sample_cfg (some (amount 100)) [] refl refl refl refl refl refl (omega arith) (omega arith)
      (omega arith)

-- A SELL cannot take a position above the cap down in a step that ends above it.
trim_above_cap_refused :
    evaluate
      (market_order aapl Side.sell (pos 20))
      (account_after (pos 0))
      (record sample_cfg { max_position_qty = pos 100 })
      (some (amount 100))
      []
    ≡ refuse Reason.position_cap
unfolding gate_runs
trim_above_cap_refused = refl

abbrev short_call : OptionContract Fixed
short_call = contract_on aapl OptionRight.call 220 900

abbrev covered : OrderRequest Fixed
covered = leg_order short_call Side.sell PositionEffect.opening (pos 1)

approved_short_covered_example :
    pos 1 +ℤ pos (short_option_contracts (account_after (pos 0)) (upper aapl) OptionRight.call)
    ≤ℤ floordiv_ℕ (position_qty (account_after (pos 0)) (upper aapl)) 100
      +ℤ long_cover_contracts [] short_call
unfolding gate_runs
approved_short_covered_example =
    approved_short_covered short_call covered (account_after (pos 0)) sample_cfg (some (amount 2))
      [] refl refl refl refl

-- A second contract on the same shares would be the third on two lots.
second_lot_refused :
    evaluate
      (leg_order short_call Side.sell PositionEffect.opening (pos 2))
      (account_after (pos 0))
      sample_cfg
      (some (amount 2))
      []
    ≡ refuse Reason.uncovered_short
unfolding gate_runs
second_lot_refused = refl

close_approved_iff_example :
    (evaluate
      (leg_order short_call Side.buy PositionEffect.closing (pos 1))
      (account_after (negsuc 4999))
      sample_cfg
      (some (amount 90))
      []).approved
    ≡ (text_eq sample_cfg.trading_env paper
        && not false
        && contains (upper aapl) sample_cfg.allowed_symbols
        && not (
            unusable (
              limit_or
                (leg_order short_call Side.buy PositionEffect.closing (pos 1))
                (some (amount 90))))
        && leb_ℤ (pos 1) (pos 5))
close_approved_iff_example =
    close_approved_iff short_call (leg_order short_call Side.buy PositionEffect.closing (pos 1))
      (account_after (negsuc 4999)) sample_cfg (some (amount 90)) [] refl refl

risk_check-gates_orders_example :
    (evaluate
      (market_order msft Side.buy (pos 1))
      (account_after (negsuc 599))
      sample_cfg
      (some (amount 100))
      []).approved
    ≡ false
unfolding gate_runs risk_check
risk_check-gates_orders_example =
    risk_check-gates_orders (account_after (negsuc 599)) sample_cfg Fixed-IsOrdered refl (λ e. cc)
      (market_order msft Side.buy (pos 1)) (some (amount 100)) [] refl refl
