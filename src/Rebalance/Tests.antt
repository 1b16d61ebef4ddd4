-- ===== src/Rebalance/Tests.antt =====
-- A run of the rebalance: a trim above its target and a top-up below it.
use autotrader_ai.Prelude.{Bool, ◌+◌, ◌≡◌, refl, some, List, [], ◌∷◌, All}
use autotrader_ai.Prelude.Int.{pos, ◌+ℤ◌, ◌-ℤ◌, ◌*ℤ◌, min_ℤ, max_ℤ}
use autotrader_ai.Prelude.Tally.{tally}
use autotrader_ai.Prelude.Text.{Text, text_eq, contains, upper, text_lt}
use autotrader_ai.Float.{Fixed, fixed_float}
use autotrader_ai.Domain.{
  Side, gross_exposure, position_qty, short_option_contracts, option_right_on,
}
use autotrader_ai.Rebalance.{
  RebalancePlan, compute_plan, plan_symbols, plan_symbol, plan_trim, plan_topup, whole_shares,
  covered_shares, record_outcome, target_fractions, positive_scores, sort_keys, insert_sorted,
  set_key, get_key, trim, topup,
}
use autotrader_ai.Rebalance.Trades.{IsSound}
use autotrader_ai.Rebalance.Safety.{SellsFirst, traded_symbols, keys_of, compute_plan-IsSound}
use autotrader_ai.Fixtures.{amount, aapl, msft, sample_cfg, account_after}

abbrev scores : List (Text × Fixed)
scores = (aapl, amount 1) ∷ (msft, amount 3) ∷ []

abbrev prices : List (Text × Fixed)
prices = (aapl, amount 100) ∷ (msft, amount 300) ∷ []

abbrev plan : RebalancePlan
plan = record {
  trades =
      record {
        symbol = aapl;
        side = Side.sell;
        qty = pos 87;
        action = trim;
        new_total_qty = pos 113;
      }
      ∷ record {
        symbol = msft;
        side = Side.buy;
        qty = pos 6;
        action = topup;
        new_total_qty = pos 6;
      }
      ∷ [];
  skipped = [];
}

rebalance_runs : compute_plan (account_after (pos 0)) scores prices sample_cfg ≡ some plan
unfolding compute_plan plan_symbols plan_symbol plan_trim plan_topup whole_shares covered_shares
    record_outcome target_fractions positive_scores sort_keys insert_sorted set_key get_key
    gross_exposure position_qty short_option_contracts option_right_on upper contains text_eq
    text_lt min_ℤ max_ℤ ◌+ℤ◌ ◌-ℤ◌ ◌*ℤ◌
rebalance_runs = refl

abbrev is_aapl : Text → Bool
is_aapl s = text_eq s aapl

compute_plan-IsSound_example :
    All (IsSound (account_after (pos 0)) sample_cfg) plan.trades
    × SellsFirst plan.trades
    × (tally is_aapl (traded_symbols plan.trades) + tally is_aapl (keys_of plan.skipped)
        ≡ tally is_aapl (
            keys_of (
              target_fractions scores sample_cfg.allowed_symbols
                sample_cfg.rebalance_cash_buffer_pct)))
compute_plan-IsSound_example =
    compute_plan-IsSound (account_after (pos 0)) sample_cfg scores prices is_aapl plan
      rebalance_runs
