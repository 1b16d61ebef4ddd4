-- ===== src/Options/Tests.antt =====
-- A chain of two puts, and a run of the planner on a spread of them.
use autotrader_ai.Prelude.{ℕ, ◌≡◌, refl, inl, true, false, none, some, List, [], ◌∷◌, ◌++◌, All}
use autotrader_ai.Prelude.Int.{pos, ◌+ℤ◌, ◌-ℤ◌, ◌*ℤ◌, min_ℤ}
use autotrader_ai.Prelude.Text.{Text, text, text_eq, contains, upper, text_lt}
use autotrader_ai.Float.{Fixed, fixed_float, Fixed-IsOrdered}
use autotrader_ai.Domain.{Side, OrderType, OptionRight, PositionEffect, OverlayType, Signal}
use autotrader_ai.Risk.Core.{long_cover_contracts}
use autotrader_ai.Options.Chain.{
  OptionQuote, Wanted, qualifies, distance, key_lt, best_from, select_contract, to_contract,
  select_contract-nearest,
}
use autotrader_ai.Options.Overlays.{registry}
use autotrader_ai.Options.Planner.{
  planned, OverlayLeg, OverlayPlan, Provider, make_client_order_id, spread_invalid,
  validate_structure, plan_contracts, leg_kind, wanted_by, plan_leg, plan_rest, plan_legs,
  opening_stock, exit_rule, plan_overlay, build_overlay_plan,
}
use autotrader_ai.Options.Coverage.{planned_pair_covered}
use autotrader_ai.Fixtures.{amount, aapl, sample_cfg, account_after}

abbrev asof : ℕ
asof = 1000

abbrev put_at : Text → OptionRight → ℕ → ℕ → ℕ → OptionQuote Fixed
put_at u r strike delta premium = record {
  code = text "US.AAPL-" ++ strike ∷ [];
  underlying = u;
  expiry = 1037;
  strike = amount strike;
  right = r;
  delta = fixed_float.neg (fixed_float.lit delta 2);
  premium = amount premium;
}

abbrev chain_of : Text → OptionRight → List (OptionQuote Fixed)
chain_of u r = put_at u r 200 45 5 ∷ put_at u r 190 25 3 ∷ []

abbrev provider : Provider Fixed
provider = record {
  get_quote = λ s. some (amount 205);
  get_option_chain = λ u r lo hi. chain_of u r;
  digest = λ symbol side qty id. symbol ++ id;
}

abbrev wants : Wanted Fixed
wants = record {
  right = OptionRight.put;
  target_delta = fixed_float.lit 30 2;
  dte_min = pos 30;
  dte_max = pos 45;
  pin_expiry = none;
  prefer_longest = false;
}

chain_runs :
    select_contract (chain_of aapl OptionRight.put) wants asof
    ≡ some (put_at aapl OptionRight.put 190 25 3)
unfolding select_contract best_from key_lt distance qualifies text_lt ◌+ℤ◌ ◌-ℤ◌ ◌*ℤ◌
chain_runs = refl

select_contract-nearest_example :
    (qualifies wants asof (put_at aapl OptionRight.put 190 25 3) ≡ true)
    × All
        (λ r.
          qualifies wants asof r ≡ true
          → fixed_float.le
              (distance wants (put_at aapl OptionRight.put 190 25 3))
              (distance wants r)
            ≡ true)
        (chain_of aapl OptionRight.put)
unfolding chain_runs
select_contract-nearest_example =
    select_contract-nearest Fixed-IsOrdered (chain_of aapl OptionRight.put) wants asof
      (put_at aapl OptionRight.put 190 25 3) (refl, (refl, tt)) refl

abbrev spread_signal : Signal Fixed
spread_signal = record {
  symbol = aapl;
  direction = Side.sell;
  confidence = fixed_float.lit 8 1;
  rationale = text "fade";
  stop_price = none;
  overlay = some OverlayType.bear_put_spread;
}

abbrev leg_of : OptionQuote Fixed → Side → Text → OverlayLeg Fixed
leg_of q side i = record {
  request = record {
    symbol = q.code;
    side = side;
    qty = pos 1;
    order_type = OrderType.market;
    limit_price = none;
    client_order_id =
        text "at-" ++ q.code ++ text "s1" ++ text "-" ++ text "BEAR_PUT_SPREAD" ++ text "-" ++ i;
    trail_percent = none;
    option = some (to_contract q);
    position_effect = PositionEffect.opening;
    correlation_id = some (text "ov-" ++ text "s1" ++ text "-" ++ text "BEAR_PUT_SPREAD");
  };
  quote = q;
}

abbrev spread_plan : OverlayPlan Fixed
spread_plan = record {
  overlay = OverlayType.bear_put_spread;
  underlying = aapl;
  legs =
      leg_of (put_at aapl OptionRight.put 200 45 5) Side.buy (text "0")
      ∷ leg_of (put_at aapl OptionRight.put 190 25 3) Side.sell (text "1")
      ∷ [];
  exit = record {
    dte_to_close = pos 7;
    profit_target_pct = some (fixed_float.lit 5 1);
    close_on_reversal = true;
  };
  correlation_id = text "ov-" ++ text "s1" ++ text "-" ++ text "BEAR_PUT_SPREAD";
}

planner_runs :
    build_overlay_plan OverlayType.bear_put_spread spread_signal
      (account_after (pos 0))
      provider
      sample_cfg
      (text "s1")
      asof
    ≡ planned spread_plan
unfolding build_overlay_plan plan_overlay plan_legs plan_rest plan_leg plan_contracts leg_kind
    wanted_by exit_rule opening_stock validate_structure spread_invalid make_client_order_id
    registry chain_runs to_contract contains text_eq upper min_ℤ
planner_runs = refl

planned_pair_covered_example :
    (lo : OverlayLeg Fixed) × (sh : OverlayLeg Fixed) × (spread_plan.legs ≡ lo ∷ sh ∷ [])
    × (lo.request.side ≡ Side.buy)
    × (sh.request.side ≡ Side.sell)
    × (sh.request.option ≡ some (to_contract sh.quote))
    × (sh.request.qty ≡ lo.request.qty)
    × (long_cover_contracts (lo.request ∷ []) (to_contract sh.quote) ≡ sh.request.qty)
planned_pair_covered_example =
    planned_pair_covered Fixed-IsOrdered spread_signal (account_after (pos 0)) provider sample_cfg
      (text "s1") asof OverlayType.bear_put_spread spread_plan (λ u r lo hi. (refl, (refl, tt)))
      (inl refl) planner_runs
