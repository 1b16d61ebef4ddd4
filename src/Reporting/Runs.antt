-- ===== src/Reporting/Runs.antt =====
-- The legs of a protective put, and their labels and figures.
use autotrader_ai.Prelude.{◌≡◌, refl, true, false, none, some, List, [], ◌∷◌, null, keep}
use autotrader_ai.Prelude.Int.{◌+ℤ◌, ◌-ℤ◌, ◌*ℤ◌}
use autotrader_ai.Prelude.Text.{text}
use autotrader_ai.Float.{Fixed, fixed_float}
use autotrader_ai.Domain.{Side, OptionRight, OverlayType}
use autotrader_ai.Reporting.OptionCode.{ParsedOption, parse_option_code}
use autotrader_ai.Reporting.Classify.{
  Leg, protective_put, is_stock, bought, classify_strategy, overlay_intent_mismatch,
}
use autotrader_ai.Reporting.Economics.{compute_economics}
use autotrader_ai.Reporting.Proven.{shown_hedge_held}
use autotrader_ai.Fixtures.{amount, aapl}

abbrev put_190 : ParsedOption Fixed
put_190 = record {
  underlying = aapl;
  expiry = 1037;
  strike = amount 190;
  right = OptionRight.put;
  multiplier = 100;
}

code_runs : parse_option_code (λ ymd. some 1037) (text "US.AAPL260918P190000") ≡ some put_190
unfolding parse_option_code ◌+ℤ◌ ◌-ℤ◌ ◌*ℤ◌
code_runs = refl

abbrev hedged : List (Leg Fixed)
hedged =
    record { side = Side.buy; qty = amount 100; price = amount 200; option = none }
    ∷ record { side = Side.buy; qty = amount 1; price = amount 3; option = some put_190 }
    ∷ []

label_runs : classify_strategy hedged ≡ protective_put
unfolding classify_strategy
label_runs = refl

economics_run : compute_economics hedged (some (amount 200)) ≡ record {
  net_premium = some (fixed_float.neg (amount 300));
  floor = some (amount 190);
  cap = none;
  floor_pct = some (fixed_float.neg (amount 5));
  cap_pct = none;
  hedge_cost_pct = some (fixed_float.lit 15 1);
}
unfolding compute_economics ◌+ℤ◌ ◌-ℤ◌ ◌*ℤ◌
economics_run = refl

shown_hedge_held_example :
    (null (keep is_stock hedged) ≡ false) × (bought OptionRight.put hedged ≡ true)
unfolding label_runs overlay_intent_mismatch
shown_hedge_held_example = shown_hedge_held OverlayType.protective_put hedged refl
