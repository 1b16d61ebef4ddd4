-- ===== src/Reporting/Economics.antt =====
-- autotrader/reporting/economics.py and autotrader/reporting/capital_flow.py: the figures of a strategy and
-- of the day.
use autotrader_ai.Prelude.{ℕ, Option, none, some, List, [], ◌∷◌, if◌then◌else◌, null, keep, is_some}
use autotrader_ai.Prelude.Int.{pos}
use autotrader_ai.Prelude.Text.{Text}
use autotrader_ai.Float.{Float, fzero, fone, fixed_float}
use autotrader_ai.Domain.{Side, OptionRight, side_eq}
use autotrader_ai.Reporting.OptionCode.{parse_option_code}
use autotrader_ai.Reporting.Classify.{Leg, is_leg}

pub record StrategyEconomics (W : Type 0) : Type 0 where
  pub net_premium : Option W
  pub floor : Option W
  pub cap : Option W
  pub floor_pct : Option W
  pub cap_pct : Option W
  pub hedge_cost_pct : Option W

pub record CapitalFlow (W : Type 0) : Type 0 where
  pub premium_collected : W
  pub premium_paid : W
  pub net_cash_deployed : W

module _ {W : Type 0} ⦃f : Float W⦄ where
  -- `sum` of the signed premiums, from what is summed so far
  unfoldable pub premium_from : W → List (Leg W) → W
  premium_from sum [] = sum
  premium_from sum (l ∷ ls) = elim l.option [
    | none ↦ premium_from sum ls
    | some o ↦
        let sign = if side_eq l.side Side.sell then fone else f.neg fone in
        premium_from
          (f.add sum (f.mul (f.mul (f.mul sign l.qty) l.price) (f.of_int (pos o.multiplier)))) ls
  ]

  -- `strike` of a leg's option
  unfoldable pub strike_of : Leg W → W
  strike_of l = elim l.option [ none ↦ fzero | some o ↦ o.strike ]

  -- The first leg of the lowest strike.
  unfoldable pub lowest_from : Leg W → List (Leg W) → Leg W
  unfolding strike_of
  lowest_from best [] = best
  lowest_from best (l ∷ ls) =
      lowest_from (if f.lt (strike_of l) (strike_of best) then l else best) ls

  unfoldable pub lowest : List (Leg W) → Option (Leg W)
  unfolding lowest_from
  lowest [] = none
  lowest (l ∷ ls) = some (lowest_from l ls)

  -- `_pct`: none without a strike, and without a basis or at a basis of zero
  unfoldable pub pct : Option W → Option W → Option W
  pct none basis = none
  pct (some strike) none = none
  pct (some strike) (some basis) =
      if f.eq basis fzero
      then none
      else some (f.mul (f.div (f.sub strike basis) basis) (f.lit 100 0))

  unfoldable pub hedge_cost : Option (Leg W) → Option W → Option W
  hedge_cost none basis = none
  hedge_cost (some l) none = none
  hedge_cost (some l) (some basis) =
      if f.eq basis fzero then none else some (f.mul (f.div l.price basis) (f.lit 100 0))

  unfoldable pub compute_economics : List (Leg W) → Option W → StrategyEconomics W
  unfolding premium_from lowest pct hedge_cost
  compute_economics legs basis =
      let floor_put = lowest (keep (is_leg OptionRight.put Side.buy) legs) in
      let cap_call = lowest (keep (is_leg OptionRight.call Side.sell) legs) in
      let strike = λ (o : Option (Leg W)). elim o as (λ _. Option W) [
        | none ↦ none
        | some l ↦ some (strike_of l)
      ] in
      record {
        net_premium =
            if null (keep (λ (l : Leg W). is_some l.option) legs)
            then none
            else some (premium_from fzero legs);
        floor = strike floor_put;
        cap = strike cap_call;
        floor_pct = pct (strike floor_put) basis;
        cap_pct = pct (strike cap_call) basis;
        hedge_cost_pct = hedge_cost floor_put basis;
      }

  -- One fill of the day: symbol, side, quantity and price.
  unfoldable pub add_flow : (Text → Option ℕ) → Text × Side × W × W → CapitalFlow W → CapitalFlow W
  unfolding parse_option_code
  add_flow parse_ymd (symbol, side, qty, price) c =
      elim (parse_option_code {W = W} parse_ymd symbol) [
        | none ↦
            let dollars = f.mul (f.mul qty price) fone in
            record c {
              net_cash_deployed =
                  f.add c.net_cash_deployed
                    (if side_eq side Side.sell then dollars else f.neg dollars);
            }
        | some o ↦
            let dollars = f.mul (f.mul qty price) (f.of_int (pos o.multiplier)) in
            if side_eq side Side.sell
            then record c {
              premium_collected = f.add c.premium_collected dollars;
              net_cash_deployed = f.add c.net_cash_deployed dollars;
            }
            else record c {
              premium_paid = f.add c.premium_paid dollars;
              net_cash_deployed = f.add c.net_cash_deployed (f.neg dollars);
            }
      ]

  unfoldable pub flow_from :
      (Text → Option ℕ) → List (Text × Side × W × W) → CapitalFlow W → CapitalFlow W
  unfolding add_flow
  flow_from parse_ymd [] c = c
  flow_from parse_ymd (x ∷ xs) c = flow_from parse_ymd xs (add_flow parse_ymd x c)

  unfoldable pub compute_capital_flow :
      (Text → Option ℕ) → List (Text × Side × W × W) → CapitalFlow W
  unfolding flow_from
  compute_capital_flow parse_ymd fills =
      flow_from parse_ymd fills
        (record { premium_collected = fzero; premium_paid = fzero; net_cash_deployed = fzero })
