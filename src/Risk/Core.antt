-- ===== src/Risk/Core.antt =====
-- autotrader/risk_core.py: the gate that every order passes, and autotrader/risk_check.py: the tiered
-- check of the day. A reason names the message of the source, without the figures that it quotes.
use autotrader_ai.Prelude.{
  Bool, true, false, not, ◌&&◌, ◌||◌, Option, none, some, List, foldl, leb, if◌then◌else◌,
  or_default,
}
use autotrader_ai.Prelude.Int.{ℤ, pos, ◌+ℤ◌, ◌-ℤ◌, neg_ℤ, abs_ℤ, floordiv_ℕ, ltb_ℤ, leb_ℤ}
use autotrader_ai.Prelude.Text.{Text, text, text_eq, contains, upper}
use autotrader_ai.Float.{Float, fzero, truthy, fixed_float}
use autotrader_ai.Domain.{
  Side, OptionRight, right_eq, is_limit, is_opening, OptionContract, OrderRequest, AccountSnapshot,
  position_qty, short_option_contracts, gross_exposure,
}
use autotrader_ai.Config.{RiskConfig}

pub data Reason : Type 0 where
  ok env_routing stale_snapshot daily_loss not_allowed no_price : Reason
  notional_cap long_only position_cap exposure_cap : Reason
  contract_cap uncovered_short premium_budget premium_ceiling : Reason

pub record RiskDecision : Type 0 where
  pub approved : Bool
  pub reason : Reason

abbrev pub approve : RiskDecision
approve = record { approved = true; reason = ok }

abbrev pub refuse : Reason → RiskDecision
refuse r = record { approved = false; reason = r }

abbrev pub paper : Text
paper = text "PAPER"

abbrev pub is_buy : Side → Bool
is_buy Side.buy = true
is_buy Side.sell = false

abbrev pub is_call : OptionRight → Bool
is_call OptionRight.call = true
is_call OptionRight.put = false

module _ {W : Type 0} ⦃f : Float W⦄ where
  -- `req.limit_price if req.order_type == "LIMIT" and req.limit_price else other`
  unfoldable pub limit_or : OrderRequest W → Option W → Option W
  limit_or req other =
      if is_limit req.order_type && truthy req.limit_price then req.limit_price else other

  -- `x is None or not math.isfinite(x) or x <= 0`
  abbrev pub unusable : Option W → Bool
  unusable none = true
  unusable (some x) = not (f.is_finite x) || f.le x fzero

  unfoldable pub notional : OrderRequest W → W → W
  notional req ref_price =
      f.mul (f.of_int (abs_ℤ req.qty)) (or_default (limit_or req (some ref_price)) ref_price)

  -- The contracts of one leg that count as cover for a short leg of `opt`.
  unfoldable pub leg_cover : OptionContract W → OrderRequest W → ℤ
  unfolding text_eq upper
  leg_cover opt c = elim c.option [
    | none ↦ pos 0
    | some co ↦
        if is_buy c.side
          && is_opening c.position_effect
          && text_eq (upper co.underlying) (upper opt.underlying)
          && right_eq co.right opt.right
          && (if is_call opt.right then f.le co.strike opt.strike else f.le opt.strike co.strike)
          && leb opt.expiry co.expiry
        then c.qty
        else pos 0
  ]

  unfoldable pub long_cover_contracts : List (OrderRequest W) → OptionContract W → ℤ
  long_cover_contracts legs opt = foldl (λ total c. total +ℤ leg_cover opt c) (pos 0) legs

  -- The contracts that shares and long legs cover, less those already short.
  unfoldable pub available_cover :
      OrderRequest W → OptionContract W → AccountSnapshot W → List (OrderRequest W) → ℤ
  available_cover req opt snapshot legs =
      let underlying = upper opt.underlying in
      let existing_short = short_option_contracts snapshot underlying opt.right in
      let share_cover : ℤ =
        if is_call opt.right
        then floordiv_ℕ (position_qty snapshot underlying) opt.multiplier
        else pos 0 in
      share_cover +ℤ long_cover_contracts legs opt -ℤ pos existing_short

  -- `day_pnl <= -abs(limit)`
  unfoldable pub breached : W → W → Bool
  breached day_pnl loss = f.le day_pnl (f.neg (f.abs loss))

  abbrev over_ceiling : RiskConfig W → W → Bool
  over_ceiling cfg gross =
      f.lt fzero cfg.max_option_premium_per_trade && f.lt cfg.max_option_premium_per_trade gross

  -- `_evaluate_option_leg`, for the option `opt` of the request
  unfoldable pub evaluate_option_leg :
      OptionContract W
      → OrderRequest W
      → AccountSnapshot W
      → RiskConfig W
      → Option W
      → List (OrderRequest W)
      → RiskDecision
  evaluate_option_leg opt req snapshot cfg ref_price coverage_legs =
      let premium = limit_or req ref_price in
      let budget = f.mul snapshot.total_assets cfg.option_max_risk_pct in
      let gross =
        f.mul (f.mul (f.of_int req.qty) (or_default premium fzero))
          (f.of_int (pos opt.multiplier)) in
      let loss =
        if is_opening req.position_effect && breached snapshot.day_pnl cfg.daily_loss_limit
        then refuse daily_loss
        else approve in
      if not (contains (upper opt.underlying) cfg.allowed_symbols)
      then refuse not_allowed
      else if unusable premium
      then refuse no_price
      else if ltb_ℤ cfg.max_option_contracts req.qty
      then refuse contract_cap
      else if not (is_opening req.position_effect)
      then approve
      else if is_buy req.side
      then (if not (f.is_finite gross) || f.lt budget gross
          then refuse premium_budget
          else if over_ceiling cfg gross
          then refuse premium_ceiling
          else loss)
      else (if ltb_ℤ (available_cover req opt snapshot coverage_legs) req.qty
          then refuse uncovered_short
          else if f.lt budget (f.mul (f.lit 2 0) gross)
          then refuse premium_budget
          else if over_ceiling cfg gross
          then refuse premium_ceiling
          else loss)

  -- The position that the order leads to.
  unfoldable pub resulting_qty : OrderRequest W → AccountSnapshot W → ℤ
  resulting_qty req snapshot =
      position_qty snapshot (upper req.symbol)
      +ℤ (if is_buy req.side then req.qty else neg_ℤ req.qty)

  -- A SELL that strictly lowers a long position and does not cross zero.
  unfoldable pub is_reduce_only : OrderRequest W → AccountSnapshot W → Bool
  is_reduce_only req snapshot =
      not (is_buy req.side)
      && leb_ℤ (pos 0) (resulting_qty req snapshot)
      && ltb_ℤ (resulting_qty req snapshot) (position_qty snapshot (upper req.symbol))

  -- Checks 3 to 8 of `evaluate`, for an order on shares.
  unfoldable pub evaluate_equity :
      OrderRequest W → AccountSnapshot W → RiskConfig W → Option W → RiskDecision
  evaluate_equity req snapshot cfg ref_price =
      let sym = upper req.symbol in
      let resulting = resulting_qty req snapshot in
      let exempt = is_reduce_only req snapshot in
      let eff_price = limit_or req ref_price in
      let amount = notional req (or_default eff_price fzero) in
      let projected = f.add (gross_exposure snapshot) amount in
      if not exempt && breached snapshot.day_pnl cfg.daily_loss_limit
      then refuse daily_loss
      else if not (contains sym cfg.allowed_symbols)
      then refuse not_allowed
      else if unusable eff_price
      then refuse no_price
      else if not exempt && (not (f.is_finite amount) || f.lt cfg.max_order_notional amount)
      then refuse notional_cap
      else if ltb_ℤ resulting (pos 0)
      then refuse long_only
      else if ltb_ℤ cfg.max_position_qty (abs_ℤ resulting)
      then refuse position_cap
      else if not exempt && f.lt cfg.max_gross_exposure projected
      then refuse exposure_cap
      else approve

  unfoldable pub evaluate :
      OrderRequest W
      → AccountSnapshot W
      → RiskConfig W
      → Option W
      → List (OrderRequest W)
      → RiskDecision
  evaluate req snapshot cfg ref_price coverage_legs =
      if not (text_eq cfg.trading_env paper)
      then refuse env_routing
      else if snapshot.stale
      then refuse stale_snapshot
      else elim req.option [
        | some opt ↦ evaluate_option_leg opt req snapshot cfg ref_price coverage_legs
        | none ↦ evaluate_equity req snapshot cfg ref_price
      ]

-- risk_check.py
pub data RiskAction : Type 0 where
  ok gate halt : RiskAction

module _ {W : Type 0} ⦃f : Float W⦄ where
  unfoldable pub risk_check : AccountSnapshot W → RiskConfig W → RiskAction
  risk_check snapshot cfg =
      if breached snapshot.day_pnl cfg.daily_loss_halt
      then RiskAction.halt
      else if breached snapshot.day_pnl cfg.daily_loss_limit
      then RiskAction.gate
      else RiskAction.ok
