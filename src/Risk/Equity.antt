-- ===== src/Risk/Equity.antt =====
-- What the approval of an order on shares promises, and what it does not ask for.
use autotrader_ai.Prelude.{◌≡◌, true, false, Option, none, List, arith, or_default}
use autotrader_ai.Prelude.Int.{pos, ◌≤ℤ◌, ◌<ℤ◌}
use autotrader_ai.Prelude.Text.{text_eq, contains, upper, eq_of_text_eq, text_eq_iff}
use autotrader_ai.Float.{Float, IsOrdered, fzero, fixed_float}
use autotrader_ai.Domain.{Side, OrderRequest, AccountSnapshot, position_qty, gross_exposure}
use autotrader_ai.Config.{RiskConfig}
use autotrader_ai.Risk.Core.{
  approve, paper, unusable, limit_or, notional, breached, is_reduce_only, resulting_qty,
  evaluate_equity, evaluate,
}

module _ {W : Type 0} ⦃f : Float W⦄ (req : OrderRequest W) (snap : AccountSnapshot W)
    (cfg : RiskConfig W) (ref : Option W) (legs : List (OrderRequest W)) where
  -- On shares the gate is its two universal guards and the checks of `evaluate_equity`.
  evaluate_shares :
      req.option ≡ none
      → (evaluate req snap cfg ref legs).approved ≡ true
      → (text_eq cfg.trading_env paper ≡ true)
        × (snap.stale ≡ false)
        × ((evaluate_equity req snap cfg ref).approved ≡ true)
  unfolding evaluate
  evaluate_shares = ground arith

  -- An order on shares that the gate approves is for a paper account and a fresh snapshot, in an
  -- allowed symbol, with a usable price, and leads to a position from 0 up to the position cap.
  -- So no approved order opens a short position in shares.
  pub approved_long_only :
      req.option ≡ none
      → (evaluate req snap cfg ref legs).approved ≡ true
      → (cfg.trading_env ≡ paper)
        × (snap.stale ≡ false)
        × (contains (upper req.symbol) cfg.allowed_symbols ≡ true)
        × (unusable (limit_or req ref) ≡ false)
        × (pos 0 ≤ℤ resulting_qty req snap)
        × (resulting_qty req snap ≤ℤ cfg.max_position_qty)
  unfolding evaluate_equity
  approved_long_only h a =
      let (e, s, r) = evaluate_shares h a in
      (eq_of_text_eq _ _ e, s, ground arith, ground arith, ground arith, ground arith)

  buy_not_exempt : req.side ≡ Side.buy → is_reduce_only req snap ≡ false
  unfolding is_reduce_only
  buy_not_exempt = ground arith

  -- The price that an order on shares is sized at, and its amount.
  abbrev pub amount_of : W
  amount_of = notional req (or_default (limit_or req ref) fzero)

  -- A BUY of shares that the gate approves meets every cap that limits new risk: the day's loss is
  -- within its limit, its amount is finite and within the order cap, and the gross exposure after it
  -- is not above the exposure cap. The order cap is a number, and floats are ordered (`IsOrdered`).
  pub approved_buy_capped :
      (laws : IsOrdered W)
      → f.le cfg.max_order_notional cfg.max_order_notional ≡ true
      → req.option ≡ none
      → req.side ≡ Side.buy
      → (evaluate req snap cfg ref legs).approved ≡ true
      → (breached snap.day_pnl cfg.daily_loss_limit ≡ false)
        × (f.is_finite amount_of ≡ true)
        × (f.le amount_of cfg.max_order_notional ≡ true)
        × (f.lt cfg.max_gross_exposure (f.add (gross_exposure snap) amount_of) ≡ false)
  unfolding evaluate_equity
  approved_buy_capped laws num h b a =
      let (e, s, r) = evaluate_shares h a in
      let new = buy_not_exempt b in
      ground
        (arith, laws.finite_num amount_of, laws.lt-eq-not-le cfg.max_order_notional amount_of num)

  -- A SELL of shares that lowers a long position without crossing zero, in an allowed symbol at a
  -- usable price, is approved on a paper account with a fresh snapshot whatever the day's loss,
  -- the amount of the order and the gross exposure, if what is left fits the position cap.
  pub exit_never_blocked :
      req.option ≡ none
      → cfg.trading_env ≡ paper
      → snap.stale ≡ false
      → contains (upper req.symbol) cfg.allowed_symbols ≡ true
      → unusable (limit_or req ref) ≡ false
      → req.side ≡ Side.sell
      → pos 0 ≤ℤ resulting_qty req snap
      → resulting_qty req snap <ℤ position_qty snap (upper req.symbol)
      → resulting_qty req snap ≤ℤ cfg.max_position_qty
      → evaluate req snap cfg ref legs ≡ approve
  unfolding evaluate evaluate_equity is_reduce_only
  exit_never_blocked h e s c u d lo down cap = ground (arith, text_eq_iff cfg.trading_env paper)
