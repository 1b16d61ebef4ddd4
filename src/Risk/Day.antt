-- ===== src/Risk/Day.antt =====
-- The tiered check of the day against the gate of each order.
use autotrader_ai.Prelude.{◌≡◌, ◌≢◌, true, false, Option, none, List, arith}
use autotrader_ai.Float.{Float, IsOrdered, fixed_float}
use autotrader_ai.Domain.{OrderRequest, AccountSnapshot}
use autotrader_ai.Config.{RiskConfig}
use autotrader_ai.Risk.Core.{
  breached, is_reduce_only, evaluate_equity, evaluate, RiskAction, risk_check,
}

module _ {W : Type 0} ⦃f : Float W⦄ (snap : AccountSnapshot W) (cfg : RiskConfig W) where
  -- Where the halt threshold lies at or past the entry limit, any action but OK means that the
  -- entry limit is breached too.
  not_ok-breached :
      (laws : IsOrdered W)
      → f.le (f.neg (f.abs cfg.daily_loss_halt)) (f.neg (f.abs cfg.daily_loss_limit)) ≡ true
      → risk_check snap cfg ≢ RiskAction.ok
      → breached snap.day_pnl cfg.daily_loss_limit ≡ true
  unfolding risk_check breached
  not_ok-breached laws deeper n = ground (
    arith,
    laws.le_trans snap.day_pnl (f.neg (f.abs cfg.daily_loss_halt))
        (f.neg (f.abs cfg.daily_loss_limit)),
  )

  -- Once the check of the day asks for GATE or HALT, the gate of the orders refuses, on the same
  -- snapshot, every order on shares that is not a reduction of a long position, where the halt
  -- threshold lies at or past the entry limit and floats are ordered (`IsOrdered`).
  pub risk_check-gates_orders :
      (laws : IsOrdered W)
      → f.le (f.neg (f.abs cfg.daily_loss_halt)) (f.neg (f.abs cfg.daily_loss_limit)) ≡ true
      → risk_check snap cfg ≢ RiskAction.ok
      → (req : OrderRequest W) (ref : Option W) (legs : List (OrderRequest W)) → req.option ≡ none
      → is_reduce_only req snap ≡ false
      → (evaluate req snap cfg ref legs).approved ≡ false
  unfolding evaluate evaluate_equity
  risk_check-gates_orders laws deeper n req ref legs h r =
      ground (arith, not_ok-breached laws deeper n)
