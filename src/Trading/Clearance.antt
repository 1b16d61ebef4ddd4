-- ===== src/Trading/Clearance.antt =====
-- A BUY that the sizer sized, at the gate of the orders.
use autotrader_ai.Prelude.{◌≡◌, ◌≢◌, inl, inr, true, Option, none, some, List, arith}
use autotrader_ai.Prelude.Int.{ℤ, pos, ◌+ℤ◌, ◌≤ℤ◌, ◌<ℤ◌, int_laws}
use autotrader_ai.Prelude.Text.{upper}
use autotrader_ai.Float.{Float, fixed_float}
use autotrader_ai.Domain.{Side, OrderRequest, AccountSnapshot, position_qty, gross_exposure}
use autotrader_ai.Config.{RiskConfig}
use autotrader_ai.Risk.Core.{Reason, evaluate, evaluate_equity, resulting_qty}
use autotrader_ai.Trading.Sizing.{SizeResult, size_position, size_position-Fits}

module _ {W : Type 0} ⦃f : Float W⦄ (req : OrderRequest W) (snap : AccountSnapshot W)
    (cfg : RiskConfig W) (ref : Option W) (legs : List (OrderRequest W)) where
  -- An order that leads to a position between zero and the cap is not refused for its position.
  position_accepted :
      req.option ≡ none
      → pos 0 ≤ℤ resulting_qty req snap
      → resulting_qty req snap ≤ℤ cfg.max_position_qty
      → ((evaluate req snap cfg ref legs).reason ≢ Reason.position_cap)
        × ((evaluate req snap cfg ref legs).reason ≢ Reason.long_only)
  unfolding evaluate evaluate_equity
  position_accepted h lo hi = (ground arith, ground arith)

  buy_result :
      (r : SizeResult)
      → req.side ≡ Side.buy
      → req.qty ≡ r.qty
      → resulting_qty req snap ≡ position_qty snap (upper req.symbol) +ℤ r.qty
  unfolding resulting_qty
  buy_result r b e = ground arith

  -- Where the account holds no short position of the symbol, a BUY on shares of the positive quantity
  -- that the sizer derives from risk, for the position that the account holds, is never refused by
  -- the gate for the position that it leads to: the sizer's clamp and the gate's position cap agree.
  pub sized_buy_passes_position_cap :
      (entry_price : W) (signal_stop : Option W) (confidence : W) (fixed_qty : ℤ) (r : SizeResult)
      → let held = position_qty snap (upper req.symbol) in
        size_position snap.total_assets entry_price signal_stop confidence cfg held
            (gross_exposure snap)
            fixed_qty
          ≡ some r
        → r.used_risk_sizing ≡ true
        → pos 0 <ℤ r.qty
        → pos 0 ≤ℤ position_qty snap (upper req.symbol)
        → req.option ≡ none
        → req.side ≡ Side.buy
        → req.qty ≡ r.qty
        → ((evaluate req snap cfg ref legs).reason ≢ Reason.position_cap)
          × ((evaluate req snap cfg ref legs).reason ≢ Reason.long_only)
  sized_buy_passes_position_cap entry stop conf fixed r h u p long o b e =
      let fits =
        size_position-Fits snap.total_assets entry stop conf cfg
          (position_qty snap (upper req.symbol)) (gross_exposure snap) fixed r h u in
      let res = buy_result r b e in
      position_accepted o (rw res (omega int_laws)) (
        rw res (elim fits [
          | inl z ↦ absurd (let q : pos 0 <ℤ pos 0 = rw z at p in omega arith)
          | inr (_, room, _, _) ↦ room
        ]))
