-- ===== src/Engine/Escalation.antt =====
-- autotrader/main.py, `TradeEngine._submit_with_escalation`: a limit order that rests is cancelled and
-- priced anew once, and cancelled and replaced by a market order after that.
use autotrader_ai.Prelude.{Bool, false, not, Option, none, some, ◌++◌, if◌then◌else◌, or_default}
use autotrader_ai.Prelude.Text.{Text, text}
use autotrader_ai.Float.{Float, truthy, fixed_float}
use autotrader_ai.Engine.World.{Fault, Action, ◌>>=◌, ◌>>◌, pure, ask, tell, from_option}
use autotrader_ai.Engine.Router.{submit}
use autotrader_ai.Domain.{Side, OrderType, is_limit, OrderRequest, OrderAck, AccountSnapshot}
use autotrader_ai.Trading.Pricing.{capped_limit_price}
use autotrader_ai.Engine.Setup.{
  Setup, get_quote, new_order, order_working, cancel_for_escalation, passes,
}

-- `req` with another id, type and price; the percentage of a trailing stop is not passed on.
abbrev pub stage_of : {W : Type 0} → OrderRequest W → Text → OrderType → Option W → OrderRequest W
stage_of req suffix kind px = record req {
  client_order_id = req.client_order_id ++ suffix;
  order_type = kind;
  limit_price = px;
  trail_percent = none;
}

module _ {W : Type 0} where
  -- The price at which the market order will execute.
  unfoldable pub exec_ref : Side → Option (W × W) → W → W
  exec_ref side none cur = cur
  exec_ref Side.buy (some touch) cur = touch.1
  exec_ref Side.sell (some touch) cur = touch.0

module _ {W S : Type 0} ⦃f : Float W⦄ (c : Setup W S) where
  -- The dwell after a stage: true where the order still rested and its cancellation succeeded.
  unfoldable pub may_advance : OrderAck → Action W S Bool
  may_advance ack = do
    tell (c.world.sleep c.cfg.escalation_dwell_seconds)
    working ← order_working c ack
    if or_default working false then cancel_for_escalation c ack else pure false

  -- The third stage; `ack` and `ack_req` are what the stages before ended with.
  unfoldable pub fall_back :
      OrderRequest W
      → AccountSnapshot W
      → W
      → OrderAck
      → OrderRequest W
      → Action W S (OrderAck × OrderRequest W)
  fall_back req snap cur ack ack_req = do
    mkt ← new_order c (stage_of req (text "-mkt") OrderType.market none)
    touch ← ask (c.world.get_touch req.symbol)
    if passes c mkt snap (exec_ref req.side touch cur)
        then (do ack' ← submit c.world mkt; pure (ack', mkt))
        else pure (ack, ack_req)

  -- The second stage, where the gate lets the new price pass.
  unfoldable pub submit_peg :
      OrderRequest W
      → AccountSnapshot W
      → W
      → OrderRequest W
      → Action W S (OrderAck × OrderRequest W)
  submit_peg req snap cur peg = do
    ack ← submit c.world peg
    advance ← may_advance ack
    if advance then fall_back req snap cur ack peg else pure (ack, peg)

  unfoldable pub repeg :
      OrderRequest W → AccountSnapshot W → W → OrderAck → Action W S (OrderAck × OrderRequest W)
  repeg req snap ref_price ack = do
    quote ← get_quote c req.symbol
    let cur = if truthy quote then or_default quote ref_price else ref_price
    px ← from_option Fault.not_finite (capped_limit_price req.side cur c.cfg)
    peg ← new_order c (stage_of req (text "-peg") OrderType.limit (some px))
    if passes c peg snap cur then submit_peg req snap cur peg else fall_back req snap cur ack req

  unfoldable pub submit_with_escalation :
      OrderRequest W → AccountSnapshot W → W → Action W S (OrderAck × OrderRequest W)
  submit_with_escalation req snap ref_price =
      if not (is_limit req.order_type) then (do ack ← submit c.world req; pure (ack, req)) else (do
        ack ← submit c.world req
        advance ← may_advance ack
        if advance then repeg req snap ref_price ack else pure (ack, req))
