-- ===== src/Engine/Vetting/Stages.antt =====
-- autotrader/main.py, `TradeEngine._submit_with_escalation`: every stage passes the gate anew.
use autotrader_ai.Prelude.{◌≡◌, Bool, true, some}
use autotrader_ai.Prelude.Text.{text}
use autotrader_ai.Float.{Float, fixed_float}
use autotrader_ai.Domain.{OrderType, OrderRequest, OrderAck, AccountSnapshot}
use autotrader_ai.Engine.Vetting.Vetted.{judged, is_entry}
use autotrader_ai.Engine.Vetting.Keeps.{Keeps, keeps_rules, Keeps-bind}
use autotrader_ai.Engine.Vetting.Steady.{
  order_working-Keeps, cancel_for_escalation-Keeps, get_quote-Keeps, Keeps-new_order,
}
use autotrader_ai.Engine.Vetting.Submitting.{Passed, submit-Keeps}
use autotrader_ai.Engine.Setup.{Setup, passes}
use autotrader_ai.Engine.Escalation.{
  may_advance, stage_of, fall_back, submit_peg, repeg, submit_with_escalation,
}

module _ {W S : Type 0} ⦃f : Float W⦄ (c : Setup W S) (snap : AccountSnapshot W)
    (entries : Bool) where
  pub Passed-passes :
      (req : OrderRequest W) (px : W)
      → passes c req snap px ≡ true
      → (is_entry req ≡ true → entries ≡ true)
      → Passed c.cfg snap entries req
  unfolding passes
  Passed-passes req px e o = record { ref_price = _; coverage_legs = _; approved = e; opens = o }

  may_advance-Keeps : (ack : OrderAck) → Keeps c.cfg (judged snap entries) (may_advance c ack)
  unfolding may_advance
  may_advance-Keeps ack = search (keeps_rules, order_working-Keeps, cancel_for_escalation-Keeps)

  module _ (req : OrderRequest W) (opens : is_entry req ≡ true → entries ≡ true) where
    fall_back-Keeps :
        (cur : W) (ack : OrderAck) (ack_req : OrderRequest W)
        → Keeps c.cfg (judged snap entries) (fall_back c req snap cur ack ack_req)
    unfolding fall_back is_entry
    fall_back-Keeps cur ack ack_req =
        Keeps-new_order c _ _ (search (keeps_rules, submit-Keeps, Passed-passes, opens))

    submit_peg-Keeps :
        (cur px : W)
        → let peg = stage_of req (text "-peg") OrderType.limit (some px) in
          passes c peg snap cur ≡ true
          → Keeps c.cfg (judged snap entries) (submit_peg c req snap cur peg)
    unfolding submit_peg is_entry
    submit_peg-Keeps cur px e =
        search
          (keeps_rules, submit-Keeps, Passed-passes, may_advance-Keeps, fall_back-Keeps, opens, e)

    repeg-Keeps :
        (ref_price : W) (ack : OrderAck)
        → Keeps c.cfg (judged snap entries) (repeg c req snap ref_price ack)
    unfolding repeg
    repeg-Keeps ref_price ack = Keeps-bind _ _ (get_quote-Keeps c req.symbol) (λ quote.
        Keeps-bind _ _ (search keeps_rules)
          (λ px. Keeps-new_order c _ _ (search (keeps_rules, submit_peg-Keeps, fall_back-Keeps))))

    pub submit_with_escalation-Keeps :
        (ref_price : W)
        → passes c req snap ref_price ≡ true
        → Keeps c.cfg (judged snap entries) (submit_with_escalation c req snap ref_price)
    unfolding submit_with_escalation
    submit_with_escalation-Keeps ref_price e =
        search (keeps_rules, submit-Keeps, Passed-passes, may_advance-Keeps, repeg-Keeps, opens, e)
