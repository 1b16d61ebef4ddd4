-- ===== src/Engine/Vetting/Orders.antt =====
-- autotrader/main.py, the trailing stops and `TradeEngine._route_signal`: the orders that they place
-- passed the gate.
use autotrader_ai.Prelude.{◌≡◌, Bool, true, Option, arith, if◌then◌else◌}
use autotrader_ai.Prelude.Int.{ℤ}
use autotrader_ai.Prelude.Text.{Text}
use autotrader_ai.Float.{Float, fzero, fixed_float}
use autotrader_ai.Domain.{Side, OrderType, OrderRequest, OrderAck, AccountSnapshot, Signal}
use autotrader_ai.Risk.Core.{is_buy}
use autotrader_ai.Db.Tables.{Tables, get_open_trailing_stop}
use autotrader_ai.Engine.World.{Action, ◌>>=◌, pure}
use autotrader_ai.Engine.Vetting.Vetted.{Known, judged, is_entry}
use autotrader_ai.Engine.Vetting.Keeps.{Keeps, keeps_rules, Keeps-pure, Keeps-elim, Keeps-with_db}
use autotrader_ai.Engine.Vetting.Steady.{
  cancel-Keeps, order_kind-Keeps, record_order-Keeps, next_signal_id-Keeps,
}
use autotrader_ai.Engine.Vetting.Submitting.{submit-Keeps}
use autotrader_ai.Engine.Setup.{
  TickAction, sized_zero, rejected_by_risk, order_placed, Setup, position_of, passes,
}
use autotrader_ai.Engine.Vetting.Stages.{Passed-passes, submit_with_escalation-Keeps}
use autotrader_ai.Engine.Vetting.Leaves.{
  Leaves, leaves_rules, Leaves-pure, Leaves-bind, Leaves-then, Leaves-if, Leaves-elim, Leaves-read,
  Leaves-Keeps, Leaves-new_order,
}
use autotrader_ai.Engine.Trailing.{
  new_stop, attach_trailing_stop, cancel_stop, resize_stop, consolidate_stop,
}
use autotrader_ai.Engine.Escalation.{submit_with_escalation}
use autotrader_ai.Engine.Route.{
  plain_order, sized_qty, signal_qty, protect_entry, settle_signal, enter_signal, route_equity,
}

module _ {W S : Type 0} ⦃f : Float W⦄ (c : Setup W S) where
  pub attach_trailing_stop-Leaves :
      {k : Known W} (symbol : Text) (qty : ℤ) (px : W) (tag : Text)
      → Leaves c.cfg k (attach_trailing_stop c symbol qty px tag)
  unfolding attach_trailing_stop new_stop is_entry
  attach_trailing_stop-Leaves symbol qty px tag = Leaves-read c _ (λ snap.
      Leaves-new_order c _ _
        (Leaves-Keeps _ (search (keeps_rules, submit-Keeps, Passed-passes, record_order-Keeps))))

  cancel_stop-Keeps :
      {k : Known W} (symbol : Text) (t : Tables W) → Keeps c.cfg k (cancel_stop c symbol t)
  unfolding cancel_stop
  cancel_stop-Keeps symbol t =
      Keeps-elim (get_open_trailing_stop symbol t) _ _ (Keeps-pure tt)
        (λ id. search (keeps_rules, cancel-Keeps))

  resize_stop-Leaves :
      {k : Known W} (symbol : Text) (qty : ℤ) (px : W) (round_id : Text) (t : Tables W)
      → Leaves c.cfg k (resize_stop c symbol qty px round_id t)
  unfolding resize_stop
  resize_stop-Leaves symbol qty px round_id t =
      search (leaves_rules, cancel_stop-Keeps, Leaves-then, attach_trailing_stop-Leaves)

  pub consolidate_stop-Leaves :
      {k : Known W} (symbol : Text) (qty : ℤ) (px : W) (round_id : Text)
      → Leaves c.cfg k (consolidate_stop c symbol qty px round_id)
  unfolding consolidate_stop
  consolidate_stop-Leaves symbol qty px round_id = Leaves-bind _ _ (search keeps_rules) (λ db.
      Leaves-if (f.le c.cfg.trailing_stop_pct fzero) _ _ (λ _. Leaves-pure tt)
        (λ _.
          Leaves-elim db _ _ (Leaves-pure tt) (λ t. resize_stop-Leaves symbol qty px round_id t)))

  protect_entry-Leaves :
      {k : Known W} (signal : Signal W) (price : W) (id : Text) (qty : ℤ) (a : TickAction)
      → Leaves c.cfg k (protect_entry c signal price id qty a)
  unfolding protect_entry
  protect_entry-Leaves signal price id qty order_placed =
      search (leaves_rules, Leaves-then, attach_trailing_stop-Leaves)
  protect_entry-Leaves signal price id qty a = Leaves-pure a

  settle_signal-Leaves :
      {k : Known W} (signal : Signal W) (price : W) (id : Text) (req : OrderRequest W)
      (r : OrderAck × OrderRequest W)
      → Leaves c.cfg k (settle_signal c signal price id req r)
  unfolding settle_signal
  settle_signal-Leaves signal price id req r =
      search (leaves_rules, record_order-Keeps, protect_entry-Leaves)

  sized_qty-Keeps :
      {k : Known W} (signal : Signal W) (snap : AccountSnapshot W) (price : W)
      → Keeps c.cfg k (sized_qty c signal snap price)
  unfolding sized_qty
  sized_qty-Keeps signal snap price = search keeps_rules

  signal_qty-Keeps :
      {k : Known W} (signal : Signal W) (snap : AccountSnapshot W) (price : W)
      → Keeps c.cfg k (signal_qty c signal snap price)
  unfolding signal_qty
  signal_qty-Keeps signal snap price =
      Keeps-elim (position_of signal.symbol snap) _ _ (sized_qty-Keeps signal snap price)
        (λ p. search (keeps_rules, sized_qty-Keeps))

  -- A plain order that the gate passes is sent, and otherwise refused.
  pub send_plain-Leaves :
      (snap : AccountSnapshot W) (entries : Bool) (symbol : Text) (side : Side) (qty : ℤ)
      (kind : OrderType) (lpx : Option W) (id : Text) (px : W)
      (g : OrderAck × OrderRequest W → Action W S TickAction)
      → (is_buy side ≡ true → entries ≡ true)
      → ((r : OrderAck × OrderRequest W) → Leaves c.cfg (judged snap entries) (g r))
      → let req = plain_order symbol side qty kind lpx id in
        Leaves c.cfg (judged snap entries) (
          if passes c req snap px
          then submit_with_escalation c req snap px >>= g
          else pure rejected_by_risk)
  unfolding is_entry
  send_plain-Leaves snap entries symbol side qty kind lpx id px g opens after =
      let o : is_entry (plain_order symbol side qty kind lpx id) ≡ true → entries ≡ true =
        λ h. ground (arith, opens) in
      search (leaves_rules, submit_with_escalation-Keeps, after, o)

  module _ (signal : Signal W) (snap : AccountSnapshot W) (price : W) (entries : Bool)
      (opens : is_buy signal.direction ≡ true → entries ≡ true) where
    enter_signal-Leaves :
        (id : Text) (qty : ℤ)
        → Leaves c.cfg (judged snap entries) (enter_signal c signal snap price id qty)
    unfolding enter_signal
    enter_signal-Leaves id qty =
        Leaves-bind _ _ (order_kind-Keeps c signal.direction price) (λ kind.
          Leaves-new_order c _ _ (
            send_plain-Leaves snap entries _ _ _ _ _ _ price _ opens
              (λ r. settle_signal-Leaves signal price id _ r)))

    pub route_equity-Leaves : Leaves c.cfg (judged snap entries) (route_equity c signal snap price)
    unfolding route_equity
    route_equity-Leaves = Leaves-bind _ _ (next_signal_id-Keeps c) (λ id.
        Leaves-bind _ _ (Keeps-with_db _) (λ _.
          Leaves-bind _ _ (signal_qty-Keeps signal snap price)
            (λ qty. Leaves-elim qty _ _ (Leaves-pure sized_zero) (enter_signal-Leaves id))))
