-- ===== src/Engine/Vetting/Liquidation.antt =====
-- autotrader/main.py: the rebalance and the loss check leave a sound log, the halt of the session
-- included.
use autotrader_ai.Prelude.{◌≡◌, Bool, true, not, ◌&&◌, Option, List, [], ◌∷◌, arith, is_some}
use autotrader_ai.Prelude.Text.{Text}
use autotrader_ai.Float.{Float, fixed_float}
use autotrader_ai.Domain.{OrderRequest, OrderAck, AccountSnapshot}
use autotrader_ai.Risk.Core.{is_buy}
use autotrader_ai.Session.Gate.{EntryGate}
use autotrader_ai.Db.Targets.{Targets, latest_target_weights}
use autotrader_ai.Rebalance.{RebalanceTrade}
use autotrader_ai.Engine.World.{Action, ◌>>=◌, gets}
use autotrader_ai.Engine.Vetting.Vetted.{Known, sound, judged, unhalted, Holds}
use autotrader_ai.Engine.Vetting.Rules.{Runs-bind}
use autotrader_ai.Engine.Vetting.Keeps.{
  Keeps, Keeps-pure, Keeps-bind, Keeps-from_option, Keeps-from_result, Keeps-gets, Keeps-with_db,
}
use autotrader_ai.Engine.Vetting.Steady.{get_quote-Keeps, order_kind-Keeps, record_order-Keeps}
use autotrader_ai.Engine.Vetting.Submitting.{unhalted_read-Runs}
use autotrader_ai.Engine.Setup.{
  TickAction, halted, entry_closed, order_placed, Setup, gate_halted, gate_closed, read_account,
}
use autotrader_ai.Engine.Vetting.Leaves.{
  Leaves, leaves_rules, Leaves-pure, Leaves-bind, Leaves-then, Leaves-if, Leaves-elim, Leaves-read,
  Leaves-any, Leaves-new_order,
}
use autotrader_ai.Engine.Rebalancing.{
  explain_trade, settle_trade, enter_trade, submit_rebalance_order, quotes_of, follow_trade,
  rebalance_trade, rebalance_trades, rebalance_to, check_targets, rebalance, no_targets,
  halted_session, rebalance_disabled,
}
use autotrader_ai.Engine.Vetting.Orders.{consolidate_stop-Leaves, send_plain-Leaves}
use autotrader_ai.Engine.Vetting.Window.{not_halted}

module _ {W S : Type 0} ⦃f : Float W⦄ (c : Setup W S) where
  explain_trade-Leaves :
      {k : Known W} (trade : RebalanceTrade) (id : Text) (a : TickAction)
      → Leaves c.cfg k (explain_trade c trade id a)
  unfolding explain_trade
  explain_trade-Leaves trade id order_placed = search (leaves_rules, Keeps-with_db)
  explain_trade-Leaves trade id a = Leaves-pure a

  settle_trade-Leaves :
      {k : Known W} (trade : RebalanceTrade) (id : Text) (req : OrderRequest W)
      (r : OrderAck × OrderRequest W)
      → Leaves c.cfg k (settle_trade c trade id req r)
  unfolding settle_trade
  settle_trade-Leaves trade id req r =
      search (leaves_rules, record_order-Keeps, explain_trade-Leaves)

  -- What is known where the gate is read.
  Leaves-gate :
      {A : Type 0} (g : Option EntryGate → Action W S A)
      → ((gate : Option EntryGate) → Leaves c.cfg (unhalted (not (gate_closed gate))) (g gate))
      → Leaves c.cfg sound (gets (λ st. st.gate) >>= g)
  unfolding ◌>>=◌ gets Holds
  Leaves-gate g lg = record {
    runs = record { at = λ st h. (lg st.gate).runs.at st (h, not_halted c.cfg st.log st.gate h) };
  }

  Leaves-unhalted :
      {A : Type 0} {entries : Bool} (g : AccountSnapshot W → Action W S A)
      → ((snap : AccountSnapshot W) → Leaves c.cfg (judged snap entries) (g snap))
      → Leaves c.cfg (unhalted entries) (read_account c >>= g)
  Leaves-unhalted g lg = record { runs = Runs-bind (unhalted_read-Runs c) (λ snap. (lg snap).runs) }

  enter_trade-Leaves :
      (trade : RebalanceTrade) (px : W) (id : Text) (snap : AccountSnapshot W) (entries : Bool)
      → (is_buy trade.side ≡ true → entries ≡ true)
      → Leaves c.cfg (judged snap entries) (enter_trade c trade px id snap)
  unfolding enter_trade
  enter_trade-Leaves trade px id snap entries opens =
      Leaves-bind _ _ (order_kind-Keeps c trade.side px) (λ kind. Leaves-new_order c _ _ (
        send_plain-Leaves c snap entries _ _ _ _ _ _ px _ opens
          (λ r. settle_trade-Leaves trade id _ r)))

  pub submit_rebalance_order-Leaves :
      (trade : RebalanceTrade) (px : W) (id : Text)
      → Leaves c.cfg sound (submit_rebalance_order c trade px id)
  unfolding submit_rebalance_order
  submit_rebalance_order-Leaves trade px id = Leaves-gate _ (λ gate.
      Leaves-if (gate_halted gate) _ _ (λ _. Leaves-pure halted)
        (λ _.
          Leaves-if (is_buy trade.side && gate_closed gate) _ _ (λ _. Leaves-pure entry_closed)
            (λ e.
              Leaves-unhalted _
                (λ snap. enter_trade-Leaves trade px id snap _ (λ b. ground arith)))))

  quotes_of-Keeps :
      {k : Known W} (es prices : List (Text × W)) → Keeps c.cfg k (quotes_of c es prices)
  unfolding quotes_of
  quotes_of-Keeps [] prices = Keeps-pure prices
  quotes_of-Keeps (e ∷ es) prices =
      Keeps-bind _ _ (get_quote-Keeps c e.0) (λ quote. quotes_of-Keeps es _)

  follow_trade-Leaves :
      (trade : RebalanceTrade) (px : W) (id : Text) (a : TickAction)
      → Leaves c.cfg sound (follow_trade c trade px id a)
  unfolding follow_trade
  follow_trade-Leaves trade px id order_placed = consolidate_stop-Leaves c _ _ px id
  follow_trade-Leaves trade px id a = Leaves-pure tt

  rebalance_trade-Leaves :
      (prices : List (Text × W)) (id : Text) (trade : RebalanceTrade)
      → Leaves c.cfg sound (rebalance_trade c prices id trade)
  unfolding rebalance_trade
  rebalance_trade-Leaves prices id trade = search (
    leaves_rules, Keeps-from_option, Leaves-then, submit_rebalance_order-Leaves,
    follow_trade-Leaves,
  )

  rebalance_trades-Leaves :
      (prices : List (Text × W)) (id : Text) (trades : List RebalanceTrade)
      → Leaves c.cfg sound (rebalance_trades c prices id trades)
  unfolding rebalance_trades
  rebalance_trades-Leaves prices id [] = Leaves-pure tt
  rebalance_trades-Leaves prices id (t ∷ ts) =
      Leaves-then _ _ (rebalance_trade-Leaves prices id t)
        (λ _. rebalance_trades-Leaves prices id ts)

  rebalance_to-Leaves : (targets : Targets W) → Leaves c.cfg sound (rebalance_to c targets)
  unfolding rebalance_to
  rebalance_to-Leaves targets = Leaves-read c _ (λ snap. search (
    leaves_rules, Keeps-from_option, quotes_of-Keeps, Leaves-then, Leaves-any,
    rebalance_trades-Leaves,
  ))

  check_targets-Leaves : (targets : Targets W) → Leaves c.cfg sound (check_targets c targets)
  unfolding check_targets
  check_targets-Leaves targets =
      search (leaves_rules, Keeps-gets, Keeps-from_result, rebalance_to-Leaves)

  pub rebalance-Leaves : Leaves c.cfg sound (rebalance c)
  unfolding rebalance
  rebalance-Leaves = Leaves-bind _ _ (Keeps-gets _) (λ gate. Leaves-bind _ _ (Keeps-gets _) (λ db.
      Leaves-bind _ _ (Keeps-gets _) (λ weights.
        Leaves-if (not c.cfg.rebalance_enabled) _ _ (λ _. Leaves-pure rebalance_disabled)
          (λ _.
            Leaves-if (gate_halted gate) _ _ (λ _. Leaves-pure halted_session)
              (λ _.
                Leaves-if (not (is_some db)) _ _ (λ _. Leaves-pure no_targets)
                  (λ _.
                    Leaves-elim (latest_target_weights weights) _ _ (Leaves-pure no_targets)
                      check_targets-Leaves))))))
