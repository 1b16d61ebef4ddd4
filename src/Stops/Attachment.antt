-- ===== src/Stops/Attachment.antt =====
-- autotrader/stops.py: the reconcile of the stops keeps the log of the orders sound.
use autotrader_ai.Prelude.{ℕ, none, List, [], ◌∷◌}
use autotrader_ai.Prelude.Int.{ℤ}
use autotrader_ai.Prelude.Text.{Text}
use autotrader_ai.Float.{Float, fixed_float}
use autotrader_ai.Domain.{OrderAck, AccountSnapshot}
use autotrader_ai.Engine.Vetting.Vetted.{Known, sound}
use autotrader_ai.Engine.Vetting.Keeps.{
  Keeps, keeps_rules, Keeps-pure, Keeps-bind, Keeps-tell, Keeps-ask,
}
use autotrader_ai.Engine.Vetting.Steady.{try_cancel-Keeps, get_quote-Keeps}
use autotrader_ai.Engine.Setup.{Setup}
use autotrader_ai.Engine.Vetting.Leaves.{
  Leaves, leaves_rules, Leaves-pure, Leaves-bind, Leaves-then, Leaves-elim, Leaves-read, Leaves-any,
}
use autotrader_ai.Stops.Reconcile.{
  Tally, stored, sweep_order, sweep_orders, reattach, attach_stops, reconcile_held, reconcile_known,
  reconcile,
}
use autotrader_ai.Engine.Vetting.Orders.{attach_trailing_stop-Leaves}

module _ {W S : Type 0} ⦃f : Float W⦄ (c : Setup W S) (alert : Text → S → S) where
  pub stored-Keeps : {k : Known W} → Keeps {S = S} c.cfg k stored
  unfolding stored
  stored-Keeps = search (keeps_rules)

  sweep_order-Keeps :
      {k : Known W} (longs : List Text) (boid : Text)
      → Keeps c.cfg k (sweep_order c alert longs boid)
  unfolding sweep_order
  sweep_order-Keeps longs boid = search (keeps_rules, stored-Keeps, try_cancel-Keeps) depth 9

  sweep_orders-Keeps :
      {k : Known W} (longs bs : List Text) (n : ℕ) → Keeps c.cfg k (sweep_orders c alert longs bs n)
  unfolding sweep_orders
  sweep_orders-Keeps longs [] n = Keeps-pure n
  sweep_orders-Keeps longs (b ∷ bs) n =
      Keeps-bind _ _ (sweep_order-Keeps longs b) (λ k. sweep_orders-Keeps longs bs _)

  reattach-Leaves :
      {k : Known W} (day symbol : Text) (qty : ℤ) (r : Tally)
      → Leaves c.cfg k (reattach c alert day symbol qty r)
  unfolding reattach
  reattach-Leaves day symbol qty r = Leaves-bind _ _ (get_quote-Keeps c symbol) (λ quote.
      Leaves-elim quote _ _ (search (leaves_rules, Keeps-tell)) (λ px.
        Leaves-then _ _ (attach_trailing_stop-Leaves c symbol qty px _)
          (λ done. search (leaves_rules, Keeps-tell))))

  attach_stops-Leaves :
      (day : Text) (ids : List Text) (es : List (Text × ℤ)) (r : Tally)
      → Leaves c.cfg sound (attach_stops c alert day ids es r)
  unfolding attach_stops
  attach_stops-Leaves day ids [] r = Leaves-pure r
  attach_stops-Leaves day ids (e ∷ es) r = Leaves-bind _ _ stored-Keeps (λ t.
      Leaves-then _ _ (search (leaves_rules, reattach-Leaves))
        (λ r'. attach_stops-Leaves day ids es r'))

  reconcile_held-Leaves :
      {k : Known W} (day : Text) (acks : List OrderAck) (snap : AccountSnapshot W)
      → Leaves c.cfg k (reconcile_held c alert day acks snap)
  unfolding reconcile_held
  reconcile_held-Leaves day acks snap =
      search (leaves_rules, sweep_orders-Keeps, Leaves-any, attach_stops-Leaves)

  reconcile_known-Leaves :
      (day : Text) (acks : List OrderAck) → Leaves c.cfg sound (reconcile_known c alert day acks)
  unfolding reconcile_known
  reconcile_known-Leaves day acks =
      Leaves-read c _ (λ snap. search (leaves_rules, Leaves-then, reconcile_held-Leaves))

  pub reconcile-Leaves : (day : Text) → Leaves c.cfg sound (reconcile c alert day)
  unfolding reconcile
  reconcile-Leaves day = Leaves-bind _ _ (Keeps-ask _) (λ orders.
      Leaves-elim orders _ _ (Leaves-pure none) (λ acks. reconcile_known-Leaves day acks))
