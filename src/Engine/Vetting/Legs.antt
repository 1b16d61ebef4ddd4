-- ===== src/Engine/Vetting/Legs.antt =====
-- autotrader/main.py, `TradeEngine._route_overlay` and `_route_signal`: the legs of an overlay pass the
-- gate, and entries pass the entry window.
use autotrader_ai.Prelude.{
  ℕ, zero, suc, ◌≡◌, Bool, true, false, some, List, [], ◌∷◌, or_default, All,
}
use autotrader_ai.Prelude.Text.{Text}
use autotrader_ai.Float.{Float, fixed_float}
use autotrader_ai.Domain.{OrderRequest, OrderAck, AccountSnapshot}
use autotrader_ai.Options.Planner.{OverlayLeg, OverlayPlan}
use autotrader_ai.Engine.World.{Action, pure}
use autotrader_ai.Engine.Vetting.Vetted.{Known, judged, is_entry}
use autotrader_ai.Engine.Vetting.Keeps.{
  Keeps, keeps_rules, Keeps-pure, Keeps-bind, Keeps-tell, Keeps-if,
}
use autotrader_ai.Engine.Vetting.Steady.{order_working-Keeps, record_order-Keeps}
use autotrader_ai.Engine.Vetting.Submitting.{Passed, submit-Keeps}
use autotrader_ai.Engine.Setup.{Setup}
use autotrader_ai.Engine.Vetting.Leaves.{Leaves, leaves_rules, Leaves-then, Leaves-Keeps}
use autotrader_ai.Engine.Overlay.{
  Legs, Hedged, stopped, through, poll_fill, confirm_hedge_fill, handle_unhedged_stock, leg_passes,
  submit_leg, place_hedge, place_hedges, place_stock,
}
use autotrader_ai.Engine.Vetting.Orders.{attach_trailing_stop-Leaves}

-- A leg that is an entry only where entries are open.
abbrev pub Allowed : {W : Type 0} → Bool → OverlayLeg W → Type 0
Allowed entries leg = is_entry leg.request ≡ true → entries ≡ true

module _ {W S : Type 0} ⦃f : Float W⦄ (c : Setup W S) where
  poll_fill-Keeps :
      {k : Known W} (attempt left : ℕ) (ack : OrderAck)
      → Keeps c.cfg k (poll_fill c attempt left ack)
  unfolding poll_fill
  poll_fill-Keeps attempt zero ack = Keeps-pure false
  poll_fill-Keeps attempt (suc left) ack = Keeps-bind _ _ (Keeps-tell _) (λ _.
      Keeps-bind _ _ (order_working-Keeps c ack) (λ working.
        Keeps-if (or_default working true) _ _ (λ _. poll_fill-Keeps (suc attempt) left ack)
          (λ _. Keeps-pure true)))

  confirm_hedge_fill-Keeps :
      {k : Known W} (ack : OrderAck) → Keeps c.cfg k (confirm_hedge_fill c ack)
  unfolding confirm_hedge_fill
  confirm_hedge_fill-Keeps ack = search (keeps_rules, order_working-Keeps, poll_fill-Keeps)

  handle_unhedged_stock-Leaves :
      {k : Known W} (plan : OverlayPlan W) (req : OrderRequest W) (px : W) (id : Text) (p : Legs)
      → Leaves c.cfg k (handle_unhedged_stock c plan req px id p)
  unfolding handle_unhedged_stock
  handle_unhedged_stock-Leaves plan req px id p =
      search (leaves_rules, Keeps-tell, Leaves-Keeps, Leaves-then, attach_trailing_stop-Leaves)

  module _ (snap : AccountSnapshot W) (entries : Bool) (coverage : List (OrderRequest W)) where
    Passed-leg :
        (leg : OverlayLeg W)
        → leg_passes c leg snap coverage ≡ true
        → Allowed entries leg
        → Passed c.cfg snap entries leg.request
    unfolding leg_passes
    Passed-leg leg e o = record {
      ref_price = some leg.quote.premium;
      coverage_legs = coverage;
      approved = e;
      opens = o;
    }

    submit_leg-Keeps :
        (leg : OverlayLeg W)
        → leg_passes c leg snap coverage ≡ true
        → Allowed entries leg
        → Keeps c.cfg (judged snap entries) (submit_leg c leg)
    unfolding submit_leg
    submit_leg-Keeps leg e o =
        search (keeps_rules, submit-Keeps, Passed-leg, record_order-Keeps, e, o)

    place_hedge-Keeps :
        (has_stock : Bool) (leg : OverlayLeg W) (p : Legs)
        → Allowed entries leg
        → Keeps c.cfg (judged snap entries) (place_hedge c snap coverage has_stock leg p)
    unfolding place_hedge
    place_hedge-Keeps has_stock leg p o =
        search (keeps_rules, submit_leg-Keeps, confirm_hedge_fill-Keeps, o)

    Hedged-elim :
        (r : Hedged) (g : Legs → Action W S Hedged)
        → ((p : Legs) → Keeps c.cfg (judged snap entries) (g p))
        → Keeps {S = S} c.cfg
            (judged snap entries)
            (elim r [ stopped a ↦ pure (stopped a) | through p ↦ g p ])
    Hedged-elim (stopped a) g kg = Keeps-pure (stopped a)
    Hedged-elim (through p) g kg = kg p

    pub place_hedges-Keeps :
        (has_stock : Bool) (legs : List (OverlayLeg W)) (p : Legs)
        → All (Allowed entries) legs
        → Keeps c.cfg (judged snap entries) (place_hedges c snap coverage has_stock legs p)
    unfolding place_hedges
    place_hedges-Keeps has_stock [] p o = Keeps-pure (through p)
    place_hedges-Keeps has_stock (leg ∷ legs) p (o, os) =
        Keeps-bind _ _ (place_hedge-Keeps has_stock leg p o)
          (λ r. Hedged-elim r _ (λ p'. place_hedges-Keeps has_stock legs p' os))

    pub place_stock-Leaves :
        (plan : OverlayPlan W) (id : Text) (leg : OverlayLeg W) (p : Legs)
        → Allowed entries leg
        → Leaves c.cfg (judged snap entries) (place_stock c plan snap coverage id leg p)
    unfolding place_stock
    place_stock-Leaves plan id leg p o =
        search (leaves_rules, submit_leg-Keeps, Leaves-then, handle_unhedged_stock-Leaves, o) depth
          9
