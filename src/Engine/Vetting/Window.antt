-- ===== src/Engine/Vetting/Window.antt =====
-- autotrader/main.py, `TradeEngine._route_signal` and `_route_overlay`: entries pass the entry window,
-- which a halt of the session closes for good.
use autotrader_ai.Prelude.{
  ◌≡◌, refl, inl, inr, Bool, true, false, not, ◌&&◌, Option, none, some, List, [], ◌∷◌, arith,
  Bool-cases, any, All, All-append, All-keep, All-first,
}
use autotrader_ai.Prelude.Text.{Text}
use autotrader_ai.Float.{Float, fixed_float}
use autotrader_ai.Domain.{OrderRequest, AccountSnapshot, Signal, OverlayType}
use autotrader_ai.Config.{RiskConfig}
use autotrader_ai.Risk.Core.{is_buy}
use autotrader_ai.Session.Gate.{EntryGate, entries_enabled}
use autotrader_ai.Options.Planner.{planned, skipped, raised, OverlayLeg, OverlayPlan, Planned}
use autotrader_ai.Engine.World.{Fault, Log, Action, ◌>>=◌, pure, raise, gets}
use autotrader_ai.Engine.Vetting.Vetted.{Sound, judged, Holds, has_halted, is_entry}
use autotrader_ai.Engine.Vetting.Keeps.{Keeps-gets, Keeps-with_db}
use autotrader_ai.Engine.Vetting.Steady.{next_signal_id-Keeps}
use autotrader_ai.Engine.Setup.{
  dropped_low_confidence, entry_closed, overlay_skipped, overlay_placed, Setup, gate_closed,
}
use autotrader_ai.Engine.Vetting.Leaves.{Leaves, Leaves-pure, Leaves-raise, Leaves-bind, Leaves-if}
use autotrader_ai.Engine.Overlay.{
  Hedged, stopped, through, opens, is_hedge, buys_first, place_stock, place_legs, enter_overlay,
  route_overlay,
}
use autotrader_ai.Engine.Route.{route_equity, route_signal}
use autotrader_ai.Engine.Vetting.Orders.{route_equity-Leaves}
use autotrader_ai.Engine.Vetting.Legs.{Allowed, place_hedges-Keeps, place_stock-Leaves}

module _ {W : Type 0} where
  Allowed-legs :
      (entries : Bool) (legs : List (OverlayLeg W))
      → (any opens legs ≡ true → entries ≡ true)
      → All (Allowed entries) legs
  unfolding is_entry
  Allowed-legs entries [] h = tt
  Allowed-legs entries (leg ∷ legs) h =
      (λ e. ground (arith, h), Allowed-legs entries legs (λ e. ground (arith, h)))

  Allowed-buys_first :
      (entries : Bool) (legs : List (OverlayLeg W))
      → All (Allowed entries) legs
      → All (Allowed entries) (buys_first legs)
  unfolding buys_first
  Allowed-buys_first entries legs h =
      All-append (Allowed entries) _ _ (All-keep (Allowed entries) _ legs h)
        (All-keep (Allowed entries) _ legs h)

module _ {W : Type 0} ⦃f : Float W⦄ (cfg : RiskConfig W) where
  pub not_halted :
      (log : Log W) (gate : Option EntryGate)
      → Sound cfg log gate
      → not (gate_closed gate) ≡ true
      → has_halted log ≡ false
  unfolding entries_enabled
  not_halted log none s e = elim (Bool-cases (has_halted log)) [
    | inl t ↦ let q = s.gated t in absurd (ground arith)
    | inr t ↦ t
  ]
  not_halted log (some gate) s e = elim (Bool-cases (has_halted log)) [
    | inl t ↦ let q = s.gated t in absurd (ground arith)
    | inr t ↦ t
  ]

module _ {W S : Type 0} ⦃f : Float W⦄ (c : Setup W S) where
  -- Where the entry window is open, the session is not halted.
  pub Leaves-window :
      {A : Type 0} (snap : AccountSnapshot W) (g : Bool → Action W S A)
      → ((closed : Bool) → Leaves c.cfg (judged snap (not closed)) (g closed))
      → Leaves c.cfg (judged snap false) (gets (λ st. gate_closed st.gate) >>= g)
  unfolding ◌>>=◌ gets Holds
  Leaves-window snap g lg = record {
    runs = record {
      at = λ st h.
          (lg (gate_closed st.gate)).runs.at st (h.0, h.1, not_halted c.cfg st.log st.gate h.0);
    };
  }

  -- What is known of the window may be left aside.
  Leaves-unknown :
      {A : Type 0} {m : Action W S A} (snap : AccountSnapshot W) (entries : Bool)
      → Leaves c.cfg (judged snap false) m
      → Leaves c.cfg (judged snap entries) m
  unfolding Holds
  Leaves-unknown snap entries lm = record {
    runs = record { at = λ st h. lm.runs.at st (h.0, h.1, λ e. absurd (ground arith)) };
  }

  module _ (snap : AccountSnapshot W) (entries : Bool) where
    stock_last :
        (plan : OverlayPlan W) (coverage : List (OrderRequest W)) (id : Text)
        (stock : Option (OverlayLeg W)) (r : Hedged)
        → ((leg : OverlayLeg W) → stock ≡ some leg → Allowed entries leg)
        → Leaves {S = S} c.cfg (judged snap entries) (elim r [
          | stopped action ↦ pure action
          | through p ↦ elim stock [
            | none ↦ pure overlay_placed
            | some leg ↦ place_stock c plan snap coverage id leg p
          ]
        ])
    stock_last plan coverage id stock (stopped action) o = Leaves-pure action
    stock_last plan coverage id none (through p) o = Leaves-pure overlay_placed
    stock_last plan coverage id (some leg) (through p) o =
        place_stock-Leaves c snap entries coverage plan id leg p (o leg refl)

    place_legs-Leaves :
        (plan : OverlayPlan W) (id : Text)
        → All (Allowed entries) plan.legs
        → Leaves c.cfg (judged snap entries) (place_legs c plan snap id)
    unfolding place_legs
    place_legs-Leaves plan id o =
        Leaves-bind _ _
          (place_hedges-Keeps c snap entries _ _ _ _
            (Allowed-buys_first entries _ (All-keep (Allowed entries) is_hedge plan.legs o)))
          (λ r. stock_last plan _ id _ r (λ leg e. All-first (Allowed entries) _ plan.legs leg e o))

  enter_overlay-Leaves :
      (signal : Signal W) (snap : AccountSnapshot W) (id : Text) (plan : OverlayPlan W)
      → Leaves c.cfg (judged snap false) (enter_overlay c signal snap id plan)
  unfolding enter_overlay
  enter_overlay-Leaves signal snap id plan = Leaves-bind _ _ (Keeps-with_db _) (λ _.
      Leaves-window snap _ (λ closed.
        Leaves-if (closed && any opens plan.legs) _ _ (λ _. Leaves-pure entry_closed)
          (λ e.
            place_legs-Leaves snap (not closed) plan id
              (Allowed-legs (not closed) plan.legs (λ o. ground arith)))))

  Planned-Leaves :
      (signal : Signal W) (snap : AccountSnapshot W) (id : Text) (r : Planned (OverlayPlan W))
      → Leaves {S = S} c.cfg (judged snap false) (elim r [
        | raised ↦ raise Fault.not_finite
        | skipped reason ↦ pure (overlay_skipped reason)
        | planned plan ↦ enter_overlay c signal snap id plan
      ])
  Planned-Leaves signal snap id (planned plan) = enter_overlay-Leaves signal snap id plan
  Planned-Leaves signal snap id (skipped reason) = Leaves-pure (overlay_skipped reason)
  Planned-Leaves signal snap id raised = Leaves-raise Fault.not_finite

  route_overlay-Leaves :
      (overlay : OverlayType) (signal : Signal W) (snap : AccountSnapshot W)
      → Leaves c.cfg (judged snap false) (route_overlay c overlay signal snap)
  unfolding route_overlay
  route_overlay-Leaves overlay signal snap = Leaves-bind _ _ (next_signal_id-Keeps c) (λ id.
      Leaves-bind _ _ (Keeps-gets _)
        (λ provider. Leaves-bind _ _ (Keeps-gets _) (λ today. Planned-Leaves signal snap id _)))

  overlay-Leaves :
      (signal : Signal W) (snap : AccountSnapshot W) (price : W) (closed : Bool)
      (overlay : Option OverlayType)
      → (is_buy signal.direction && closed) ≡ false
      → Leaves {S = S} c.cfg (judged snap (not closed)) (elim overlay [
        | some o ↦ route_overlay c o signal snap
        | none ↦ route_equity c signal snap price
      ])
  overlay-Leaves signal snap price closed none e =
      route_equity-Leaves c signal snap price (not closed) (λ b. ground arith)
  overlay-Leaves signal snap price closed (some o) e =
      Leaves-unknown snap (not closed) (route_overlay-Leaves o signal snap)

  -- Routing a signal against the account that was just read ends with a sound log.
  pub route_signal-Leaves :
      (signal : Signal W) (snap : AccountSnapshot W) (price : W)
      → Leaves c.cfg (judged snap false) (route_signal c signal snap price)
  unfolding route_signal
  route_signal-Leaves signal snap price =
      Leaves-if (f.lt signal.confidence c.cfg.min_confidence) _ _
        (λ _. Leaves-pure dropped_low_confidence)
        (λ _. Leaves-window snap _ (λ closed.
          Leaves-if (is_buy signal.direction && closed) _ _ (λ _. Leaves-pure entry_closed)
            (overlay-Leaves signal snap price closed signal.overlay)))
