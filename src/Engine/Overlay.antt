-- ===== src/Engine/Overlay.antt =====
-- autotrader/main.py, `TradeEngine._route_overlay`: the legs of an option overlay, the hedge before the
-- stock, and what follows a stock leg whose hedge is not confirmed.
use autotrader_ai.Prelude.{
  ℕ, zero, suc, Bool, true, false, not, ◌&&◌, ◌||◌, none, some, List, [], ◌∷◌, ◌++◌, map,
  if◌then◌else◌, or_default, is_some, keep, any, first,
}
use autotrader_ai.Prelude.Int.{pos}
use autotrader_ai.Prelude.Text.{Text, text}
use autotrader_ai.Float.{Float, fixed_float}
use autotrader_ai.Engine.World.{Fault, Action, ◌>>=◌, ◌>>◌, pure, raise, gets, tell, with_db}
use autotrader_ai.Engine.Router.{submit}
use autotrader_ai.Domain.{
  OrderState, is_filled, is_opening, OrderRequest, OrderAck, AccountSnapshot, Signal, OverlayType,
}
use autotrader_ai.Risk.Core.{evaluate, is_buy}
use autotrader_ai.Options.Planner.{
  planned, skipped, raised, OverlayLeg, OverlayPlan, build_overlay_plan,
}
use autotrader_ai.Db.Tables.{record_signal}
use autotrader_ai.Engine.Setup.{
  TickAction, entry_closed, rejected_by_risk, overlay_skipped, overlay_hedge_unplaceable,
  overlay_residual_long, overlay_placed, Setup, gate_closed, outcome, order_working, record_order,
  next_signal_id,
}
use autotrader_ai.Rebalance.{set_key, get_key}
use autotrader_ai.Session.Watchdog.{backoff_seconds}
use autotrader_ai.Options.Overlays.{overlay_value}
use autotrader_ai.Engine.Trailing.{attach_trailing_stop}

-- What the loop over the legs carries: was a long leg filled, which hedge legs are confirmed, and
-- the states that were observed.
pub record Legs : Type 0 where
  pub filled_long : Bool
  pub hedge_confirmed : List (Text × Bool)
  pub hedge_states : List (Text × OrderState)

abbrev pub no_legs : Legs
no_legs = record { filled_long = false; hedge_confirmed = []; hedge_states = [] }

pub data Hedged : Type 0 where
  stopped : TickAction → Hedged
  through : Legs → Hedged

abbrev pub is_failure : OrderState → Bool
is_failure OrderState.unknown = true
is_failure OrderState.rejected = true
is_failure _ = false

-- the action where a leg could not be placed: `generic` unless a stock leg is yet to come, or a
-- long leg is already filled
unfoldable pub leg_failed : (before_stock filled_long : Bool) → TickAction → TickAction
leg_failed before_stock filled_long generic =
    if before_stock
    then overlay_hedge_unplaceable
    else if filled_long
    then overlay_residual_long
    else generic

module _ {W : Type 0} where
  abbrev pub opens : OverlayLeg W → Bool
  opens l = is_opening l.request.position_effect

  abbrev pub is_hedge : OverlayLeg W → Bool
  is_hedge l = is_some l.request.option

  abbrev pub is_long_cover : OverlayLeg W → Bool
  is_long_cover l = is_buy l.request.side && opens l

  -- `sorted(hedge_legs, key=...)`: the stable sort puts every BUY before every SELL
  unfoldable pub buys_first : List (OverlayLeg W) → List (OverlayLeg W)
  buys_first legs =
      keep (λ (l : OverlayLeg W). is_buy l.request.side) legs
      ++ keep (λ (l : OverlayLeg W). not (is_buy l.request.side)) legs

  unfoldable pub note_leg : OrderRequest W → OrderAck → Bool → Legs → Legs
  note_leg req ack confirmed p = record {
    filled_long = p.filled_long || (is_buy req.side && is_opening req.position_effect && confirmed);
    hedge_confirmed = set_key req.symbol confirmed p.hedge_confirmed;
    hedge_states =
        set_key req.symbol (if confirmed then OrderState.filled else ack.state) p.hedge_states;
  }

  -- `hedge_confirmed.get(symbol, False)`
  unfoldable pub unconfirmed : Legs → OverlayLeg W → Bool
  unconfirmed p l = not (or_default (get_key l.request.symbol p.hedge_confirmed) false)

module _ {W S : Type 0} ⦃f : Float W⦄ (c : Setup W S) where
  -- The polls of `_confirm_hedge_fill`, from one attempt on.
  unfoldable pub poll_fill : (attempt left : ℕ) → OrderAck → Action W S Bool
  poll_fill attempt zero ack = pure false
  poll_fill attempt (suc left) ack = do
    let pause = f.of_int (pos (backoff_seconds (pos attempt) 1 30))
    tell (c.world.sleep pause)
    working ← order_working c ack
    if or_default working true then poll_fill (suc attempt) left ack else pure true

  unfoldable pub confirm_hedge_fill : OrderAck → Action W S Bool
  confirm_hedge_fill ack = if is_filled ack.state then pure true else (do
    working ← order_working c ack
    if or_default working true then poll_fill 1 c.hedge_confirm_attempts ack else pure true)

  -- `_handle_unhedged_stock`
  unfoldable pub handle_unhedged_stock :
      OverlayPlan W → OrderRequest W → W → Text → Legs → Action W S (Unit {0})
  handle_unhedged_stock plan req ref_price signal_id p = do
    attach_trailing_stop c req.symbol req.qty ref_price signal_id
    let legs = keep (λ l. is_hedge l && unconfirmed p l) plan.legs
    let states =
        map (λ (l : OverlayLeg W). (l.request.symbol, get_key l.request.symbol p.hedge_states)) legs
    if c.alerting then tell (c.world.alert req.symbol plan.overlay states) else pure tt

  -- `evaluate(req, snap, self._cfg, ref_price=leg.quote.premium, coverage_legs=coverage)`
  unfoldable pub leg_passes : OverlayLeg W → AccountSnapshot W → List (OrderRequest W) → Bool
  leg_passes leg snap coverage =
      (evaluate leg.request snap c.cfg (some leg.quote.premium) coverage).approved

  -- A leg that the gate passed.
  unfoldable pub submit_leg : OverlayLeg W → Action W S OrderAck
  submit_leg leg = do
    ack ← submit c.world leg.request
    record_order c leg.request leg.request.order_type (some leg.quote.premium) ack
    pure ack

  -- The body of the loop, for a hedge leg.
  unfoldable pub place_hedge :
      AccountSnapshot W
      → List (OrderRequest W)
      → (has_stock : Bool) → OverlayLeg W
      → Legs
      → Action W S Hedged
  place_hedge snap coverage has_stock leg p =
      if leg_passes leg snap coverage
      then (do
        ack ← submit_leg leg
        if is_failure ack.state
            then pure (stopped (leg_failed has_stock p.filled_long (outcome ack.state)))
            else (do
              confirmed ← confirm_hedge_fill ack
              pure (through (note_leg leg.request ack confirmed p))))
      else pure (stopped (leg_failed has_stock p.filled_long rejected_by_risk))

  unfoldable pub place_hedges :
      AccountSnapshot W
      → List (OrderRequest W)
      → (has_stock : Bool) → List (OverlayLeg W)
      → Legs
      → Action W S Hedged
  place_hedges snap coverage has_stock [] p = pure (through p)
  place_hedges snap coverage has_stock (leg ∷ legs) p = do
    r ← place_hedge snap coverage has_stock leg p
    elim r [
      | stopped action ↦ pure (stopped action)
      | through p' ↦ place_hedges snap coverage has_stock legs p'
    ]

  -- The body of the loop, for the stock leg, which comes last.
  unfoldable pub place_stock :
      OverlayPlan W
      → AccountSnapshot W
      → List (OrderRequest W)
      → Text
      → OverlayLeg W
      → Legs
      → Action W S TickAction
  place_stock plan snap coverage signal_id leg p =
      if leg_passes leg snap coverage
      then (do
        ack ← submit_leg leg
        if is_failure ack.state
            then pure (leg_failed false p.filled_long (outcome ack.state))
            else (do
              let exposed =
                  is_filled ack.state && any (λ l. is_hedge l && unconfirmed p l) plan.legs
              (if exposed
                  then handle_unhedged_stock plan leg.request leg.quote.premium signal_id p
                  else pure tt)
              pure overlay_placed))
      else pure (leg_failed false p.filled_long rejected_by_risk)

  -- From the coverage on.
  unfoldable pub place_legs : OverlayPlan W → AccountSnapshot W → Text → Action W S TickAction
  place_legs plan snap signal_id = do
    let coverage = map (λ (l : OverlayLeg W). l.request) (keep is_long_cover plan.legs)
    let stock = first (λ (l : OverlayLeg W). not (is_hedge l)) plan.legs
    r ← place_hedges snap coverage (is_some stock) (buys_first (keep is_hedge plan.legs)) no_legs
    elim r [
      | stopped action ↦ pure action
      | through p ↦ elim stock [
        | none ↦ pure overlay_placed
        | some leg ↦ place_stock plan snap coverage signal_id leg p
      ]
    ]

  -- From the plan on: the record of the signal, and the entry window for a plan that opens.
  unfoldable pub enter_overlay :
      Signal W → AccountSnapshot W → Text → OverlayPlan W → Action W S TickAction
  enter_overlay signal snap signal_id plan = do
    with_db (
        record_signal (record {
          symbol = signal.symbol;
          direction = signal.direction;
          confidence = signal.confidence;
          rationale = overlay_value plan.overlay ++ text ": " ++ signal.rationale;
          signal_id = signal_id;
        }))
    closed ← gets (λ st. gate_closed st.gate)
    if closed && any opens plan.legs then pure entry_closed else place_legs plan snap signal_id

  -- `_route_overlay`, for a signal whose overlay is set
  unfoldable pub route_overlay : OverlayType → Signal W → AccountSnapshot W → Action W S TickAction
  route_overlay overlay signal snap = do
    signal_id ← next_signal_id c
    provider ← gets (λ st. c.world.chain_provider st.outside)
    today ← gets (λ st. c.world.today st.outside)
    elim (build_overlay_plan overlay signal snap provider c.cfg signal_id today) [
      | raised ↦ raise Fault.not_finite
      | skipped reason ↦ pure (overlay_skipped reason)
      | planned plan ↦ enter_overlay signal snap signal_id plan
    ]
