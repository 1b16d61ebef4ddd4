-- ===== src/Engine/Route.antt =====
-- autotrader/main.py, `TradeEngine._route_signal`: a signal becomes an order, from the filter of its
-- confidence to the trailing stop of an entry.
use autotrader_ai.Prelude.{◌&&◌, Option, none, some, if◌then◌else◌}
use autotrader_ai.Prelude.Int.{ℤ, pos, leb_ℤ}
use autotrader_ai.Prelude.Text.{Text}
use autotrader_ai.Float.{Float, fzero, fixed_float}
use autotrader_ai.Engine.World.{Fault, Action, ◌>>=◌, ◌>>◌, pure, gets, with_db, from_option}
use autotrader_ai.Engine.Router.{client_order_id}
use autotrader_ai.Domain.{
  Side, OrderType, PositionEffect, OrderRequest, OrderAck, AccountSnapshot, gross_exposure, Signal,
}
use autotrader_ai.Risk.Core.{is_buy}
use autotrader_ai.Trading.Sizing.{size_position}
use autotrader_ai.Trading.Strategies.{held_qty}
use autotrader_ai.Db.Tables.{record_signal}
use autotrader_ai.Engine.Setup.{
  TickAction, dropped_low_confidence, entry_closed, sized_zero, rejected_by_risk, order_placed,
  Setup, gate_closed, outcome, position_of, new_order, order_kind, record_order, next_signal_id,
  passes,
}
use autotrader_ai.Engine.Escalation.{submit_with_escalation}
use autotrader_ai.Engine.Trailing.{attach_trailing_stop}
use autotrader_ai.Engine.Overlay.{route_overlay}

abbrev pub plain_order :
    {W : Type 0} → Text → Side → ℤ → OrderType → Option W → Text → OrderRequest W
plain_order symbol side qty kind px id = record {
  symbol = symbol;
  side = side;
  qty = qty;
  order_type = kind;
  limit_price = px;
  client_order_id = id;
  trail_percent = none;
  option = none;
  position_effect = PositionEffect.opening;
  correlation_id = none;
}

module _ {W S : Type 0} ⦃f : Float W⦄ (c : Setup W S) where
  -- The quantity of the sizer; none where it is zero.
  unfoldable pub sized_qty : Signal W → AccountSnapshot W → W → Action W S (Option ℤ)
  sized_qty signal snap price = do
    sr ← from_option Fault.not_finite (
        size_position snap.total_assets price signal.stop_price signal.confidence c.cfg
          (held_qty (position_of signal.symbol snap)) (gross_exposure snap) c.order_qty)
    pure (if sr.used_risk_sizing && leb_ℤ sr.qty (pos 0) then none else some sr.qty)

  -- A SELL of a position that is held liquidates it.
  unfoldable pub signal_qty : Signal W → AccountSnapshot W → W → Action W S (Option ℤ)
  signal_qty signal snap price = elim (position_of signal.symbol snap) [
    | none ↦ sized_qty signal snap price
    | some p ↦ if is_buy signal.direction then sized_qty signal snap price else pure (some p.qty)
  ]

  -- The stop of an entry that was placed.
  unfoldable pub protect_entry : Signal W → W → Text → ℤ → TickAction → Action W S TickAction
  protect_entry signal price signal_id qty order_placed =
      if is_buy signal.direction && f.lt fzero c.cfg.trailing_stop_pct
      then attach_trailing_stop c signal.symbol qty price signal_id >> pure order_placed
      else pure order_placed
  protect_entry signal price signal_id qty failed = pure failed

  -- What follows the answer: the row of the trade, and the stop.
  unfoldable pub settle_signal :
      Signal W → W → Text → OrderRequest W → OrderAck × OrderRequest W → Action W S TickAction
  settle_signal signal price signal_id req (ack, term) =
      record_order c req term.order_type term.limit_price ack
      >> protect_entry signal price signal_id req.qty (outcome ack.state)

  -- From the quantity on.
  unfoldable pub enter_signal : Signal W → AccountSnapshot W → W → Text → ℤ → Action W S TickAction
  enter_signal signal snap price signal_id qty = do
    kind ← order_kind c signal.direction price
    let id = client_order_id c.world signal.symbol signal.direction qty signal_id
    req ← new_order c (plain_order signal.symbol signal.direction qty kind.0 kind.1 id)
    if passes c req snap price
        then submit_with_escalation c req snap price >>= settle_signal signal price signal_id req
        else pure rejected_by_risk

  -- A signal without an overlay, past the entry window.
  unfoldable pub route_equity : Signal W → AccountSnapshot W → W → Action W S TickAction
  route_equity signal snap price = do
    signal_id ← next_signal_id c
    with_db (
        record_signal (record {
          symbol = signal.symbol;
          direction = signal.direction;
          confidence = signal.confidence;
          rationale = signal.rationale;
          signal_id = signal_id;
        }))
    qty ← signal_qty signal snap price
    elim qty [ none ↦ pure sized_zero | some q ↦ enter_signal signal snap price signal_id q ]

  unfoldable pub route_signal : Signal W → AccountSnapshot W → W → Action W S TickAction
  route_signal signal snap price =
      if f.lt signal.confidence c.cfg.min_confidence then pure dropped_low_confidence else (do
        closed ← gets (λ st. gate_closed st.gate)
        if is_buy signal.direction && closed then pure entry_closed else elim signal.overlay [
          | some overlay ↦ route_overlay c overlay signal snap
          | none ↦ route_equity signal snap price
        ])
