-- ===== src/Engine/Setup.antt =====
-- autotrader/main.py, lines 60 to 113 and the helpers of `TradeEngine`: what an engine is built with, and
-- the calls of its broker and its database that its methods share.
use autotrader_ai.Prelude.{
  ℕ, suc, Bool, false, not, Option, none, some, List, [], ◌∷◌, ◌++◌, if◌then◌else◌, any, first,
  null,
}
use autotrader_ai.Prelude.Int.{ℤ}
use autotrader_ai.Prelude.Text.{Text, text, text_eq, numbered}
use autotrader_ai.Float.{Float, fixed_float}
use autotrader_ai.Domain.{
  Side, OrderType, OrderState, OrderRequest, check_order, OrderAck, Position, AccountSnapshot,
  Signal,
}
use autotrader_ai.Config.{RiskConfig}
use autotrader_ai.Risk.Core.{evaluate}
use autotrader_ai.Session.Gate.{EntryGate, entries_enabled}
use autotrader_ai.Trading.Pricing.{capped_limit_price}
use autotrader_ai.Options.Planner.{SkipReason}
use autotrader_ai.Db.Tables.{record_trade}
use autotrader_ai.Engine.World.{
  Fault, ok, err, Outside, account, cancelled, Action, ◌>>=◌, pure, raise, ask, with_db,
  from_option, try_broker,
}

-- The action of a `TickResult`; its detail, a text, is left out.
pub data TickAction : Type 0 where
  halted strategy_disabled no_quote no_signal dropped_low_confidence : TickAction
  entry_closed entry_deferred sized_zero rejected_by_risk : TickAction
  order_unknown order_rejected order_placed : TickAction
  overlay_skipped : SkipReason → TickAction
  overlay_hedge_unplaceable overlay_residual_long overlay_placed : TickAction

-- The arguments of the constructor. The outer option of the strategy is the exception of a division.
pub record Setup (W S : Type 0) : Type 0 where
  pub world : Outside W S
  pub cfg : RiskConfig W
  pub strategy_symbol : Text
  pub strategy : W → Option (Position W) → Option W → Option (Option (Signal W))
  pub strategy_enabled : Bool
  pub order_qty : ℤ
  pub session_id : Text
  pub snapshot_cache_ticks : ℤ
  pub has_reference : Bool
  pub lookback : ℤ
  pub hedge_confirm_attempts : ℕ
  pub alerting : Bool

abbrev pub side_text : Side → Text
side_text Side.buy = text "BUY"
side_text Side.sell = text "SELL"

-- `self._gate is not None and self._gate.halted`
abbrev pub gate_halted : Option EntryGate → Bool
gate_halted none = false
gate_halted (some g) = g.halted

-- `self._gate is not None and not self._gate.entries_enabled`
abbrev pub gate_closed : Option EntryGate → Bool
gate_closed none = false
gate_closed (some g) = not (entries_enabled g)

-- `ack.client_order_id in {o.client_order_id for o in open_orders}`
abbrev pub listed : OrderAck → List OrderAck → Bool
listed ack = any λ (o : OrderAck). text_eq o.client_order_id ack.client_order_id

-- What a submitted order's state is reported as.
unfoldable pub outcome : OrderState → TickAction
outcome OrderState.unknown = order_unknown
outcome OrderState.rejected = order_rejected
outcome _ = order_placed

unfoldable pub position_of : {W : Type 0} → Text → AccountSnapshot W → Option (Position W)
position_of symbol snap = first (λ (p : Position _). text_eq p.symbol symbol) snap.positions

module _ {W S : Type 0} ⦃f : Float W⦄ (c : Setup W S) where
  unfoldable pub read_account : Action W S (AccountSnapshot W)
  read_account st =
      let (r, s) = c.world.get_account st.outside in
      elim r [
        | ok snap ↦ (ok snap, record st { outside = s; log = account snap ∷ st.log })
        | err e ↦ (err e, record st { outside = s })
      ]

  unfoldable pub get_quote : Text → Action W S (Option W)
  get_quote symbol = ask (c.world.get_quote symbol)

  -- `OrderRequest(...)`, whose constructor may raise
  unfoldable pub new_order : OrderRequest W → Action W S (OrderRequest W)
  new_order req = elim (check_order req) [ none ↦ pure req | some _ ↦ raise Fault.bad_value ]

  -- `_order_kind`
  unfoldable pub order_kind : Side → W → Action W S (OrderType × Option W)
  order_kind side ref_price =
      if not c.cfg.limit_orders_enabled then pure (OrderType.market, none) else (do
        px ← from_option Fault.not_finite (capped_limit_price side ref_price c.cfg)
        pure (OrderType.limit, some px))

  unfoldable pub cancel : Text → Action W S (Unit {0})
  cancel id st =
      let (r, s) = c.world.cancel_order id st.outside in
      elim r [
        | ok u ↦ (ok u, record st { outside = s; log = cancelled id ∷ st.log })
        | err e ↦ (err e, record st { outside = s })
      ]

  -- `_order_working`: none where the query failed
  unfoldable pub order_working : OrderAck → Action W S (Option Bool)
  order_working ack = do
    orders ← ask c.world.get_open_orders
    pure (elim orders [ none ↦ none | some os ↦ some (listed ack os) ])

  -- `_cancel_for_escalation`
  unfoldable pub cancel_for_escalation : OrderAck → Action W S Bool
  cancel_for_escalation ack = elim ack.broker_order_id [
    | none ↦ pure false
    | some id ↦ if null id then pure false else try_broker (cancel id)
  ]

  -- the row of an order, with the type and the price of the request that was answered
  unfoldable pub record_order :
      OrderRequest W → OrderType → Option W → OrderAck → Action W S (Unit {0})
  record_order req kind px ack = with_db (
      record_trade (record {
        client_order_id = ack.client_order_id;
        symbol = req.symbol;
        side = req.side;
        qty = req.qty;
        order_type = kind;
        limit_price = px;
        broker_order_id = ack.broker_order_id;
        state = ack.state;
      }))

  -- the counter of the session, and the id made of it
  unfoldable pub next_signal_id : Action W S Text
  next_signal_id st =
      let seq = suc st.signal_seq in
      (ok (numbered (text "sig-" ++ c.session_id ++ text "-") seq), record st { signal_seq = seq })

  -- `evaluate(req, snap, self._cfg, ref_price=px).approved`
  unfoldable pub passes : OrderRequest W → AccountSnapshot W → W → Bool
  passes req snap px = (evaluate req snap c.cfg (some px) []).approved
