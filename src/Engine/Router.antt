-- ===== src/Engine/Router.antt =====
-- autotrader/router.py: the only path to `place_order`. The locks serialise the calls of `submit`; here
-- they come one after the other.
use autotrader_ai.Prelude.{none, some, ◌∷◌, ◌++◌, if◌then◌else◌}
use autotrader_ai.Prelude.Int.{ℤ}
use autotrader_ai.Prelude.Text.{Text, text}
use autotrader_ai.Float.{fixed_float}
use autotrader_ai.Domain.{Side, OrderState, OrderRequest, OrderAck}
use autotrader_ai.Rebalance.{get_key, set_key}
use autotrader_ai.Engine.World.{
  Fault, ok, err, Outside, Event, intent, placed, acked, Action, ◌>>=◌, ◌>>◌,
}

module _ {W S : Type 0} (o : Outside W S) where
  -- `make_client_order_id`
  unfoldable pub client_order_id : Text → Side → ℤ → Text → Text
  client_order_id symbol side qty signal_id = text "at-" ++ o.digest symbol side qty signal_id

  -- One line of the audit file.
  unfoldable pub audit : Event W → Action W S (Unit {0})
  audit line st =
      let (written, s) = o.append_audit st.outside in
      if written
      then (ok tt, record st { outside = s; log = line ∷ st.log })
      else (err Fault.audit_failed, record st { outside = s })

  unfoldable pub remember : Text → OrderAck → Action W S OrderAck
  remember id ack st = (ok ack, record st { seen = set_key id ack st.seen })

  -- `place_order`, with an exception taken as an order in an unknown state
  unfoldable pub place : OrderRequest W → Action W S OrderAck
  place req st =
      let (r, s) = o.place_order req st.outside in
      let st' = record st { outside = s; log = placed req ∷ st.log } in
      let lost : OrderAck = record {
        client_order_id = req.client_order_id;
        broker_order_id = none;
        state = OrderState.unknown;
      } in
      elim r [ ok ack ↦ (ok ack, st') | err e ↦ (ok lost, st') ]

  -- What follows the answer of the broker.
  unfoldable pub answered : OrderRequest W → OrderAck → Action W S OrderAck
  answered req ack = do
    audit (acked req.client_order_id ack.state)
    remember req.client_order_id ack

  unfoldable pub submit_new : OrderRequest W → Action W S OrderAck
  submit_new req = do audit (intent req.client_order_id); ack ← place req; answered req ack

  unfoldable pub submit : OrderRequest W → Action W S OrderAck
  submit req st = elim (get_key req.client_order_id st.seen) [
    | some ack ↦ (ok ack, st)
    | none ↦ submit_new req st
  ]
