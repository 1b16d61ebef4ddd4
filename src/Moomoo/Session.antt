-- ===== src/Moomoo/Session.antt =====
-- autotrader/moomoo_broker.py: sequences of calls of the adapter, wherever a call raises.
use autotrader_ai.Prelude.{Option, none, some, List, [], ◌∷◌, null}
use autotrader_ai.Prelude.Text.{Text}
use autotrader_ai.Float.{Float, fixed_float}
use autotrader_ai.Domain.{OrderRequest, OrderAck}
use autotrader_ai.Engine.World.{Fault, Result, ok, err}
use autotrader_ai.Moomoo.World.{Meter, Sdk, Link, Ask, ◌>>◌, pure, attempt}
use autotrader_ai.Moomoo.Orders.{
  kind_of, place_order, cancel_order, settled, get_open_orders, cancel_ack, cancel_acks, cancel_all,
}
use autotrader_ai.Moomoo.Account.{
  get_positions, account_row, with_positions, get_account, fills_from_orders, reconcile_fills,
}
use autotrader_ai.Moomoo.Metered.{
  IsMetered, Keeps, Keeps-pure, Keeps-raise, Keeps-attempt, Keeps-if, Keeps-bind, Keeps-raising,
  Keeps-elim, Keeps-token, Keeps-metered, Uses-elim, Uses-called, Uses-Keeps, keeps_rules,
}

pub data BrokerCall (W : Type 0) : Type 0 where
  placing : OrderRequest W → BrokerCall W
  cancel_id : Text → BrokerCall W
  cancel_every : BrokerCall W
  open_orders : BrokerCall W
  account : BrokerCall W
  fills : Option Text → BrokerCall W

module _ {W S R : Type 0} ⦃f : Float W⦄ (c : Sdk W S R) where
  -- A call, whose answer or exception the caller deals with.
  unfoldable pub run_broker_call : BrokerCall W → Ask W S (Unit {0})
  run_broker_call (placing req) = attempt (place_order c req) >> pure tt
  run_broker_call (cancel_id boid) = attempt (cancel_order c boid) >> pure tt
  run_broker_call cancel_every = attempt (cancel_all c) >> pure tt
  run_broker_call open_orders = attempt (get_open_orders c) >> pure tt
  run_broker_call account = attempt (get_account c) >> pure tt
  run_broker_call (fills since) = attempt (reconcile_fills c since) >> pure tt

  unfoldable pub run_broker_calls : List (BrokerCall W) → Ask W S (Unit {0})
  unfolding run_broker_call
  run_broker_calls [] = pure tt
  run_broker_calls (x ∷ xs) = run_broker_call x >> run_broker_calls xs

  place_order-Keeps : (req : OrderRequest W) → Keeps (place_order c req)
  unfolding place_order
  place_order-Keeps req = Keeps-token c Meter.order_meter _ (Keeps-raise Fault.broker_error) (
      Uses-elim Meter.order_meter (kind_of req) _ _ (Uses-Keeps _ _ (Keeps-raise Fault.bad_value))
        (λ kind. Uses-called Meter.order_meter _ _ (λ answer. Keeps-pure _)))

  cancel_order-Keeps : (boid : Text) → Keeps (cancel_order c boid)
  unfolding cancel_order
  cancel_order-Keeps boid = search keeps_rules

  get_open_orders-Keeps : Keeps (get_open_orders c)
  unfolding get_open_orders
  get_open_orders-Keeps = search keeps_rules

  settled-Keeps : {A : Type 0} (r : Result A) → Keeps {W = W} {S = S} (settled r)
  unfolding settled
  settled-Keeps (ok a) = Keeps-pure tt
  settled-Keeps (err Fault.broker_error) = Keeps-pure tt
  settled-Keeps (err e) = Keeps-raise e

  cancel_ack-Keeps : (ack : OrderAck) → Keeps (cancel_ack c ack)
  unfolding cancel_ack
  cancel_ack-Keeps ack = Keeps-elim ack.broker_order_id _ _ (Keeps-pure tt) (λ boid.
      Keeps-if (null boid) _ _ (Keeps-pure tt)
        (Keeps-bind _ _ (Keeps-attempt _ (cancel_order-Keeps boid)) settled-Keeps))

  cancel_acks-Keeps : (acks : List OrderAck) → Keeps (cancel_acks c acks)
  unfolding cancel_acks
  cancel_acks-Keeps [] = Keeps-pure tt
  cancel_acks-Keeps (ack ∷ acks) =
      Keeps-bind _ _ (cancel_ack-Keeps ack) (λ _. cancel_acks-Keeps acks)

  cancel_all-Keeps : Keeps (cancel_all c)
  unfolding cancel_all
  cancel_all-Keeps =
      Keeps-bind _ _ get_open_orders-Keeps
        (λ orders. Keeps-elim orders _ _ (Keeps-pure tt) cancel_acks-Keeps)

  get_positions-Keeps : Keeps (get_positions c)
  unfolding get_positions
  get_positions-Keeps = search keeps_rules

  account_row-Keeps : (rows : Option (List R)) → Keeps {W = W} {S = S} (account_row c rows)
  unfolding account_row
  account_row-Keeps none = Keeps-raise Fault.broker_error
  account_row-Keeps (some []) = Keeps-raise Fault.broker_fault
  account_row-Keeps (some (row ∷ rows)) = Keeps-pure row

  get_account-Keeps : Keeps (get_account c)
  unfolding get_account with_positions
  get_account-Keeps =
      Keeps-metered c Meter.refresh_meter _ _ _ (Keeps-raise Fault.broker_error) (λ r.
        Keeps-raising _ r (λ rows.
          Keeps-bind _ _ (account_row-Keeps rows)
            (λ row. Keeps-bind _ _ get_positions-Keeps (λ ps. Keeps-pure _))))

  reconcile_fills-Keeps : (since : Option Text) → Keeps (reconcile_fills c since)
  unfolding reconcile_fills fills_from_orders
  reconcile_fills-Keeps since = search keeps_rules

  run_broker_call-Keeps : (x : BrokerCall W) → Keeps (run_broker_call x)
  unfolding run_broker_call
  run_broker_call-Keeps (placing req) = search (keeps_rules, place_order-Keeps)
  run_broker_call-Keeps (cancel_id boid) = search (keeps_rules, cancel_order-Keeps)
  run_broker_call-Keeps cancel_every = search (keeps_rules, cancel_all-Keeps)
  run_broker_call-Keeps open_orders = search (keeps_rules, get_open_orders-Keeps)
  run_broker_call-Keeps account = search (keeps_rules, get_account-Keeps)
  run_broker_call-Keeps (fills since) = search (keeps_rules, reconcile_fills-Keeps)

  run_broker_calls-Keeps : (xs : List (BrokerCall W)) → Keeps (run_broker_calls xs)
  unfolding run_broker_calls
  run_broker_calls-Keeps [] = Keeps-pure tt
  run_broker_calls-Keeps (x ∷ xs) =
      Keeps-bind _ _ (run_broker_call-Keeps x) (λ _. run_broker_calls-Keeps xs)

  -- Whatever the SDK answers and wherever a call raises, every order and every query of the account,
  -- the positions, the orders and the deals that a sequence of calls of the adapter sends comes
  -- directly after a token that was taken for it, of the bucket of its kind; two never share one.
  pub run_broker_calls-IsMetered :
      (xs : List (BrokerCall W)) (l : Link W S)
      → IsMetered l.log
      → IsMetered (run_broker_calls xs l).1.log
  run_broker_calls-IsMetered xs l h = (run_broker_calls-Keeps xs).apply l h
