-- ===== src/Moomoo/Orders.antt =====
-- autotrader/moomoo_broker.py, lines 34 to 42 and 250 to 327: the orders.
use mathlib.Core.Option.{map as map_option}
use autotrader_ai.Prelude.{
  Bool, true, false, Option, none, some, List, [], ◌∷◌, if◌then◌else◌, or_default, null, not, take,
  ◌++◌,
}
use autotrader_ai.Prelude.Text.{Text, text, upper}
use autotrader_ai.Float.{Float, fixed_float}
use autotrader_ai.Domain.{OrderType, OrderState, OrderRequest, OrderAck}
use autotrader_ai.Rebalance.{get_key}
use autotrader_ai.Engine.World.{Fault, Result, ok, err}
use autotrader_ai.Moomoo.World.{
  Meter, OrderKind, Ticket, Sdk, Ask, cancelling, ◌>>=◌, ◌>>◌, pure, raise, ask, note, attempt,
  acquire_token, called, metered, raising,
}

-- `_STATUS_MAP`
abbrev pub status_map : List (Text × OrderState)
status_map =
    (text "SUBMITTED", OrderState.submitted)
    ∷ (text "SUBMITTING", OrderState.pending)
    ∷ (text "WAITING_SUBMIT", OrderState.pending)
    ∷ (text "FILLED_ALL", OrderState.filled)
    ∷ (text "FILLED_PART", OrderState.partial)
    ∷ (text "CANCELLED_ALL", OrderState.cancelled)
    ∷ (text "CANCELLED_PART", OrderState.cancelled)
    ∷ (text "FAILED", OrderState.rejected)
    ∷ (text "DISABLED", OrderState.rejected)
    ∷ (text "DELETED", OrderState.cancelled)
    ∷ []

-- `status_map.get(status, UNKNOWN)`
unfoldable pub state_of : Text → OrderState
unfolding get_key
state_of status = or_default (get_key status status_map) OrderState.unknown

-- PENDING, SUBMITTED or PARTIAL
unfoldable pub is_working : OrderState → Bool
is_working OrderState.pending = true
is_working OrderState.submitted = true
is_working OrderState.partial = true
is_working _ = false

abbrev named : {W : Type 0} → OrderRequest W → Option Text → OrderState → OrderAck
named req boid state = record {
  client_order_id = req.client_order_id;
  broker_order_id = boid;
  state = state;
}

-- What the SDK answers to an order, for the request it was made of; `none` where it raised or gave
-- another code than RET_OK.
unfoldable pub ack_from :
    {W R : Type 0} → OrderRequest W → (R → Text) → Result (Option R) → OrderAck
ack_from req id_of (err e) = named req none OrderState.unknown
ack_from req id_of (ok none) = named req none OrderState.rejected
ack_from req id_of (ok (some row)) = named req (some (id_of row)) OrderState.submitted

-- The kind of an order with its figure; `none` where `float(None)` raises.
unfoldable pub kind_of : {W : Type 0} → OrderRequest W → Option (OrderKind W)
kind_of req = elim req.order_type [
  | OrderType.market ↦ some OrderKind.market
  | OrderType.trailing_stop ↦ map_option OrderKind.trailing req.trail_percent
  | OrderType.limit ↦ map_option OrderKind.normal req.limit_price
]

-- `except BrokerError: pass`
unfoldable pub settled : {W S A : Type 0} → Result A → Ask W S (Unit {0})
settled (ok a) = pure tt
settled (err Fault.broker_error) = pure tt
settled (err e) = raise e

module _ {W S R : Type 0} ⦃f : Float W⦄ (c : Sdk W S R) where
  unfoldable pub ticket_of : OrderRequest W → OrderKind W → Ticket W
  ticket_of req kind = record {
    qty = req.qty;
    code = req.symbol;
    side = req.side;
    remark = take 64 req.client_order_id;
    kind = kind;
  }

  -- The arguments are put together between the token and the call.
  unfoldable pub place_order : OrderRequest W → Ask W S OrderAck
  unfolding kind_of
  place_order req = do
    got ← acquire_token c Meter.order_meter
    if not got then raise Fault.broker_error else (elim (kind_of req) [
      | none ↦ raise Fault.bad_value
      | some kind ↦ called Meter.order_meter (c.place_order (ticket_of req kind)) λ answer.
          pure (ack_from req (λ row. c.text_at row (text "order_id" ∷ text "orderID" ∷ [])) answer)
    ])

  -- Raises what the SDK raises, and BrokerError where it answers another code.
  unfoldable pub cancel_order : Text → Ask W S (Unit {0})
  cancel_order broker_order_id = do
    note (cancelling broker_order_id)
    taken ← ask (c.cancel_order broker_order_id)
    if taken then pure tt else raise Fault.broker_error

  -- The row as a working order, or nothing.
  unfoldable pub open_row : R → List OrderAck
  unfolding state_of is_working
  open_row row =
      let state = state_of (upper (c.enum_at row (text "order_status" ∷ []) (text ""))) in
      if is_working state
      then (record {
        client_order_id = c.text_at row (text "remark" ∷ []);
        broker_order_id = some (c.text_at row (text "order_id" ∷ []));
        state = state;
      })
        ∷ []
      else []

  unfoldable pub open_rows : List R → List OrderAck
  unfolding open_row
  open_rows [] = []
  open_rows (row ∷ rows) = open_row row ++ open_rows rows

  -- `none` where the book is unknown.
  unfoldable pub get_open_orders : Ask W S (Option (List OrderAck))
  get_open_orders =
      metered c Meter.refresh_meter c.order_list (pure none)
        (raising λ rows. pure (elim rows [ none ↦ none | some rs ↦ some (open_rows rs) ]))

  -- `if ack.broker_order_id:` with `except BrokerError: pass`
  unfoldable pub cancel_ack : OrderAck → Ask W S (Unit {0})
  cancel_ack ack = elim ack.broker_order_id [
    | none ↦ pure tt
    | some boid ↦ if null boid then pure tt else (attempt (cancel_order boid) >>= settled)
  ]

  unfoldable pub cancel_acks : List OrderAck → Ask W S (Unit {0})
  cancel_acks [] = pure tt
  cancel_acks (ack ∷ acks) = cancel_ack ack >> cancel_acks acks

  unfoldable pub cancel_all : Ask W S (Unit {0})
  cancel_all = do
    orders ← get_open_orders
    elim orders [ none ↦ pure tt | some acks ↦ cancel_acks acks ]
