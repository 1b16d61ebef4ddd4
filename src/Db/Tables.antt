-- ===== src/Db/Tables.antt =====
-- autotrader/db.py: the tables of the projection as lists of rows, oldest first, and the methods that
-- read and write them. The time stamps that the methods add are left out; a row keeps its place by
-- the order of its id. `INSERT OR REPLACE` deletes the row with the key and adds the new one.
use autotrader_ai.Prelude.{
  ℕ, suc, ◌+◌, ◌==◌, length, Bool, true, false, not, ◌&&◌, Option, none, some, List, [], ◌∷◌, ◌++◌,
  map, if◌then◌else◌, or_default, is_some, keep, any, first,
}
use autotrader_ai.Prelude.Int.{ℤ}
use autotrader_ai.Prelude.Text.{Text, text_eq, contains}
use autotrader_ai.Float.{fixed_float}
use autotrader_ai.Domain.{Side, side_eq, OrderType, OrderState, Fill, Position}

pub record TradeRow (W : Type 0) : Type 0 where
  pub client_order_id : Text
  pub symbol : Text
  pub side : Side
  pub qty : ℤ
  pub order_type : OrderType
  pub limit_price : Option W
  pub broker_order_id : Option Text
  pub state : OrderState

pub record SignalRow (W : Type 0) : Type 0 where
  pub symbol : Text
  pub direction : Side
  pub confidence : W
  pub rationale : Text
  pub signal_id : Text

pub record DriverRow : Type 0 where
  pub symbol : Text
  pub side : Side
  pub kind : Text
  pub detail : Text

-- A halt, and whether it has a time of resolution.
pub record HaltRow : Type 0 where
  pub id : ℕ
  pub reason : Text
  pub resolved : Bool

-- `gross_exposure` is none where the table has NULL.
pub record PerformanceRow (W : Type 0) : Type 0 where
  pub date : Text
  pub day_pnl : W
  pub total_assets : W
  pub cash : W
  pub gross_exposure : Option W
  pub unrealized_pnl : W

pub record Tables (W : Type 0) : Type 0 where
  pub signals : List (SignalRow W)
  pub trades : List (TradeRow W)
  pub fills : List (Fill W)
  pub positions : List (Position W)
  pub drivers : List DriverRow
  pub performance : List (PerformanceRow W)
  pub halts : List HaltRow
  pub engine_state : List (Text × Text)

-- `state IN ('SUBMITTED','PARTIAL')`
abbrev pub is_working : OrderState → Bool
is_working OrderState.submitted = true
is_working OrderState.partial = true
is_working _ = false

abbrev pub is_trailing : OrderType → Bool
is_trailing OrderType.trailing_stop = true
is_trailing _ = false

module _ {W : Type 0} where
  -- `INSERT OR IGNORE`, on the unique signal id
  unfoldable pub record_signal : SignalRow W → Tables W → Tables W
  record_signal row t =
      if any (λ (r : SignalRow W). text_eq r.signal_id row.signal_id) t.signals
      then t
      else record t { signals = t.signals ++ row ∷ [] }

  unfoldable pub record_driver : DriverRow → Tables W → Tables W
  record_driver row t = record t { drivers = t.drivers ++ row ∷ [] }

  -- `INSERT OR REPLACE`, on the unique client order id
  unfoldable pub record_trade : TradeRow W → Tables W → Tables W
  record_trade row t = record t {
    trades =
        keep (λ (r : TradeRow W). not (text_eq r.client_order_id row.client_order_id)) t.trades
        ++ row ∷ [];
  }

  -- One `INSERT OR IGNORE` of a fill: the rows and the count of rows inserted.
  unfoldable pub insert_fill : Fill W → List (Fill W) → List (Fill W) × ℕ
  insert_fill x rows =
      if any (λ (r : Fill W). text_eq r.fill_id x.fill_id) rows
      then (rows, 0)
      else (rows ++ x ∷ [], 1)

  unfoldable pub insert_fills : List (Fill W) → List (Fill W) → List (Fill W) × ℕ
  unfolding insert_fill
  insert_fills [] rows = (rows, 0)
  insert_fills (x ∷ xs) rows =
      let (rows', n) = insert_fill x rows in
      let (rows'', m) = insert_fills xs rows' in (rows'', n + m)

  unfoldable pub record_fills : List (Fill W) → Tables W → Tables W × ℕ
  record_fills xs t = let (rows, n) = insert_fills xs t.fills in (record t { fills = rows }, n)

  -- One `INSERT OR REPLACE` of a position, on its symbol.
  unfoldable pub put_position : Position W → List (Position W) → List (Position W)
  put_position p rows = keep (λ (r : Position W). not (text_eq r.symbol p.symbol)) rows ++ p ∷ []

  unfoldable pub put_positions : List (Position W) → List (Position W) → List (Position W)
  put_positions [] rows = rows
  put_positions (p ∷ ps) rows = put_positions ps (put_position p rows)

  -- The upserts, and the deletion of every symbol that the snapshot lacks.
  unfoldable pub replace_positions : List (Position W) → Tables W → Tables W
  replace_positions ps t = record t {
    positions =
        keep (λ (r : Position W). contains r.symbol (map (λ (p : Position W). p.symbol) ps))
          (put_positions ps t.positions);
  }

  -- `INSERT OR REPLACE`, on the date; no exposure is kept where the positions did not load
  unfoldable pub record_performance : PerformanceRow W → Bool → Tables W → Tables W
  record_performance row positions_loaded t = record t {
    performance =
        keep (λ (r : PerformanceRow W). not (text_eq r.date row.date)) t.performance
        ++ (if positions_loaded then row else record row { gross_exposure = none }) ∷ [];
  }

  -- Rows are never deleted, so that the ids count them from one.
  unfoldable pub record_halt : Text → Tables W → Tables W × ℕ
  record_halt reason t =
      let id = suc (length t.halts) in
      (
        record t { halts = t.halts ++ record { id = id; reason = reason; resolved = false } ∷ [] },
        id,
      )

  unfoldable pub resolve_halt : ℕ → Tables W → Tables W
  resolve_halt id t = record t {
    halts = map (λ (r : HaltRow). if r.id == id then record r { resolved = true } else r) t.halts;
  }

  -- A working trailing stop that sells, with a broker id.
  abbrev pub open_stop : TradeRow W → Bool
  open_stop r =
      is_trailing r.order_type
      && side_eq r.side Side.sell
      && is_working r.state
      && is_some r.broker_order_id

  -- `ORDER BY id DESC LIMIT 1`
  unfoldable pub newest : (TradeRow W → Bool) → List (TradeRow W) → Option (TradeRow W)
  newest p [] = none
  newest p (r ∷ rs) = elim (newest p rs) [ some x ↦ some x | none ↦ if p r then some r else none ]

  abbrev pub broker_id_is : Text → TradeRow W → Bool
  broker_id_is boid r = elim r.broker_order_id [ none ↦ false | some b ↦ text_eq b boid ]

  unfoldable pub get_open_trailing_stop : Text → Tables W → Option Text
  get_open_trailing_stop symbol t =
      elim (newest (λ r. text_eq r.symbol symbol && open_stop r) t.trades) [
        | none ↦ none
        | some r ↦ r.broker_order_id
      ]

  unfoldable pub get_trade_by_broker_order_id : Text → Tables W → Option (TradeRow W)
  get_trade_by_broker_order_id boid t = newest (broker_id_is boid) t.trades

  abbrev pub cancel_row : Text → TradeRow W → TradeRow W
  cancel_row boid r = if broker_id_is boid r then record r { state = OrderState.cancelled } else r

  unfoldable pub mark_order_cancelled : Text → Tables W → Tables W
  mark_order_cancelled boid t = record t { trades = map (cancel_row boid) t.trades }

  -- the broker ids of the open stops
  abbrev pub stop_ids : List (TradeRow W) → List Text
  stop_ids [] = []
  stop_ids (r ∷ rs) =
      if open_stop r then or_default r.broker_order_id [] ∷ stop_ids rs else stop_ids rs

  unfoldable pub open_trailing_stop_ids : Tables W → List Text
  open_trailing_stop_ids t = stop_ids t.trades

  -- engine_state
  unfoldable pub get_state : Text → Tables W → Option Text
  get_state key t = elim (first (λ (e : Text × Text). text_eq e.0 key) t.engine_state) [
    | none ↦ none
    | some e ↦ some e.1
  ]

  unfoldable pub delete_state : Text → Tables W → Tables W
  delete_state key t = record t {
    engine_state = keep (λ (e : Text × Text). not (text_eq e.0 key)) t.engine_state;
  }

  unfoldable pub set_state : Text → Text → Tables W → Tables W
  set_state key value t = record t {
    engine_state =
        keep (λ (e : Text × Text). not (text_eq e.0 key)) t.engine_state ++ (key, value) ∷ [];
  }
