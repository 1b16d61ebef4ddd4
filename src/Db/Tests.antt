-- ===== src/Db/Tests.antt =====
-- Rows at which the theorems on the projection are applied.
use autotrader_ai.Prelude.{List, ◌≡◌, refl, none, some, [], ◌∷◌, ◌++◌, keep}
use autotrader_ai.Prelude.Int.{pos}
use autotrader_ai.Prelude.Text.{Text, text, text_eq, text_lt, upper, contains}
use autotrader_ai.Float.{Fixed, fixed_float}
use autotrader_ai.Domain.{Side, OrderType, OrderState, OrderAck, Fill}
use autotrader_ai.Db.Tables.{
  TradeRow, Tables, record_fills, replace_positions, open_trailing_stop_ids, mark_order_cancelled,
  insert_fills,
}
use autotrader_ai.Db.Mirror.{row_of, latest, replace_positions_mirror}
use autotrader_ai.Db.Sync.{open_ids, reconcile_open_orders, sweep, reconcile_open_orders_lem}
use autotrader_ai.Db.Targets.{
  WeightRow, upsert_target_weights, insert_weights, latest_target_weights, row_for, latest-upsert,
}
use autotrader_ai.Fixtures.{amount, aapl, msft, holding}

abbrev fill_1 : Fill Fixed
fill_1 = record {
  fill_id = text "f1";
  symbol = aapl;
  side = Side.buy;
  qty = amount 10;
  price = amount 100;
  ts = text "2026-07-01";
}

abbrev stop_row : Text → TradeRow Fixed
stop_row b = record {
  client_order_id = text "stop-" ++ b;
  symbol = aapl;
  side = Side.sell;
  qty = pos 10;
  order_type = OrderType.trailing_stop;
  limit_price = none;
  broker_order_id = some b;
  state = OrderState.submitted;
}

abbrev tables : Tables Fixed
tables = record {
  signals = [];
  trades = stop_row (text "7") ∷ stop_row (text "8") ∷ [];
  fills = [];
  positions = holding aapl (pos 5) 90 ∷ holding msft (pos 3) 300 ∷ [];
  drivers = [];
  performance = [];
  halts = [];
  engine_state = [];
}

abbrev ack_8 : OrderAck
ack_8 = record {
  client_order_id = text "stop-8";
  broker_order_id = some (text "8");
  state = OrderState.submitted;
}

one_fill : (record_fills (fill_1 ∷ fill_1 ∷ []) tables).1 ≡ 1
unfolding record_fills insert_fills text_eq
one_fill = refl

only_8_open :
    open_trailing_stop_ids (reconcile_open_orders (some (ack_8 ∷ [])) tables).0 ≡ text "8" ∷ []
unfolding reconcile_open_orders sweep open_trailing_stop_ids mark_order_cancelled contains text_eq
only_8_open = refl

replace_positions_mirror_example :
    row_of msft (replace_positions (holding aapl (pos 9) 95 ∷ []) tables).positions
    ≡ latest msft (holding aapl (pos 9) 95 ∷ []) none
replace_positions_mirror_example =
    replace_positions_mirror msft (holding aapl (pos 9) 95 ∷ []) tables

reconcile_open_orders_lem_example :
    (open_trailing_stop_ids (reconcile_open_orders (some (ack_8 ∷ [])) tables).0
      ≡ keep (λ i. contains i (open_ids (ack_8 ∷ []))) (open_trailing_stop_ids tables))
    × (reconcile_open_orders none tables ≡ (tables, 0))
reconcile_open_orders_lem_example = reconcile_open_orders_lem (ack_8 ∷ []) tables

abbrev old_weights : List (WeightRow Fixed)
old_weights =
    row_for (text "t0") (text "2026-06-30") (aapl, amount 1)
    ∷ row_for (text "t1") (text "2026-07-01") (msft, amount 2)
    ∷ []

latest-upsert_example :
    latest_target_weights
      (upsert_target_weights
        (text "t2")
        (text "2026-07-01")
        ((text "us.aapl", amount 3) ∷ [])
        old_weights).0
    ≡ some (record {
      as_of = text "2026-07-01";
      stamp = text "t2";
      scores = (upper (text "us.aapl"), amount 3) ∷ [];
    })
unfolding upsert_target_weights insert_weights text_eq text_lt upper
latest-upsert_example =
    latest-upsert (text "t2") (text "2026-07-01") (text "us.aapl", amount 3) [] old_weights
      (refl, (refl, tt)) refl
