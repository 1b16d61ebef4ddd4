-- ===== src/Stops/Tests.antt =====
-- A book of two orders: the stop of a held long, and one that the tables do not know.
use autotrader_ai.Prelude.{
  ℕ, ◌+◌, ◌≤◌, ◌≡◌, refl, Bool, false, none, some, List, [], ◌∷◌, ◌++◌, All, length,
}
use autotrader_ai.Prelude.Int.{pos}
use autotrader_ai.Prelude.Tally.{tally}
use autotrader_ai.Prelude.Text.{Text, text, text_eq, contains}
use autotrader_ai.Float.{Fixed, fixed_float}
use autotrader_ai.Domain.{Side, OrderType, OrderState, OrderAck, is_option_symbol, match_opt_suffix}
use autotrader_ai.Db.Tables.{Tables, newest, get_trade_by_broker_order_id, mark_order_cancelled}
use autotrader_ai.Engine.World.{
  ok, cancelled, State, ◌>>=◌, pure, gets, from_option, with_db, try_broker, caught,
}
use autotrader_ai.Engine.Setup.{cancel}
use autotrader_ai.Engine.Tests.{fresh}
use autotrader_ai.Engine.Runs.{setup}
use autotrader_ai.Stops.Orphans.{held_longs, guards, protects, orphan_ids}
use autotrader_ai.Stops.Reconcile.{stored, sweep_order, sweep_orders}
use autotrader_ai.Stops.Sweep.{
  log_taken, mark_all, Counts, sweep_orders_lem, orphans, sweep_orders_complete,
}
use autotrader_ai.Fixtures.{aapl, account_after}

abbrev working : Text → OrderAck
working b = record {
  client_order_id = text "stop-" ++ b;
  broker_order_id = some b;
  state = OrderState.submitted;
}

abbrev book : List OrderAck
book = working (text "7") ∷ working (text "9") ∷ []

abbrev tables : Tables Fixed
tables = record {
  signals = [];
  trades =
      record {
        client_order_id = text "stop-7";
        symbol = aapl;
        side = Side.sell;
        qty = pos 200;
        order_type = OrderType.trailing_stop;
        limit_price = none;
        broker_order_id = some (text "7");
        state = OrderState.submitted;
      }
      ∷ [];
  fills = [];
  positions = [];
  drivers = [];
  performance = [];
  halts = [];
  engine_state = [];
}

abbrev with_tables : State Fixed ℕ
with_tables = record (fresh 9) { db = some tables }

abbrev ids : List Text
ids = orphan_ids book

abbrev longs : List Text
longs = held_longs (account_after (pos 0))

abbrev silent : Text → ℕ → ℕ
silent symbol s = s

sweep_runs :
    ((sweep_orders setup silent longs ids 0 with_tables).0 ≡ ok 1)
    × ((sweep_orders setup silent longs ids 0 with_tables).1.log ≡ cancelled (text "9") ∷ [])
unfolding sweep_orders sweep_order stored held_longs guards protects get_trade_by_broker_order_id
    newest mark_order_cancelled is_option_symbol match_opt_suffix contains text_eq gets from_option
    try_broker caught cancel with_db pure ◌>>=◌
sweep_runs = (refl, refl)

abbrev is_9 : Text → Bool
is_9 b = text_eq b (text "9")

sweep_orders_lem_example :
    let (r, st) = sweep_orders setup silent longs ids 0 with_tables in
    (taken : List Text) × (st.log ≡ log_taken taken [])
    × (st.db ≡ some (mark_all taken tables))
    × All (λ b. protects longs tables b ≡ false) taken
    × (tally is_9 taken ≤ tally is_9 ids)
    × Counts 0 taken r
sweep_orders_lem_example = sweep_orders_lem setup silent longs is_9 ids 0 tables with_tables refl

sweep_orders_complete_example :
    let (r, st) = sweep_orders setup silent longs ids 0 with_tables in
    (r ≡ ok (0 + length (orphans longs tables ids)))
    × (st.log ≡ log_taken (orphans longs tables ids) [])
    × (st.db ≡ some (mark_all (orphans longs tables ids) tables))
sweep_orders_complete_example =
    sweep_orders_complete setup silent (λ b s. refl) longs ids 0 tables with_tables refl
