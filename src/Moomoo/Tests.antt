-- ===== src/Moomoo/Tests.antt =====
-- An SDK with one account, three orders and a week of bars, and runs of the adapter on it.
use autotrader_ai.Prelude.{
  ◌≡◌, refl, ℕ, ◌+◌, true, false, none, some, take, drop, List, [], ◌∷◌, All, length, or_default,
}
use autotrader_ai.Prelude.Int.{ℤ, pos, ◌+ℤ◌, ◌-ℤ◌, ◌*ℤ◌, max_ℤ}
use autotrader_ai.Prelude.Text.{Text, text, text_eq, upper, contains}
use autotrader_ai.Float.{Fixed, fixed_float, Fixed-IsOrdered}
use autotrader_ai.Domain.{Side, OrderState, OrderAck, AccountSnapshot, gross_exposure, position_qty}
use autotrader_ai.Rebalance.{get_key}
use autotrader_ai.Risk.Core.{
  evaluate, evaluate_equity, resulting_qty, is_reduce_only, limit_or, notional, breached,
}
use autotrader_ai.Engine.World.{ok}
use autotrader_ai.Moomoo.Limiter.{new_bucket, acquire}
use autotrader_ai.Moomoo.World.{
  Meter, Sdk, spent, asked, cancelling, Link, ◌>>=◌, pure, raise, ask, note, attempt, acquire_token,
  called, metered, raising,
}
use autotrader_ai.Moomoo.Orders.{
  place_order, get_open_orders, cancel_order, settled, ticket_of, ack_from, open_row, cancel_ack,
  cancel_acks, cancel_all, open_rows,
}
use autotrader_ai.Moomoo.Account.{
  get_account, get_positions, snapshot_of, with_positions, position_row, account_row,
}
use autotrader_ai.Moomoo.Windows.{chain_windows, in_dte}
use autotrader_ai.Moomoo.Windows.Spans.{IsWindow, Listed, Apart, Covered, chain_windows_lem}
use autotrader_ai.Moomoo.Metered.{IsMetered}
use autotrader_ai.Moomoo.Session.{
  placing, account, cancel_every, run_broker_calls, run_broker_calls-IsMetered,
}
use autotrader_ai.Moomoo.Trusted.{approved_on_known_positions}
use autotrader_ai.Moomoo.Cancelling.{log_cancels, cancel_all_lem}
use autotrader_ai.Moomoo.Market.{last_n, completed_highs, recent_high, bars_high, high_of, max_of}
use autotrader_ai.Moomoo.Highs.{Among, recent_high_lem}
use autotrader_ai.Fixtures.{amount, aapl, sample_cfg, market_order}

chain_windows_runs :
    chain_windows (130 ∷ 100 ∷ 104 ∷ 150 ∷ 300 ∷ []) 100 (pos 0) (pos 100) 30
    ≡ (100, 130) ∷ (150, 150) ∷ []
unfolding chain_windows
chain_windows_runs = refl

chain_windows_lem_example :
    let ws = chain_windows (130 ∷ 100 ∷ 104 ∷ 150 ∷ 300 ∷ []) 100 (pos 0) (pos 100) 30 in
    let wanted = in_dte 100 (pos 0) (pos 100) in
    let expiries : List ℕ = 130 ∷ 100 ∷ 104 ∷ 150 ∷ 300 ∷ [] in
    All (IsWindow (λ d. Listed expiries d × (wanted d ≡ true)) 30) ws
    × Apart 0 ws
    × All (λ d. wanted d ≡ true → Covered d ws) expiries
chain_windows_lem_example =
    chain_windows_lem (130 ∷ 100 ∷ 104 ∷ 150 ∷ 300 ∷ []) 100 (pos 0) (pos 100) 30

-- A row: its texts, its figures and its whole numbers by column.
record Row : Type 0 where
  texts : List (Text × Text)
  figures : List (Text × Fixed)
  wholes : List (Text × ℤ)

find : {V : Type 0} → V → List Text → List (Text × V) → V
unfolding get_key
find d [] cells = d
find d (n ∷ ns) cells = or_default (get_key n cells) (find d ns cells)

abbrev order_row : Text → Text → Row
order_row id status = record {
  texts = (text "order_id", id) ∷ (text "order_status", status) ∷ [];
  figures = [];
  wholes = [];
}

abbrev bar_row : Text → ℕ → Row
bar_row day high = record {
  texts = (text "time_key", day) ∷ [];
  figures = (text "high", amount high) ∷ [];
  wholes = [];
}

abbrev info_row : Row
info_row = record {
  texts = [];
  figures = (text "cash", amount 1000) ∷ (text "total_assets", amount 5000) ∷ [];
  wholes = [];
}

abbrev held_row : Row
held_row = record {
  texts = (text "code", aapl) ∷ [];
  figures = (text "cost_price", amount 90) ∷ [];
  wholes = (text "qty", pos 20) ∷ [];
}

abbrev acked_order : Text → OrderState → OrderAck
acked_order id state = record { client_order_id = []; broker_order_id = some id; state = state }

abbrev order_rows : List Row
order_rows =
    order_row (text "7") (text "SUBMITTED")
    ∷ order_row (text "8") (text "FILLED_ALL")
    ∷ order_row (text "9") (text "FILLED_PART")
    ∷ []

-- The state is the time.
abbrev sdk : Sdk Fixed ℕ Row
sdk = record {
  timer = record { monotonic = λ s. (amount s, s); doze = λ s. s + 1 };
  env_name = text "SIMULATE";
  place_order = λ ticket s. (ok (some (order_row (text "10") (text "SUBMITTED"))), s);
  cancel_order = λ id s. (ok true, s);
  order_list = λ s. (ok (some order_rows), s);
  account_info = λ s. (ok (some (info_row ∷ [])), s);
  position_list = λ s. (ok (some (held_row ∷ [])), s);
  deal_list = λ since s. (ok none, s);
  market_snapshot = λ codes s. (ok none, s);
  day_bars = λ symbol start end_day n s. (
    ok (
        some (
          bar_row (text "1") 50
          ∷ bar_row (text "2") 40
          ∷ bar_row (text "3") 45
          ∷ bar_row (text "4") 60
          ∷ [])),
    s,
  );
  expirations = λ symbol s. (ok none, s);
  option_chain = λ symbol right start end_day s. (ok none, s);
  today = λ s. 400;
  isoformat = λ day. text "4";
  parse_day = λ s. none;
  text_at = λ row names. find (text "") names row.texts;
  enum_at = λ row names d. find d names row.texts;
  float_at = λ row names. find (amount 0) names row.figures;
  int_at = λ row names. find (pos 0) names row.wholes;
  polls = 3;
}

abbrev connected : Link Fixed ℕ
connected = record {
  outside = 5;
  orders = new_bucket (amount 15) (fixed_float.lit 5 1) (amount 5);
  refreshes = new_bucket (amount 10) (fixed_float.lit 3333 4) (amount 5);
  log = [];
}

adapter_runs :
    (run_broker_calls sdk
      (placing (market_order aapl Side.buy (pos 5)) ∷ account ∷ cancel_every ∷ [])
      connected).1.log
    ≡ cancelling (text "9")
      ∷ cancelling (text "7")
      ∷ asked Meter.refresh_meter
      ∷ spent Meter.refresh_meter
      ∷ asked Meter.refresh_meter
      ∷ spent Meter.refresh_meter
      ∷ asked Meter.refresh_meter
      ∷ spent Meter.refresh_meter
      ∷ asked Meter.order_meter
      ∷ spent Meter.order_meter
      ∷ []
unfolding run_broker_calls place_order ticket_of ack_from get_account with_positions snapshot_of
    account_row position_row get_positions get_open_orders open_rows open_row cancel_all cancel_acks
    cancel_ack cancel_order settled metered called raising acquire_token acquire new_bucket ask note
    attempt pure raise take find text_eq upper ◌>>=◌ ◌+ℤ◌ ◌-ℤ◌ ◌*ℤ◌
adapter_runs = refl

run_broker_calls-IsMetered_example : IsMetered (
    cancelling (text "9")
    ∷ cancelling (text "7")
    ∷ asked Meter.refresh_meter
    ∷ spent Meter.refresh_meter
    ∷ asked Meter.refresh_meter
    ∷ spent Meter.refresh_meter
    ∷ asked Meter.refresh_meter
    ∷ spent Meter.refresh_meter
    ∷ asked Meter.order_meter
    ∷ spent Meter.order_meter
    ∷ [])
unfolding adapter_runs IsMetered
run_broker_calls-IsMetered_example =
    run_broker_calls-IsMetered sdk
      (placing (market_order aapl Side.buy (pos 5)) ∷ account ∷ cancel_every ∷ []) connected tt

abbrev read_snapshot : AccountSnapshot Fixed
read_snapshot = record {
  cash = amount 1000;
  total_assets = amount 5000;
  day_pnl = amount 0;
  stale = false;
  positions_loaded = true;
  unrealized_pnl = amount 0;
  positions = record { symbol = aapl; qty = pos 20; avg_price = amount 90 } ∷ [];
}

account_runs : (get_account sdk connected).0 ≡ ok read_snapshot
unfolding adapter_runs
account_runs = refl

approved_on_known_positions_example :
    (read_snapshot.positions_loaded ≡ true)
    × (l1 : Link Fixed ℕ) × (get_positions sdk l1
        ≡ (ok (some read_snapshot.positions), (get_account sdk connected).1))
unfolding account_runs evaluate evaluate_equity resulting_qty is_reduce_only limit_or notional
    breached contains gross_exposure position_qty
approved_on_known_positions_example =
    approved_on_known_positions sdk connected read_snapshot (market_order aapl Side.buy (pos 5))
      sample_cfg (some (amount 90)) [] refl refl

cancel_all_lem_example :
    ((cancel_all sdk connected).0 ≡ ok tt)
    × ((cancel_all sdk connected).1.log
        ≡ log_cancels (text "7" ∷ text "9" ∷ []) (get_open_orders sdk connected).1.log)
unfolding adapter_runs
cancel_all_lem_example =
    cancel_all_lem sdk (λ boid s. tt) connected (get_open_orders sdk connected).1
      (some (
        acked_order (text "7") OrderState.submitted
        ∷ acked_order (text "9") OrderState.partial
        ∷ []))
      refl

recent_high_lem_example :
    (rows : List Row) × ((sdk.day_bars aapl 386 400 19 5).0 ≡ ok (some rows))
    × let days = last_n 2 (completed_highs sdk (text "4") rows) in
      (length days ≡ 2)
      × Among (amount 45) days
      × All (λ x. fixed_float.le x (amount 45) ≡ true) days
unfolding adapter_runs recent_high bars_high high_of last_n drop max_of completed_highs max_ℤ
recent_high_lem_example =
    recent_high_lem Fixed-IsOrdered sdk aapl (pos 2) connected (amount 45) refl
