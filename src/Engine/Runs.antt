-- ===== src/Engine/Runs.antt =====
-- Runs of the engine on a broker that takes every order.
use autotrader_ai.Prelude.{
  if◌then◌else◌, ℕ, ◌+◌, ◌≤◌, ◌≡◌, refl, true, false, none, some, List, [], ◌∷◌, ◌++◌, length,
}
use autotrader_ai.Prelude.Int.{pos, ◌+ℤ◌, ◌-ℤ◌, ◌*ℤ◌, ◌≤ℤ◌, min_ℤ, max_ℤ}
use autotrader_ai.Prelude.Text.{Text, text, text_eq, numbered, contains, upper}
use autotrader_ai.Float.{Fixed, fixed_float}
use autotrader_ai.Domain.{
  Side, OrderType, OrderRequest, OrderAck, AccountSnapshot, Signal, check_order, OrderState,
}
use autotrader_ai.Risk.Core.{evaluate}
use autotrader_ai.Session.Gate.{entries_enabled}
use autotrader_ai.Rebalance.{get_key, set_key}
use autotrader_ai.Engine.World.{
  ok, acked, State, ◌>>=◌, pure, raise, gets, ask, tell, with_db, from_option, caught, try_broker,
}
use autotrader_ai.Engine.Router.{
  audit, remember, place, answered, submit_new, submit, client_order_id,
}
use autotrader_ai.Engine.Vetting.Vetted.{Sound, last_account}
use autotrader_ai.Engine.Setup.{
  Setup, outcome, position_of, read_account, get_quote, new_order, order_kind, cancel,
  order_working, cancel_for_escalation, record_order, next_signal_id, passes,
}
use autotrader_ai.Prelude.Text.{digits}
use autotrader_ai.Risk.Core.{
  paper, evaluate_equity, resulting_qty, is_reduce_only, limit_or, notional, breached,
}
use autotrader_ai.Domain.{PositionEffect, position_qty, gross_exposure}
use autotrader_ai.Trading.Sizing.{size_position}
use autotrader_ai.Trading.Pricing.{capped_limit_price, raw_limit, tick_size}
use autotrader_ai.Fixtures.{aapl, amount, sample_cfg, account_after, market_order}
use autotrader_ai.Float.{Fixed, fixed_float}
use autotrader_ai.Engine.Budget.Costs.{placings, cancels}
use autotrader_ai.Engine.Budget.Pegging.{escalation_replaces}
use autotrader_ai.Rebalance.{sort_keys}
use autotrader_ai.Db.Listing.{list_state}
use autotrader_ai.Db.Tables.{Tables}
use autotrader_ai.Domain.{check_signal}
use autotrader_ai.Engine.Restart.{deferred_survives_restart}
use autotrader_ai.Signals.Json.{obj}
use autotrader_ai.Engine.Entry.{entry_fields}
use autotrader_ai.Engine.Deferral.{today_text, defer_entry, restore_deferred_entries}
use autotrader_ai.Session.Gate.{new_gate}
use autotrader_ai.Risk.Core.{risk_check}
use autotrader_ai.Prelude.Int.{negsuc}
use autotrader_ai.Engine.World.{err, Fault}
use autotrader_ai.Engine.Rebalancing.{flatten_all, flatten_position}
use autotrader_ai.Engine.LossCheck.{apply_risk_check, liquidate}
use autotrader_ai.Engine.Tests.{outside, fresh}
use autotrader_ai.Engine.Session.{
  signalled, run_call, serve, serve-Sound, Sound-fresh, placed_long_only,
}
use autotrader_ai.Engine.Deferral.{
  submit_external_signal, clear_cache, route_external, defer_closed,
}
use autotrader_ai.Engine.Route.{
  route_signal, route_equity, signal_qty, sized_qty, enter_signal, settle_signal, protect_entry,
}
use autotrader_ai.Engine.Escalation.{
  submit_with_escalation, may_advance, repeg, submit_peg, fall_back, exec_ref,
}
use autotrader_ai.Engine.Trailing.{attach_trailing_stop, new_stop}

abbrev pub setup : Setup Fixed ℕ
setup = record {
  world = outside true;
  cfg = record sample_cfg { risk_per_trade_pct = amount 0 };
  strategy_symbol = aapl;
  strategy = λ price position high. some none;
  strategy_enabled = true;
  order_qty = pos 10;
  session_id = text "s";
  snapshot_cache_ticks = pos 1;
  has_reference = false;
  lookback = pos 20;
  hedge_confirm_attempts = 3;
  alerting = false;
}

abbrev pub buy_signal : Signal Fixed
buy_signal = record {
  symbol = aapl;
  direction = Side.buy;
  confidence = fixed_float.lit 9 1;
  rationale = text "up";
  stop_price = none;
  overlay = none;
}

abbrev session : State Fixed ℕ
session = serve setup (signalled buy_signal ∷ []) (fresh 9)

-- The account, the entry with its two lines, the account again, and the stop with its two lines.
entry_and_stop : length session.log ≡ 8
unfolding serve run_call ◌>>=◌ pure raise gets ask tell with_db from_option submit_external_signal
    clear_cache read_account get_quote route_external route_signal entries_enabled route_equity
    next_signal_id signal_qty sized_qty size_position position_of text_eq numbered digits
    enter_signal order_kind new_order check_order passes evaluate evaluate_equity resulting_qty
    is_reduce_only position_qty limit_or notional breached gross_exposure contains upper
    submit_with_escalation settle_signal protect_entry outcome record_order attach_trailing_stop
    new_stop submit submit_new audit place answered remember get_key set_key client_order_id
    defer_closed ◌+ℤ◌ ◌-ℤ◌ ◌*ℤ◌ min_ℤ max_ℤ
entry_and_stop = refl

abbrev rest_of : {A : Type 0} → List A → List A
rest_of [] = []
rest_of (x ∷ xs) = xs

abbrev stop_order : OrderRequest Fixed
stop_order = record {
  symbol = aapl;
  side = Side.sell;
  qty = pos 10;
  order_type = OrderType.trailing_stop;
  limit_price = none;
  client_order_id = text "at-US.AAPLsig-s-1-stop";
  trail_percent = some (amount 5);
  option = none;
  position_effect = PositionEffect.opening;
  correlation_id = none;
}

serve-Sound_example : Sound setup.cfg session.log session.gate
serve-Sound_example =
    serve-Sound setup (signalled buy_signal ∷ []) (fresh 9) (Sound-fresh setup.cfg (fresh 9).gate)

placed_long_only_example :
    (setup.cfg.trading_env ≡ paper)
    × (contains (upper aapl) setup.cfg.allowed_symbols ≡ true)
    × ((snap : AccountSnapshot Fixed) × (last_account (rest_of (rest_of session.log)) ≡ some snap)
        × (pos 0 ≤ℤ resulting_qty stop_order snap)
        × (resulting_qty stop_order snap ≤ℤ setup.cfg.max_position_qty))
unfolding entry_and_stop
placed_long_only_example =
    placed_long_only setup (signalled buy_signal ∷ []) (fresh 9)
      (acked stop_order.client_order_id OrderState.submitted ∷ []) (rest_of (rest_of session.log))
      stop_order refl refl refl

-- A broker at which every order rests and every cancellation passes, and a limit order.
abbrev resting_ack : Text → OrderAck
resting_ack suffix = record {
  client_order_id = text "at-1" ++ suffix;
  broker_order_id = some (text "b1");
  state = OrderState.submitted;
}

abbrev resting : Setup Fixed ℕ
resting = record setup {
  world = record (outside true) {
    get_open_orders = λ s. (
      ok (some (resting_ack [] ∷ resting_ack (text "-peg") ∷ resting_ack (text "-mkt") ∷ [])),
      s,
    );
  };
}

abbrev limit_order : OrderRequest Fixed
limit_order = record (market_order aapl Side.buy (pos 10)) {
  order_type = OrderType.limit;
  limit_price = some (amount 100);
}

abbrev escalated : State Fixed ℕ
escalated =
    (submit_with_escalation resting limit_order (account_after (pos 0)) (amount 100) (fresh 9)).1

three_stages : (placings escalated.log ≡ 3) × (cancels escalated.log ≡ 2)
unfolding entry_and_stop may_advance order_working cancel_for_escalation cancel try_broker caught
    repeg submit_peg fall_back capped_limit_price raw_limit tick_size exec_ref placings cancels
three_stages = (refl, refl)

escalation_replaces_example :
    (placings escalated.log + 0 ≤ 0 + 1 + cancels escalated.log) × (placings escalated.log ≤ 0 + 3)
unfolding placings cancels
escalation_replaces_example =
    escalation_replaces resting limit_order (account_after (pos 0)) (amount 100) (fresh 9)

-- A process whose JSON library reads back the entry of the signal, on a database without rows.
abbrev july : Text
july = text "2026-07-01"

abbrev keeping : Setup Fixed ℕ
keeping = record setup {
  world = record (outside true) {
    loads =
        λ raw. if text_eq raw (text "row") then some (obj (entry_fields july buy_signal)) else none;
  };
}

abbrev no_rows : Tables Fixed
no_rows = record {
  signals = [];
  trades = [];
  fills = [];
  positions = [];
  drivers = [];
  performance = [];
  halts = [];
  engine_state = [];
}

abbrev stored_state : State Fixed ℕ
stored_state = record (fresh 9) { db = some no_rows }

abbrev restarted : State Fixed ℕ
restarted = record (fresh 9) { db = (defer_entry keeping buy_signal stored_state).1.db }

deferred_survives_restart_example :
    ((restore_deferred_entries keeping restarted).0 ≡ ok tt)
    × ((restore_deferred_entries keeping restarted).1.deferred ≡ (july, buy_signal) ∷ [])
unfolding text_eq today_text check_signal list_state sort_keys ◌+ℤ◌ ◌-ℤ◌ ◌*ℤ◌
deferred_survives_restart_example =
    deferred_survives_restart keeping buy_signal stored_state restarted no_rows refl refl refl refl
      refl refl

-- A broker whose quotes fail, on an account past the hard limit of the day's loss.
abbrev failing : Setup Fixed ℕ
failing = record setup {
  world = record (outside true) {
    get_account = λ s. (ok (account_after (negsuc 1999)), s);
    get_quote = λ symbol s. (err Fault.broker_error, s);
  };
}

-- The liquidation raises at its first quote, and the session is not halted.
liquidation_fault_skips_the_halt :
    ((apply_risk_check failing july (fresh 9)).0 ≡ err Fault.broker_error)
    × ((apply_risk_check failing july (fresh 9)).1.gate ≡ some (new_gate true))
unfolding entry_and_stop apply_risk_check risk_check liquidate flatten_all flatten_position
liquidation_fault_skips_the_halt = (refl, refl)
