-- ===== src/Runner/Tests.antt =====
-- One iteration of the loop at the opening of the entries, with a signal in the inbox.
use autotrader_ai.Prelude.{ℕ, ◌≡◌, refl, true, false, some, List, [], ◌∷◌}
use autotrader_ai.Prelude.Int.{◌+ℤ◌, ◌-ℤ◌, ◌*ℤ◌, min_ℤ, max_ℤ}
use autotrader_ai.Prelude.Text.{text_eq, numbered, contains, upper, text_lt}
use autotrader_ai.Float.{Fixed, fixed_float}
use autotrader_ai.Domain.{check_order}
use autotrader_ai.Risk.Core.{evaluate}
use autotrader_ai.Session.Gate.{entries_enabled, open_gate}
use autotrader_ai.Db.Tables.{Tables, get_open_trailing_stop}
use autotrader_ai.Rebalance.{get_key, set_key}
use autotrader_ai.Engine.World.{
  ok, State, ◌>>=◌, pure, raise, gets, ask, tell, with_db, from_option,
}
use autotrader_ai.Engine.Router.{
  audit, remember, place, answered, submit_new, submit, client_order_id,
}
use autotrader_ai.Engine.Setup.{
  outcome, position_of, read_account, get_quote, new_order, order_kind, record_order,
  next_signal_id, passes,
}
use autotrader_ai.Prelude.Text.{digits}
use autotrader_ai.Domain.{is_option_symbol, match_opt_suffix, position_qty, gross_exposure}
use autotrader_ai.Risk.Core.{
  evaluate_equity, resulting_qty, is_reduce_only, limit_or, notional, breached,
}
use autotrader_ai.Trading.Sizing.{size_position}
use autotrader_ai.Rebalance.{sort_keys, insert_sorted}
use autotrader_ai.Db.Tables.{
  newest, record_trade, record_signal, replace_positions, put_positions, put_position, record_fills,
  insert_fills, open_trailing_stop_ids,
}
use autotrader_ai.Db.Sync.{sync_fills, reconcile_open_orders, sweep}
use autotrader_ai.Engine.Vetting.Vetted.{Sound}
use autotrader_ai.Engine.Session.{Sound-fresh}
use autotrader_ai.Engine.Budget.Costs.{placings}
use autotrader_ai.Session.Gate.{new_gate}
use autotrader_ai.Session.Calendar.{is_trading_day, weekday}
use autotrader_ai.Session.Schedule.{
  Scheduler, never, poll, poll_entries, schedule, is_due, fire, last, job_eq, put, at_most_once,
}
use autotrader_ai.Float.{Fixed}
use autotrader_ai.Stops.Orphans.{held_longs, protects}
use autotrader_ai.Stops.Reconcile.{
  stored, sweep_order, sweep_orders, reattach, protected_by, attach_stops, reconcile_held,
  reconcile_known, reconcile, held_qtys,
}
use autotrader_ai.Fixtures.{amount}
use autotrader_ai.Engine.Tests.{fresh}
use autotrader_ai.Engine.Runs.{setup, buy_signal}
use autotrader_ai.Engine.Deferral.{
  submit_external_signal, clear_cache, route_external, defer_closed, flush_deferred_entries,
  replay_entries, set_deferred, today_text,
}
use autotrader_ai.Engine.Route.{
  route_signal, route_equity, signal_qty, sized_qty, enter_signal, settle_signal, protect_entry,
}
use autotrader_ai.Engine.Escalation.{submit_with_escalation}
use autotrader_ai.Engine.Trailing.{attach_trailing_stop, new_stop}
use autotrader_ai.Engine.Tick.{tick, run_strategy, ask_strategy, account_for_tick, set_cache}
use autotrader_ai.Engine.LossCheck.{open_entries}
use autotrader_ai.Runner.Jobs.{
  Wiring, run, iterate, pause, run_due, run_jobs, run_job, sync, fetch_account, compute_unrealized,
  write_perf, record_perf, check_health, trade_once, route_inbox,
}
use autotrader_ai.Runner.Safety.{run-Sound}

abbrev wiring : Wiring Fixed ℕ
wiring = record {
  engine = setup;
  reconcile_fills = λ s. (ok (some []), s);
  heartbeat = λ s. (ok true, s);
  poll_inbox = λ s. (ok (buy_signal ∷ []), s);
  send_report = λ s. (ok tt, s);
  alert_unprotected = λ symbol s. s;
  max_attempts = 6;
  loop_interval = amount 5;
}

abbrev new_tables : Tables Fixed
new_tables = record {
  signals = [];
  trades = [];
  fills = [];
  positions = [];
  drivers = [];
  performance = [];
  halts = [];
  engine_state = [];
}

abbrev morning : Scheduler × State Fixed ℕ
morning = (
  record { last_fired = never; backed = false; durable = never },
  record (fresh 20) { db = some new_tables; gate = some (new_gate false) },
)

abbrev at_open : List (ℕ × ℕ)
at_open = (100, 585) ∷ []

run-Sound_example :
    Sound wiring.engine.cfg (run wiring at_open morning).1.log (run wiring at_open morning).1.gate
run-Sound_example = run-Sound wiring at_open morning (Sound-fresh setup.cfg (some (new_gate false)))

-- The stop of the shares that are held, the entry of the inbox's signal, and its stop.
three_orders : placings (run wiring at_open morning).1.log ≡ 3
unfolding run is_trading_day weekday iterate pause poll poll_entries schedule is_due fire last
    job_eq put at_most_once run_due run_jobs run_job sync fetch_account compute_unrealized
    write_perf record_perf check_health trade_once route_inbox stored sweep_order sweep_orders
    reattach protected_by attach_stops reconcile_held reconcile_known reconcile held_qtys held_longs
    protects is_option_symbol match_opt_suffix sort_keys insert_sorted text_lt tick
    flush_deferred_entries replay_entries set_deferred today_text open_entries open_gate
    run_strategy ask_strategy account_for_tick set_cache replace_positions put_positions
    put_position sync_fills record_fills insert_fills reconcile_open_orders sweep
    open_trailing_stop_ids get_open_trailing_stop newest record_trade record_signal placings ◌>>=◌
    pure raise gets ask tell with_db from_option submit_external_signal clear_cache read_account
    get_quote route_external route_signal entries_enabled route_equity next_signal_id signal_qty
    sized_qty size_position position_of text_eq numbered digits enter_signal order_kind new_order
    check_order passes evaluate evaluate_equity resulting_qty is_reduce_only position_qty limit_or
    notional breached gross_exposure contains upper submit_with_escalation settle_signal
    protect_entry outcome record_order attach_trailing_stop new_stop submit submit_new audit place
    answered remember get_key set_key client_order_id defer_closed ◌+ℤ◌ ◌-ℤ◌ ◌*ℤ◌ min_ℤ max_ℤ
three_orders = refl

-- 1 January of the year 1 was a Monday, and 5 a Friday.
no_trading_at_weekends :
    (is_trading_day 5 [] ≡ true) × (is_trading_day 6 [] ≡ false) × (is_trading_day 7 [] ≡ false)
unfolding is_trading_day weekday
no_trading_at_weekends = (refl, refl, refl)
