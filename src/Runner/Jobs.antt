-- ===== src/Runner/Jobs.antt =====
-- autotrader/runner.py, `SessionRunner`, wired with all its parts as `main` does, and the sync and the
-- watchdog that it calls.
use autotrader_ai.Prelude.{
  ℕ, zero, suc, Bool, true, false, Option, none, some, List, [], ◌∷◌, map, if◌then◌else◌,
  or_default,
}
use autotrader_ai.Prelude.Int.{pos}
use autotrader_ai.Prelude.Text.{Text}
use autotrader_ai.Float.{Float, fzero, fixed_float}
use autotrader_ai.Domain.{AccountSnapshot, Signal, Position}
use autotrader_ai.Engine.World.{Result, State, Action, ◌>>=◌, ◌>>◌, pure, gets, ask, tell, with_db}
use autotrader_ai.Engine.Setup.{TickAction, Setup, gate_halted, read_account, get_quote}
use autotrader_ai.Domain.{Fill, gross_exposure}
use autotrader_ai.Session.Watchdog.{backoff_seconds}
use autotrader_ai.Session.Calendar.{is_trading_day}
use autotrader_ai.Session.Schedule.{Job, Scheduler, poll}
use autotrader_ai.Db.Tables.{record_performance, replace_positions}
use autotrader_ai.Db.Sync.{sync_fills, reconcile_open_orders}
use autotrader_ai.Reporting.Pnl.{FillRow, realized_from_fills}
use autotrader_ai.Stops.Reconcile.{stored, reconcile}
use autotrader_ai.Engine.Deferral.{today_text, submit_external_signal, flush_deferred_entries}
use autotrader_ai.Engine.Tick.{tick}
use autotrader_ai.Engine.Rebalancing.{rebalance}
use autotrader_ai.Engine.LossCheck.{close_entries, open_entries, apply_risk_check}

pub data LoopAnswer : Type 0 where
  non_trading_day session_halted unhealthy : LoopAnswer
  ticked : TickAction → LoopAnswer

-- The engine with what the runner calls besides. The inbox answers what it validated; the report is
-- composed and posted outside.
pub record Wiring (W S : Type 0) : Type 0 where
  pub engine : Setup W S
  pub reconcile_fills : S → Result (Option (List (Fill W))) × S
  pub heartbeat : S → Result Bool × S
  pub poll_inbox : S → Result (List (Signal W)) × S
  pub send_report : S → Result (Unit {0}) × S
  pub alert_unprotected : Text → S → S
  pub max_attempts : ℕ
  pub loop_interval : W

abbrev pub fill_row : {W : Type 0} → Fill W → FillRow W
fill_row x = record { symbol = x.symbol; side = x.side; qty = x.qty; price = x.price; ts = x.ts }

module _ {W S : Type 0} ⦃f : Float W⦄ (c : Wiring W S) where
  -- `ground_truth_sync`, each step written before the next query
  unfoldable pub sync : Action W S (Unit {0})
  sync = do
    snap ← read_account c.engine
    (if snap.positions_loaded then with_db (replace_positions snap.positions) else pure tt)
    fills ← ask c.reconcile_fills
    with_db (λ t. (sync_fills fills t).0)
    orders ← ask c.engine.world.get_open_orders
    with_db (λ t. (reconcile_open_orders orders t).0)

  -- `_fetch_account_for_perf`, from one attempt on
  unfoldable pub fetch_account : (attempt left : ℕ) → Action W S (AccountSnapshot W)
  fetch_account attempt zero = read_account c.engine
  fetch_account attempt (suc left) = do
    snap ← read_account c.engine
    let pause = f.of_int (pos (backoff_seconds (pos attempt) 1 30))
    if snap.positions_loaded
        then pure snap
        else (do tell (c.engine.world.sleep pause); fetch_account (suc attempt) left)

  unfoldable pub compute_unrealized : List (Position W) → W → Action W S W
  compute_unrealized [] total = pure total
  compute_unrealized (p ∷ ps) total = do
    quote ← get_quote c.engine p.symbol
    compute_unrealized ps (elim quote [
      | none ↦ total
      | some px ↦ f.add total (f.mul (f.of_int p.qty) (f.sub px p.avg_price))
    ])

  -- The row of the day: the realised profit of the fills, or else the broker's figure.
  unfoldable pub write_perf : AccountSnapshot W → W → Action W S (Unit {0})
  write_perf snap unrealized = do
    t ← stored
    day ← gets (today_text c.engine)
    let realized = realized_from_fills (map fill_row t.fills) day
    with_db (
        record_performance
          (record {
            date = day;
            day_pnl = or_default realized snap.day_pnl;
            total_assets = snap.total_assets;
            cash = snap.cash;
            gross_exposure = if snap.positions_loaded then some (gross_exposure snap) else none;
            unrealized_pnl = unrealized;
          })
          snap.positions_loaded)

  unfoldable pub record_perf : Action W S (Unit {0})
  record_perf = do
    snap ← fetch_account 1 3
    unrealized ←
        if snap.positions_loaded
        then compute_unrealized snap.positions fzero
        else pure snap.unrealized_pnl
    write_perf snap unrealized

  -- `_run_job`, on the date of the clock
  unfoldable pub run_job : Text → Job → Action W S (Unit {0})
  run_job day Job.pre_open_sync = sync
  run_job day Job.entry_open = do
    open_entries
    reconcile c.engine c.alert_unprotected day
    flush_deferred_entries c.engine
    pure tt
  run_job day Job.rebalance = rebalance c.engine >> pure tt
  run_job day Job.risk_check_mid = do apply_risk_check c.engine day; sync; record_perf
  run_job day Job.risk_check_late = do apply_risk_check c.engine day; sync; record_perf
  run_job day Job.risk_sweep = do close_entries; sync; record_perf
  run_job day Job.eod_cancel_orders = do close_entries; ask c.engine.world.cancel_all; record_perf
  run_job day Job.eod_report = ask c.send_report

  unfoldable pub run_jobs : Text → List Job → Action W S (Unit {0})
  run_jobs day [] = pure tt
  run_jobs day (j ∷ js) = run_job day j >> run_jobs day js

  -- The rounds of `Watchdog.ensure_healthy`; the sync on recovery is its callback.
  unfoldable pub recover : (attempt left : ℕ) → Action W S Bool
  recover attempt zero = pure false
  recover attempt (suc left) = do
    let pause = f.of_int (pos (backoff_seconds (pos attempt) 1 30))
    tell (c.engine.world.sleep pause)
    healthy ← ask c.heartbeat
    if healthy then sync >> pure true else recover (suc attempt) left

  unfoldable pub check_health : Action W S Bool
  check_health = do
    healthy ← ask c.heartbeat
    if healthy then pure true else recover 1 c.max_attempts

  unfoldable pub route_inbox : List (Signal W) → Action W S (Unit {0})
  route_inbox [] = pure tt
  route_inbox (s ∷ ss) = submit_external_signal c.engine s >> route_inbox ss

  -- With the connection up: the tick, then the inbox.
  unfoldable pub trade_once : Action W S LoopAnswer
  trade_once = do
    action ← tick c.engine
    signals ← ask c.poll_inbox
    route_inbox signals
    pure (ticked action)

  -- `run_once`, after the jobs that are due were polled
  unfoldable pub run_due : Text → List Job → Action W S LoopAnswer
  run_due day jobs = do
    run_jobs day jobs
    stops ← gets (λ st. gate_halted st.gate)
    if stops
        then pure session_halted
        else (do healthy ← check_health; if healthy then trade_once else pure unhealthy)

  -- the sleep between two iterations
  unfoldable pub pause : State W S → State W S
  pause st = record st { outside = c.engine.world.sleep c.loop_interval st.outside }

  -- One iteration of `run` at a day and a minute: the scheduler has marked its jobs before they run,
  -- and an exception ends the iteration only.
  unfoldable pub iterate : ℕ × ℕ → Scheduler × State W S → Scheduler × State W S
  iterate now s =
      let (jobs, scheduler) = poll now.0 now.1 s.0 in
      if is_trading_day now.0 c.engine.cfg.market_holidays
      then (scheduler, pause (run_due (c.engine.world.isoformat now.0) jobs s.1).1)
      else (s.0, pause s.1)

  unfoldable pub run : List (ℕ × ℕ) → Scheduler × State W S → Scheduler × State W S
  run [] s = s
  run (now ∷ times) s = run times (iterate now s)
