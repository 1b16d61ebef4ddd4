-- ===== src/Runner/Safety.antt =====
-- autotrader/runner.py and autotrader/stops.py: the loop of the process keeps the log of the orders sound.
use autotrader_ai.Prelude.{ℕ, zero, suc, inl, inr, true, false, List, [], ◌∷◌, Bool-cases}
use autotrader_ai.Prelude.Text.{Text}
use autotrader_ai.Float.{Float, fixed_float}
use autotrader_ai.Domain.{AccountSnapshot, Signal, Position}
use autotrader_ai.Engine.World.{Result, ok, err, State, ◌>>=◌}
use autotrader_ai.Engine.Vetting.Vetted.{Sound, Known, sound, judged, Holds, EndsIn}
use autotrader_ai.Engine.Vetting.Rules.{Runs-forget}
use autotrader_ai.Engine.Vetting.Keeps.{
  Keeps, keeps_rules, Keeps-pure, Keeps-bind, Keeps-gets, Keeps-tell, Keeps-ask,
}
use autotrader_ai.Engine.Vetting.Steady.{get_quote-Keeps}
use autotrader_ai.Engine.Vetting.Submitting.{read_account-Runs}
use autotrader_ai.Engine.Vetting.Leaves.{
  Leaves, leaves_rules, Leaves-pure, Leaves-bind, Leaves-then, Leaves-if, Leaves-read, Leaves-Keeps,
}
use autotrader_ai.Stops.Attachment.{stored-Keeps, reconcile-Leaves}
use autotrader_ai.Engine.LossCheck.{apply_risk_check}
use autotrader_ai.Session.Calendar.{is_trading_day}
use autotrader_ai.Session.Schedule.{Job, Scheduler, poll}
use autotrader_ai.Runner.Jobs.{
  Wiring, LoopAnswer, session_halted, unhealthy, sync, fetch_account, compute_unrealized,
  write_perf, record_perf, run_job, run_jobs, recover, check_health, route_inbox, trade_once,
  run_due, iterate, pause, run,
}
use autotrader_ai.Engine.Vetting.Signals.{
  submit_external_signal-Leaves, flush_deferred_entries-Leaves,
}
use autotrader_ai.Engine.Vetting.Ticks.{tick-Leaves}
use autotrader_ai.Engine.Vetting.Liquidation.{rebalance-Leaves}
use autotrader_ai.Engine.Vetting.Halting.{
  close_entries-Keeps, open_entries-Keeps, apply_risk_check-Leaves,
}

module _ {W S : Type 0} ⦃f : Float W⦄ (c : Wiring W S) where
  sync-Leaves : {k : Known W} → Leaves c.engine.cfg k (sync c)
  unfolding sync
  sync-Leaves = Leaves-read c.engine _ (λ snap. Leaves-Keeps _ (search keeps_rules))

  fetch_account-Leaves :
      {k : Known W} (attempt left : ℕ) → Leaves c.engine.cfg k (fetch_account c attempt left)
  unfolding fetch_account
  fetch_account-Leaves attempt zero = record { runs = Runs-forget (read_account-Runs c.engine) }
  fetch_account-Leaves {k = k} attempt (suc left) = Leaves-read c.engine _ (λ snap.
      Leaves-if snap.positions_loaded _ _ (λ _. Leaves-pure snap)
        (λ _.
          Leaves-bind _ _ (Keeps-tell _)
            (λ _. fetch_account-Leaves {k = judged snap false} (suc attempt) left)))

  compute_unrealized-Keeps :
      {k : Known W} (ps : List (Position W)) (total : W)
      → Keeps c.engine.cfg k (compute_unrealized c ps total)
  unfolding compute_unrealized
  compute_unrealized-Keeps [] total = Keeps-pure total
  compute_unrealized-Keeps (p ∷ ps) total =
      Keeps-bind _ _ (get_quote-Keeps c.engine p.symbol) (λ q. compute_unrealized-Keeps ps _)

  write_perf-Keeps :
      {k : Known W} (snap : AccountSnapshot W) (u : W) → Keeps c.engine.cfg k (write_perf c snap u)
  unfolding write_perf
  write_perf-Keeps snap u =
      Keeps-bind _ _ (stored-Keeps c.engine c.alert_unprotected) (λ t. search keeps_rules)

  record_perf-Leaves : {k : Known W} → Leaves c.engine.cfg k (record_perf c)
  unfolding record_perf
  record_perf-Leaves =
      Leaves-then _ _ (fetch_account-Leaves 1 3)
        (λ snap. Leaves-Keeps _ (search (keeps_rules, compute_unrealized-Keeps, write_perf-Keeps)))

  check_and_record :
      (day : Text)
      → Leaves c.engine.cfg sound
          (apply_risk_check c.engine day >>= λ _. sync c >>= λ _. record_perf c)
  check_and_record day =
      Leaves-then _ _ (apply_risk_check-Leaves c.engine day)
        (λ _. Leaves-then _ _ sync-Leaves (λ _. record_perf-Leaves))

  run_job-Leaves : (day : Text) (j : Job) → Leaves c.engine.cfg sound (run_job c day j)
  unfolding run_job
  run_job-Leaves day Job.pre_open_sync = sync-Leaves
  run_job-Leaves day Job.entry_open = Leaves-bind _ _ open_entries-Keeps (λ _.
      Leaves-then _ _ (reconcile-Leaves c.engine c.alert_unprotected day)
        (λ _. Leaves-then _ _ (flush_deferred_entries-Leaves c.engine) (λ _. Leaves-pure tt)))
  run_job-Leaves day Job.rebalance =
      Leaves-then _ _ (rebalance-Leaves c.engine) (λ _. Leaves-pure tt)
  run_job-Leaves day Job.risk_check_mid = check_and_record day
  run_job-Leaves day Job.risk_check_late = check_and_record day
  run_job-Leaves day Job.risk_sweep =
      Leaves-bind _ _ close_entries-Keeps
        (λ _. Leaves-then _ _ sync-Leaves (λ _. record_perf-Leaves))
  run_job-Leaves day Job.eod_cancel_orders =
      Leaves-bind _ _ close_entries-Keeps
        (λ _. Leaves-bind _ _ (Keeps-ask _) (λ _. record_perf-Leaves))
  run_job-Leaves day Job.eod_report = Leaves-Keeps _ (Keeps-ask _)

  run_jobs-Leaves : (day : Text) (js : List Job) → Leaves c.engine.cfg sound (run_jobs c day js)
  unfolding run_jobs
  run_jobs-Leaves day [] = Leaves-pure tt
  run_jobs-Leaves day (j ∷ js) =
      Leaves-then _ _ (run_job-Leaves day j) (λ _. run_jobs-Leaves day js)

  recover-Leaves : (attempt left : ℕ) → Leaves c.engine.cfg sound (recover c attempt left)
  unfolding recover
  recover-Leaves attempt zero = Leaves-pure false
  recover-Leaves attempt (suc left) = Leaves-bind _ _ (Keeps-tell _) (λ _.
      Leaves-bind _ _ (Keeps-ask _) (λ healthy.
        Leaves-if healthy _ _ (λ _. Leaves-then _ _ sync-Leaves (λ _. Leaves-pure true))
          (λ _. recover-Leaves (suc attempt) left)))

  check_health-Leaves : Leaves c.engine.cfg sound (check_health c)
  unfolding check_health
  check_health-Leaves = search (leaves_rules, Keeps-ask, recover-Leaves)

  route_inbox-Leaves : (ss : List (Signal W)) → Leaves c.engine.cfg sound (route_inbox c ss)
  unfolding route_inbox
  route_inbox-Leaves [] = Leaves-pure tt
  route_inbox-Leaves (s ∷ ss) =
      Leaves-then _ _ (submit_external_signal-Leaves c.engine s) (λ _. route_inbox-Leaves ss)

  trade_once-Leaves : Leaves c.engine.cfg sound (trade_once c)
  unfolding trade_once
  trade_once-Leaves = Leaves-then _ _ (tick-Leaves c.engine) (λ action.
      Leaves-bind _ _ (Keeps-ask _)
        (λ signals. Leaves-then _ _ (route_inbox-Leaves signals) (λ _. Leaves-pure _)))

  run_due-Leaves : (day : Text) (jobs : List Job) → Leaves c.engine.cfg sound (run_due c day jobs)
  unfolding run_due
  run_due-Leaves day jobs = Leaves-then _ _ (run_jobs-Leaves day jobs) (λ _.
      Leaves-bind _ _ (Keeps-gets _) (λ stops.
        Leaves-if stops _ _ (λ _. Leaves-pure session_halted)
          (λ _. Leaves-then _ _ check_health-Leaves (λ healthy.
            Leaves-if healthy _ _ (λ _. trade_once-Leaves) (λ _. Leaves-pure unhealthy)))))

  -- Whatever an iteration answers, it leaves a sound log.
  ends_sound :
      (r : Result LoopAnswer) (st : State W S)
      → EndsIn c.engine.cfg (λ _. sound) r st
      → Sound c.engine.cfg st.log st.gate
  unfolding EndsIn Holds
  ends_sound (ok a) st h = h
  ends_sound (err e) st h = h

  iterate-Sound :
      (now : ℕ × ℕ) (s : Scheduler × State W S)
      → Sound c.engine.cfg s.1.log s.1.gate
      → Sound c.engine.cfg (iterate c now s).1.log (iterate c now s).1.gate
  unfolding iterate pause Holds
  iterate-Sound now s h = elim (Bool-cases (is_trading_day now.0 c.engine.cfg.market_holidays)) [
    | inl e ↦
        let m = run_due c (c.engine.world.isoformat now.0) (poll now.0 now.1 s.0).0 in
        rw (e, iterate) (ends_sound (m s.1).0 (m s.1).1 ((run_due-Leaves _ _).runs.at s.1 h))
    | inr e ↦ rw (e, iterate) h
  ]

  -- The loop of the process, at whatever times it runs, keeps the log sound: over days of jobs,
  -- reconciles of the stops, ticks and signals of the inbox, with whatever the broker answers and
  -- wherever an iteration raises, every order that reaches the broker has its line of intent
  -- directly before it and was approved by the gate against the account read last, and no BUY that
  -- opens a position comes after a halt.
  pub run-Sound :
      (times : List (ℕ × ℕ)) (s : Scheduler × State W S)
      → Sound c.engine.cfg s.1.log s.1.gate
      → Sound c.engine.cfg (run c times s).1.log (run c times s).1.gate
  unfolding run
  run-Sound [] s h = h
  run-Sound (now ∷ times) s h = run-Sound times (iterate c now s) (iterate-Sound now s h)
