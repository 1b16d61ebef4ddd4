-- ===== src/Session/Tests.antt =====
-- Runs of the parts of a session, and an example for each of their theorems.
use autotrader_ai.Prelude.{
  ℕ, ◌*◌, ◌≤◌, ◌≡◌, refl, some, Bool, true, false, not, ◌&&◌, ◌||◌, [], ◌∷◌, leb, if◌then◌else◌,
  keep,
}
use autotrader_ai.Float.{fixed_float}
use autotrader_ai.Session.Gate.{
  EntryGate, GateCall, open_gate, entries_enabled, apply_call, apply_calls,
}
use autotrader_ai.Session.Watchdog.{
  ensure_healthy, any_from, reconciles, ends_reconciled, total_sleep, ensure_healthy_lem,
}
use autotrader_ai.Session.Schedule.{Job, at_most_once, clock, never, Scheduler, restart, poll}
use autotrader_ai.Session.Schedule.Firing.{mem, day_jobs, fires, poll_lem, poll_once_across_restart}

abbrev shut_gate : EntryGate
shut_gate = record { enabled = false; halted = false }

opens_without_halt : entries_enabled (apply_calls shut_gate (GateCall.opened ∷ [])) ≡ true
unfolding entries_enabled apply_calls apply_call open_gate
opens_without_halt = refl

-- The connection comes back at the third check.
abbrev third : ℕ → Bool
third n = leb 2 n

ensure_healthy_lem_example :
    let (up, actions) = ensure_healthy third 3 in
    (up ≡ (third 0 || any_from third 3 1))
    × (reconciles actions ≡ (if up && not (third 0) then 1 else 0))
    × (ends_reconciled false actions ≡ (up && not (third 0)))
    × (total_sleep actions ≤ 30 * 3)
ensure_healthy_lem_example = ensure_healthy_lem third 3

abbrev started : Scheduler
started = record { last_fired = never; backed = true; durable = never }

noon_jobs :
    (poll 700 (clock 12 30) started).0 ≡ Job.pre_open_sync ∷ Job.entry_open ∷ Job.rebalance ∷ []
unfolding poll
noon_jobs = refl

poll_lem_example :
    let (fired, after) = poll 700 (clock 12 30) started in
    (fired ≡ keep (fires 700 (clock 12 30) started) day_jobs)
    × ((j : Job) → after.last_fired j ≡ (if mem j fired then some 700 else started.last_fired j))
    × ((j : Job)
        → after.durable j ≡ (
            if mem j fired && at_most_once j && started.backed
            then some 700
            else started.durable j))
poll_lem_example = poll_lem 700 (clock 12 30) started

poll_once_across_restart_example :
    mem Job.rebalance (poll 700 (clock 16 0) (restart (poll 700 (clock 12 30) started).1)).0 ≡ false
unfolding at_most_once
poll_once_across_restart_example =
    poll_once_across_restart 700 (clock 12 30) (clock 16 0) Job.rebalance started refl refl
      (unfold poll in refl)
