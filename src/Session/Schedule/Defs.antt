-- ===== src/Session/Schedule/Defs.antt =====
-- autotrader/scheduler.py: the daily jobs, each fired at most once a day, some of them across restarts.
-- A date is its ordinal day number and a time of day its minute; the table of the last dates is a
-- function of the job, and the durable table of the state store is another.
use autotrader_ai.Prelude.{
  ℕ, ◌+◌, ◌*◌, Bool, true, false, not, ◌&&◌, Option, none, some, List, [], ◌∷◌, leb, ◌==◌,
  if◌then◌else◌,
}
use autotrader_ai.Float.{fixed_float}

pub data Job : Type 0 where
  pre_open_sync entry_open rebalance risk_check_mid risk_check_late risk_sweep eod_cancel_orders
        eod_report :
      Job

unfoldable pub job_eq : Job → Job → Bool
job_eq Job.pre_open_sync Job.pre_open_sync = true
job_eq Job.entry_open Job.entry_open = true
job_eq Job.rebalance Job.rebalance = true
job_eq Job.risk_check_mid Job.risk_check_mid = true
job_eq Job.risk_check_late Job.risk_check_late = true
job_eq Job.risk_sweep Job.risk_sweep = true
job_eq Job.eod_cancel_orders Job.eod_cancel_orders = true
job_eq Job.eod_report Job.eod_report = true
job_eq _ _ = false

-- `time(h, m)`
abbrev pub clock : ℕ → ℕ → ℕ
clock h m = 60 * h + m

unfoldable pub schedule : List (Job × ℕ)
schedule =
    (Job.pre_open_sync, clock 8 30)
    ∷ (Job.entry_open, clock 9 45)
    ∷ (Job.rebalance, clock 12 30)
    ∷ (Job.risk_check_mid, clock 13 30)
    ∷ (Job.risk_check_late, clock 15 0)
    ∷ (Job.risk_sweep, clock 15 30)
    ∷ (Job.eod_cancel_orders, clock 16 15)
    ∷ (Job.eod_report, clock 16 30)
    ∷ []

unfoldable pub at_most_once : Job → Bool
at_most_once Job.rebalance = true
at_most_once Job.eod_cancel_orders = true
at_most_once Job.eod_report = true
at_most_once _ = false

abbrev pub Table : Type 0
Table = Job → Option ℕ

abbrev pub never : Table
never j = none

unfoldable pub put : Job → ℕ → Table → Table
unfolding job_eq
put k day t j = if job_eq j k then some day else t j

-- `backed` says whether `state_get` and `state_set` are wired to the store `durable`.
pub record Scheduler : Type 0 where
  pub last_fired : Table
  pub backed : Bool
  pub durable : Table

-- A new process: only the store is left.
unfoldable pub restart : Scheduler → Scheduler
restart s = record s { last_fired = never }

unfoldable pub last : Scheduler → Job → Option ℕ
unfolding at_most_once
last s j = elim (s.last_fired j) [
  | some day ↦ some day
  | none ↦ if at_most_once j && s.backed then s.durable j else none
]

abbrev pub is_day : ℕ → Option ℕ → Bool
is_day day none = false
is_day day (some d) = d == day

unfoldable pub is_due : ℕ → ℕ → Scheduler → Job × ℕ → Bool
unfolding last
is_due today now s (j, at) = leb at now && not (is_day today (last s j))

unfoldable pub fire : ℕ → Job → Scheduler → Scheduler
unfolding put at_most_once
fire today j s = record s {
  last_fired = put j today s.last_fired;
  durable = if at_most_once j && s.backed then put j today s.durable else s.durable;
}

-- The loop of `poll` over the entries of a schedule.
unfoldable pub poll_entries : ℕ → ℕ → List (Job × ℕ) → Scheduler → List Job × Scheduler
unfolding is_due fire
poll_entries today now [] s = ([], s)
poll_entries today now (e ∷ es) s =
    let due = is_due today now s e in
    let (jobs, s') = poll_entries today now es (if due then fire today e.0 s else s) in
    (if due then e.0 ∷ jobs else jobs, s')

unfoldable pub poll : ℕ → ℕ → Scheduler → List Job × Scheduler
unfolding poll_entries schedule
poll today now = poll_entries today now schedule
