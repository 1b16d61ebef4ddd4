-- ===== src/Session/Schedule/Firing.antt =====
-- What a poll of the schedule fires, and what it never fires twice.
use autotrader_ai.Prelude.{
  ℕ, ◌≡◌, refl, ap, ◌∙◌, not, none, Option, inl, inr, Bool, true, false, ◌&&◌, some, List, [], ◌∷◌,
  map, arith, leb, if◌then◌else◌, Bool-cases, keep, any, All,
}
use autotrader_ai.Float.{fixed_float}
use autotrader_ai.Session.Schedule.Defs.{
  Job, job_eq, schedule, at_most_once, put, Scheduler, restart, last, is_due, fire, poll_entries,
  is_day, poll,
}

abbrev pub mem : Job → List Job → Bool
mem j = any (job_eq j)

eq_of_job_eq : (j k : Job) → job_eq j k ≡ true → j ≡ k
unfolding job_eq
eq_of_job_eq j k h = ground arith

job_eq_refl : (j : Job) → job_eq j j ≡ true
unfolding job_eq
job_eq_refl j = ground arith

-- The minute from which a job is due, by name.
abbrev pub due_time : Job → ℕ
due_time Job.pre_open_sync = 510
due_time Job.entry_open = 585
due_time Job.rebalance = 750
due_time Job.risk_check_mid = 810
due_time Job.risk_check_late = 900
due_time Job.risk_sweep = 930
due_time Job.eod_cancel_orders = 975
due_time Job.eod_report = 990

-- The jobs in the order of the day.
abbrev pub day_jobs : List Job
day_jobs =
    Job.pre_open_sync ∷ Job.entry_open ∷ Job.rebalance ∷ Job.risk_check_mid ∷ Job.risk_check_late
    ∷ Job.risk_sweep ∷ Job.eod_cancel_orders ∷ Job.eod_report ∷ []

schedule_jobs : map (λ (e : Job × ℕ). e.0) schedule ≡ day_jobs
unfolding schedule
schedule_jobs = refl

keep-agree :
    (p : Job × ℕ → Bool) (q : Job → Bool) (es : List (Job × ℕ))
    → All (λ e. p e ≡ q e.0) es
    → map (λ e. e.0) (keep p es) ≡ keep q (map (λ e. e.0) es)
keep-agree p q [] h = refl
keep-agree p q (e ∷ es) (h, hs) = ground (arith, keep-agree p q es hs)

-- What is known of the last date of a job: what this process has marked, and failing that what the
-- store keeps of the jobs that are fired once across restarts.
abbrev pub known_date : Scheduler → Job → Option ℕ
known_date s j = elim (s.last_fired j) [
  | some day ↦ some day
  | none ↦ elim (at_most_once j && s.backed) [ true ↦ s.durable j | false ↦ none ]
]

-- No later entry is for the same job.
abbrev Distinct : List (Job × ℕ) → Type 0
Distinct [] = Unit
Distinct (e ∷ es) = All (λ d. job_eq d.0 e.0 ≡ false) es × Distinct es

schedule-Distinct : Distinct schedule
unfolding schedule job_eq
schedule-Distinct = ground arith

module _ (today now : ℕ) where
  is_due-fire :
      (s : Scheduler) (j : Job) (e : Job × ℕ)
      → job_eq e.0 j ≡ false
      → is_due today now (fire today j s) e ≡ is_due today now s e
  unfolding is_due fire put last
  is_due-fire s j e h = ground arith

  keep-fire :
      (s : Scheduler) (j : Job) (es : List (Job × ℕ))
      → All (λ d. job_eq d.0 j ≡ false) es
      → keep (is_due today now (fire today j s)) es ≡ keep (is_due today now s) es
  keep-fire s j [] h = refl
  keep-fire s j (e ∷ es) (h, hs) = rw (is_due-fire s j e h, keep-fire s j es hs)

  poll_entries_due :
      (es : List (Job × ℕ)) (s : Scheduler)
      → Distinct es
      → (poll_entries today now es s).0 ≡ map (λ e. e.0) (keep (is_due today now s) es)
  unfolding poll_entries
  poll_entries_due [] s d = refl
  poll_entries_due (e ∷ es) s (h, d) = elim (Bool-cases (is_due today now s e)) [
    | inl due ↦ rw due (rw (poll_entries_due es (fire today e.0 s) d) (rw (keep-fire s e.0 es h)))
    | inr not_due ↦ rw not_due (poll_entries_due es s d)
  ]

  any-keep :
      (j : Job) (p : Job × ℕ → Bool) (es : List (Job × ℕ))
      → mem j (map (λ e. e.0) (keep p es)) ≡ any (λ e. job_eq j e.0 && p e) es
  any-keep j p [] = refl
  any-keep j p (e ∷ es) = ground (arith, any-keep j p es)

  poll-keep :
      (s : Scheduler) → (poll today now s).0 ≡ map (λ e. e.0) (keep (is_due today now s) schedule)
  unfolding poll
  poll-keep s = poll_entries_due schedule s schedule-Distinct

  pub mem-poll :
      (j : Job) (s : Scheduler)
      → mem j (poll today now s).0 ≡ any (λ e. job_eq j e.0 && is_due today now s e) schedule
  mem-poll j s = rw (poll-keep s) (any-keep j (is_due today now s) schedule)

  -- What is fired today is remembered, and the rest of the table is left alone.
  poll_entries_last_fired :
      (j : Job) (es : List (Job × ℕ)) (s : Scheduler)
      → (poll_entries today now es s).1.last_fired j
        ≡ (if mem j (poll_entries today now es s).0 then some today else s.last_fired j)
  unfolding poll_entries
  poll_entries_last_fired j [] s = refl
  poll_entries_last_fired j (e ∷ es) s = elim (Bool-cases (is_due today now s e)) [
    | inl due ↦
        rw due (unfold fire put in ground (arith, poll_entries_last_fired j es (fire today e.0 s)))
    | inr not_due ↦ rw not_due (poll_entries_last_fired j es s)
  ]

  poll_entries_durable :
      (j : Job) (es : List (Job × ℕ)) (s : Scheduler)
      → ((poll_entries today now es s).1.durable j ≡ (
          if mem j (poll_entries today now es s).0 && at_most_once j && s.backed
          then some today
          else s.durable j))
        × ((poll_entries today now es s).1.backed ≡ s.backed)
  unfolding poll_entries
  poll_entries_durable j [] s = (refl, refl)
  poll_entries_durable j (e ∷ es) s = elim (Bool-cases (is_due today now s e)) [
    | inl due ↦ rw due (
        unfold fire put in
        ground (arith, eq_of_job_eq j e.0, poll_entries_durable j es (fire today e.0 s)))
    | inr not_due ↦ rw not_due (poll_entries_durable j es s)
  ]

  abbrev pub fires : Scheduler → Job → Bool
  fires s j = leb (due_time j) now && not (is_day today (known_date s j))

  schedule-fires : (s : Scheduler) → All (λ e. is_due today now s e ≡ fires s e.0) schedule
  unfolding schedule is_due last at_most_once
  schedule-fires s = ground arith

  -- A poll fires exactly the jobs whose minute has come and of which neither this process nor, for
  -- the jobs that are fired once across restarts, the wired store knows of a firing today: each of
  -- them once and in the order of the day. Afterwards the process, and for those jobs the wired
  -- store, has today's date for each job that was fired and what it had for every other.
  pub poll_lem :
      (s : Scheduler)
      → let (fired, after) = poll today now s in
        (fired ≡ keep (fires s) day_jobs)
        × ((j : Job) → after.last_fired j ≡ (if mem j fired then some today else s.last_fired j))
        × ((j : Job)
            → after.durable j
              ≡ (if mem j fired && at_most_once j && s.backed then some today else s.durable j))
  unfolding poll
  poll_lem s = (
    poll-keep s
        ∙ keep-agree (is_due today now s) (fires s) schedule (schedule-fires s)
        ∙ ap (keep (fires s)) schedule_jobs,
    (λ j. poll_entries_last_fired j schedule s),
    (λ j. (poll_entries_durable j schedule s).0),
  )

  not_due_again :
      (j : Job) (s : Scheduler) (es : List (Job × ℕ))
      → last s j ≡ some today
      → any (λ e. job_eq j e.0 && is_due today now s e) es ≡ false
  unfolding is_due
  not_due_again j s [] h = refl
  not_due_again j s (e ∷ es) h = ground (arith, eq_of_job_eq j e.0, not_due_again j s es h)

any-restart :
    (today now : ℕ) (j : Job) (s : Scheduler) (es : List (Job × ℕ))
    → at_most_once j ≡ false
    → any (λ e. job_eq j e.0 && is_due today now (restart s) e) es
      ≡ any (λ e. job_eq j e.0 && leb e.1 now) es
unfolding is_due last restart
any-restart today now j s [] a = refl
any-restart today now j s (e ∷ es) a =
    ground (arith, eq_of_job_eq j e.0, any-restart today now j s es a)

module _ (today now later : ℕ) (j : Job) (s : Scheduler) where
  -- A job that a poll has fired is not fired by another poll of the same day.
  pub poll_once :
      mem j (poll today now s).0 ≡ true → mem j (poll today later (poll today now s).1).0 ≡ false
  poll_once h =
      rw (mem-poll today later j (poll today now s).1)
        (not_due_again today later j (poll today now s).1 schedule remembered)
    where
      remembered : last (poll today now s).1 j ≡ some today
      remembered =
          unfold poll last in ground (arith, poll_entries_last_fired today now j schedule s, h)

  -- With the state store wired, the rebalance, the cancellation of orders at the end of the day and
  -- its report are not fired again that day by a process that is started after they ran.
  pub poll_once_across_restart :
      s.backed ≡ true
      → at_most_once j ≡ true
      → mem j (poll today now s).0 ≡ true
      → mem j (poll today later (restart (poll today now s).1)).0 ≡ false
  poll_once_across_restart b a h =
      rw (mem-poll today later j (restart (poll today now s).1))
        (not_due_again today later j (restart (poll today now s).1) schedule remembered)
    where
      remembered : last (restart (poll today now s).1) j ≡ some today
      remembered =
          unfold poll last restart in
          ground (arith, poll_entries_durable today now j schedule s, h, a, b)

  -- Every other job is fired again by the first poll after a start, once its time has come.
  pub restart_catches_up :
      at_most_once j ≡ false
      → mem j (poll today now (restart s)).0 ≡ any (λ e. job_eq j e.0 && leb e.1 now) schedule
  restart_catches_up a =
      rw (mem-poll today now j (restart s)) (any-restart today now j s schedule a)
