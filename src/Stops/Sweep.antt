-- ===== src/Stops/Sweep.antt =====
-- autotrader/stops.py, the first pass of `StopManager.reconcile`: what the sweep cancels, and what it
-- leaves in the tables, with a broker that may answer, refuse or raise at each cancellation.
use autotrader_ai.Prelude.{
  ℕ, suc, ◌+◌, ◌≤◌, ◌≡◌, refl, sym, ap, ◌∙◌, inl, inr, Bool, false, some, List, [], ◌∷◌, arith,
  keep, All, All-mono, length, not,
}
use mathlib.Core.Path.{subst}
use autotrader_ai.Prelude.Tally.{tally, tally-cons}
use autotrader_ai.Prelude.Text.{Text}
use autotrader_ai.Float.{Float, fixed_float}
use autotrader_ai.Db.Tables.{Tables, mark_order_cancelled}
use autotrader_ai.Engine.World.{Fault, Result, ok, err, cancelled, Log, State, Action, pure}
use autotrader_ai.Engine.Binds.{bind_ok, bind_err}
use autotrader_ai.Engine.Setup.{Setup}
use autotrader_ai.Stops.Orphans.{protects, protects-marked}
use autotrader_ai.Stops.Reconcile.{sweep_order, sweep_orders}
use autotrader_ai.Stops.Step.{refused, sweep_order-Step}

module _ {W : Type 0} where
  -- The log after the broker took these cancellations, in their order.
  abbrev pub log_taken : List Text → Log W → Log W
  log_taken [] log = log
  log_taken (b ∷ bs) log = log_taken bs (cancelled b ∷ log)

  -- The tables with the rows of these orders marked as cancelled.
  abbrev pub mark_all : List Text → Tables W → Tables W
  mark_all [] t = t
  mark_all (b ∷ bs) t = mark_all bs (mark_order_cancelled b t)

  -- The orders that protect no held long.
  abbrev pub orphans : List Text → Tables W → List Text → List Text
  orphans longs t bs = keep (λ b. not (protects longs t b)) bs

-- A sweep that ends has counted the cancellations.
abbrev pub Counts : ℕ → List Text → Result ℕ → Type 0
Counts n taken (ok m) = m ≡ n + length taken
Counts n taken (err e) = Unit

module _ {W S : Type 0} ⦃f : Float W⦄ (c : Setup W S) (alert : Text → S → S) where
  module _ (longs : List Text) (test : Text → Bool) where
    abbrev Swept : Tables W → List Text → ℕ → State W S → Result ℕ × State W S → Type 0
    Swept t bs n st (r, st') =
        (taken : List Text) × (st'.log ≡ log_taken taken st.log)
        × (st'.db ≡ some (mark_all taken t))
        × All (λ b. protects longs t b ≡ false) taken
        × (tally test taken ≤ tally test bs)
        × Counts n taken r

    -- The rest of a sweep, after one order was left alone.
    after_left :
        (b : Text) (t : Tables W) (bs : List Text) (n : ℕ) (st st' : State W S)
        (end : Result ℕ × State W S)
        → st'.log ≡ st.log
        → Swept t bs n st' end
        → Swept t (b ∷ bs) n st end
    after_left b t bs n st st' end kept (taken, log, db, free, few, counts) = (
      taken,
      log ∙ ap (log_taken taken) kept,
      db,
      free,
      omega (arith, few, tally-cons test b bs),
      counts,
    )

    no_more :
        (t : Tables W) (bs : List Text) (n : ℕ) (st : State W S) (end : Result ℕ × State W S)
        → Swept t bs (n + 0) st end
        → Swept t bs n st end
    no_more t bs n st end h =
        let same : n + 0 ≡ n = omega arith in subst (λ m. Swept t bs m st end) same h

    Counts-more :
        (n : ℕ) (b : Text) (taken : List Text) (r : Result ℕ)
        → Counts (n + 1) taken r
        → Counts n (b ∷ taken) r
    Counts-more n b taken (ok m) h = omega (arith, h)
    Counts-more n b taken (err e) h = tt

    after_taken :
        (b : Text) (t : Tables W) (bs : List Text) (n : ℕ) (st st' : State W S)
        (end : Result ℕ × State W S)
        → protects longs t b ≡ false
        → st'.log ≡ cancelled b ∷ st.log
        → Swept (mark_order_cancelled b t) bs (n + 1) st' end
        → Swept t (b ∷ bs) n st end
    after_taken b t bs n st st' end orphan logged (taken, log, db, free, few, counts) = (
      b ∷ taken,
      log ∙ ap (log_taken taken) logged,
      db,
      (
        orphan,
        All-mono (λ i. protects longs (mark_order_cancelled b t) i ≡ false)
            (λ i. protects longs t i ≡ false) taken
            (λ i same. sym (protects-marked longs b i t) ∙ same) free,
      ),
      omega (arith, few, tally-cons test b bs, tally-cons test b taken),
      Counts-more n b taken end.0 counts,
    )

    sweep_orders-Swept :
        (bs : List Text) (n : ℕ) (t : Tables W) (st : State W S)
        → st.db ≡ some t
        → Swept t bs n st (sweep_orders c alert longs bs n st)
    unfolding sweep_orders pure tally
    sweep_orders-Swept [] n t st h = ([], refl, h, tt, omega arith, omega arith)
    sweep_orders-Swept (b ∷ bs) n t st h =
        let st' = (sweep_order c alert longs b st).1 in
        let next : ℕ → Action W S ℕ = λ k. sweep_orders c alert longs bs (n + k) in
        let whole : (r : Result ℕ)
            → (sweep_order c alert longs b st).0 ≡ r
            → sweep_order c alert longs b st ≡ (r, st') =
          λ r e. ap (λ r. (r, st')) e in
        let go_on : (sweep_order c alert longs b st).0 ≡ ok 0
            → st'.log ≡ st.log
            → st'.db ≡ some t
            → Swept t (b ∷ bs) n st (sweep_orders c alert longs (b ∷ bs) n st) =
          λ passed log db.
            let run = bind_ok (sweep_order c alert longs b) next st 0 st' (whole (ok 0) passed) in
            subst (Swept t (b ∷ bs) n st) (sym run) (
              after_left b t bs n st st' (next 0 st') log
                (no_more t bs n st' (next 0 st') (sweep_orders-Swept bs (n + 0) t st' db))) in
        elim (sweep_order-Step c alert longs b t st h) [
          | inl (held, passed, log, db) ↦ go_on passed log db
          | inr (inl (e, asked, inl passed, log, db)) ↦ go_on passed log db
          | inr (inl (e, asked, inr fatal, log, db)) ↦
              let run =
                bind_err (sweep_order c alert longs b) next st e st' (whole (err e) fatal) in
              subst (Swept t (b ∷ bs) n st) (sym run) ([], log, db, tt, omega arith, tt)
          | inr (inr (orphan, passed, log, db)) ↦
              let run = bind_ok (sweep_order c alert longs b) next st 1 st' (whole (ok 1) passed) in
              subst (Swept t (b ∷ bs) n st) (sym run) (
                after_taken b t bs n st st' (next 1 st') orphan log
                  (sweep_orders-Swept bs (n + 1) (mark_order_cancelled b t) st' db))
        ]

    -- Whatever the broker answers to the cancellations, refusals and exceptions included, a sweep
    -- cancels only orders that are no trailing stop of a held long, each at most as often as it is
    -- in the book; the log gains exactly these cancellations and the tables exactly their marks, also
    -- where an exception ends the sweep; and where it ends without one it has counted them.
    pub sweep_orders_lem :
        (bs : List Text) (n : ℕ) (t : Tables W) (st : State W S)
        → st.db ≡ some t
        → let (r, st') = sweep_orders c alert longs bs n st in
          (taken : List Text) × (st'.log ≡ log_taken taken st.log)
          × (st'.db ≡ some (mark_all taken t))
          × All (λ b. protects longs t b ≡ false) taken
          × (tally test taken ≤ tally test bs)
          × Counts n taken r
    sweep_orders_lem = sweep_orders-Swept

  abbrev Complete : List Text → List Text → ℕ → Tables W → State W S → Result ℕ × State W S → Type 0
  Complete longs bs n t st (r, st') =
      (r ≡ ok (n + length (orphans longs t bs)))
      × (st'.log ≡ log_taken (orphans longs t bs) st.log)
      × (st'.db ≡ some (mark_all (orphans longs t bs) t))

  ok_is_no_err : {e : Fault} → ok tt ≡ refused e → ⊥
  ok_is_no_err h = ground arith

  orphans-marked :
      (longs : List Text) (b : Text) (t : Tables W) (bs : List Text)
      → orphans longs (mark_order_cancelled b t) bs ≡ orphans longs t bs
  orphans-marked longs b t [] = refl
  orphans-marked longs b t (i ∷ is) =
      ground (arith, protects-marked longs b i t, orphans-marked longs b t is)

  -- Where the broker takes every cancellation it is asked for, a sweep ends without an exception and
  -- cancels every order of the book that is no trailing stop of a held long, in the order of the
  -- book, and no other; the tables have the marks of these, and the sweep counts them.
  pub sweep_orders_complete :
      (takes : (b : Text) (s : S) → (c.world.cancel_order b s).0 ≡ ok tt) (longs : List Text)
      (bs : List Text) (n : ℕ) (t : Tables W) (st : State W S)
      → st.db ≡ some t
      → let (r, st') = sweep_orders c alert longs bs n st in
        (r ≡ ok (n + length (orphans longs t bs)))
        × (st'.log ≡ log_taken (orphans longs t bs) st.log)
        × (st'.db ≡ some (mark_all (orphans longs t bs) t))
  unfolding sweep_orders pure
  sweep_orders_complete takes longs [] n t st h =
      let same : n ≡ n + 0 = omega arith in (ap ok same, refl, h)
  sweep_orders_complete takes longs (b ∷ bs) n t st h =
      let st' = (sweep_order c alert longs b st).1 in
      let next : ℕ → Action W S ℕ = λ k. sweep_orders c alert longs bs (n + k) in
      let whole : (r : Result ℕ)
          → (sweep_order c alert longs b st).0 ≡ r
          → sweep_order c alert longs b st ≡ (r, st') =
        λ r e. ap (λ r. (r, st')) e in
      elim (sweep_order-Step c alert longs b t st h) [
        | inl (held, passed, log, db) ↦
            let run = bind_ok (sweep_order c alert longs b) next st 0 st' (whole (ok 0) passed) in
            let (done, logged, stored') = sweep_orders_complete takes longs bs (n + 0) t st' db in
            let size : n + 0 + length (orphans longs t bs) ≡ n + length (orphans longs t bs) =
              omega arith in
            subst (Complete longs (b ∷ bs) n t st) (sym run) (
              rw held
                (done ∙ ap ok size, logged ∙ ap (log_taken (orphans longs t bs)) log, stored'))
        | inr (inl (e, asked, o, l, d)) ↦ absurd (ok_is_no_err (sym (takes b st.outside) ∙ asked))
        | inr (inr (orphan, passed, log, db)) ↦
            let run = bind_ok (sweep_order c alert longs b) next st 1 st' (whole (ok 1) passed) in
            let (done, logged, stored') =
              sweep_orders_complete takes longs bs (n + 1) (mark_order_cancelled b t) st' db in
            let rest = orphans-marked longs b t bs in
            let size : n + 1 + length (orphans longs t bs) ≡ n + suc (length (orphans longs t bs)) =
              omega arith in
            subst (Complete longs (b ∷ bs) n t st) (sym run) (
              rw orphan (
                done ∙ ap (λ l. ok (n + 1 + length l)) rest ∙ ap ok size,
                logged
                    ∙ ap (λ l. log_taken l st'.log) rest
                    ∙ ap (log_taken (orphans longs t bs)) log,
                stored' ∙ ap (λ l. some (mark_all l (mark_order_cancelled b t))) rest,
              ))
      ]
