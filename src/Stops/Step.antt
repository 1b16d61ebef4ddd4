-- ===== src/Stops/Step.antt =====
-- autotrader/stops.py, the body of the first loop of `StopManager.reconcile`: what one order may come to,
-- with a broker that may answer, refuse or raise.
use autotrader_ai.Prelude.{
  ℕ, ◌≡◌, refl, sym, ap, ◌∙◌, ◌⊎◌, inl, inr, Bool, true, false, some, List, ◌∷◌, Bool-cases,
  if◌then◌else◌,
}
use mathlib.Core.Path.{subst}
use autotrader_ai.Prelude.Text.{Text}
use autotrader_ai.Float.{Float, fixed_float}
use autotrader_ai.Db.Tables.{Tables, mark_order_cancelled}
use autotrader_ai.Engine.World.{
  Fault, Result, ok, err, caught, cancelled, State, Action, ◌>>=◌, ◌>>◌, pure, gets, with_db,
  from_option, try_broker,
}
use autotrader_ai.Engine.Binds.{bind_ok, bind_err, Result-cases}
use autotrader_ai.Engine.Setup.{Setup, cancel}
use autotrader_ai.Stops.Orphans.{protects}
use autotrader_ai.Stops.Reconcile.{stored, sweep_order}

abbrev pub refused : Fault → Result (Unit {0})
refused e = err e

caught_err : (e : Fault) → (caught (refused e) ≡ ok false) ⊎ (caught (refused e) ≡ err e)
unfolding caught
caught_err Fault.audit_failed = inr refl
caught_err Fault.broker_error = inl refl
caught_err Fault.broker_fault = inr refl
caught_err Fault.bad_value = inr refl
caught_err Fault.not_finite = inr refl
caught_err Fault.missing_key = inr refl

module _ {W S : Type 0} ⦃f : Float W⦄ (c : Setup W S) (alert : Text → S → S) where
  -- What one order may come to: left alone since it protects, refused by the broker, where the sweep
  -- goes on or ends, or cancelled.
  abbrev pub Step : List Text → Text → Tables W → State W S → Result ℕ × State W S → Type 0
  Step longs b t st (r, st') =
      ((protects longs t b ≡ true) × (r ≡ ok 0) × (st'.log ≡ st.log) × (st'.db ≡ some t))
      ⊎ ((e : Fault) × ((c.world.cancel_order b st.outside).0 ≡ err e)
          × ((r ≡ ok 0) ⊎ (r ≡ err e))
          × (st'.log ≡ st.log)
          × (st'.db ≡ some t))
      ⊎ ((protects longs t b ≡ false)
          × (r ≡ ok 1)
          × (st'.log ≡ cancelled b ∷ st.log)
          × (st'.db ≡ some (mark_order_cancelled b t)))

  abbrev settle_sweep : Text → Bool → Action W S ℕ
  settle_sweep b gone = if gone then with_db (mark_order_cancelled b) >> pure 1 else pure 0

  abbrev attempt_cancel : Text → Action W S ℕ
  attempt_cancel b = try_broker (cancel c b) >>= settle_sweep b

  abbrev sweep_known : List Text → Text → Tables W → Action W S ℕ
  sweep_known longs b t = if protects longs t b then pure 0 else attempt_cancel b

  cancel_taken :
      (b : Text) (st : State W S)
      → (c.world.cancel_order b st.outside).0 ≡ ok tt
      → cancel c b st ≡ (
        ok tt,
        record st { outside = (c.world.cancel_order b st.outside).1; log = cancelled b ∷ st.log },
      )
  unfolding cancel
  cancel_taken b st h = rw (h, cancel) refl

  cancel_raised :
      (b : Text) (st : State W S) (e : Fault)
      → (c.world.cancel_order b st.outside).0 ≡ err e
      → cancel c b st ≡ (err e, record st { outside = (c.world.cancel_order b st.outside).1 })
  unfolding cancel
  cancel_raised b st e h = rw (h, cancel) refl

  marked :
      (b : Text) (st : State W S) (t : Tables W)
      → st.db ≡ some t
      → (with_db (mark_order_cancelled b) st).1.db ≡ some (mark_order_cancelled b t)
  unfolding with_db
  marked b st t h = rw h refl

  attempt_cancel-Step :
      (longs : List Text) (b : Text) (t : Tables W) (st : State W S)
      → st.db ≡ some t
      → protects longs t b ≡ false
      → Step longs b t st (attempt_cancel b st)
  unfolding try_broker
  attempt_cancel-Step longs b t st h free =
      let left = (c.world.cancel_order b st.outside).1 in
      let answer : Result (Unit {0}) × State W S → Result Bool × State W S =
        λ r. (caught r.0, r.1) in
      elim (Result-cases (c.world.cancel_order b st.outside).0) [
        | inl (tt, taken) ↦
            let after = record st { outside = left; log = cancelled b ∷ st.log } in
            let run =
              bind_ok (try_broker (cancel c b)) (settle_sweep b) st true after
                (ap answer (cancel_taken b st taken) ∙ (unfold caught in refl)) in
            subst (Step longs b t st) (sym run)
              (unfold with_db pure ◌>>=◌ in inr (inr (free, refl, refl, marked b after t h)))
        | inr (e, raised) ↦
            let after = record st { outside = left } in
            elim (caught_err e) [
              | inl passed ↦
                  let run =
                    bind_ok (try_broker (cancel c b)) (settle_sweep b) st false after
                      (ap answer (cancel_raised b st e raised) ∙ ap (λ r. (r, after)) passed) in
                  subst (Step longs b t st) (sym run)
                    (unfold pure in inr (inl (e, raised, inl refl, refl, h)))
              | inr fatal ↦
                  let run =
                    bind_err (try_broker (cancel c b)) (settle_sweep b) st e after
                      (ap answer (cancel_raised b st e raised) ∙ ap (λ r. (r, after)) fatal) in
                  subst (Step longs b t st) (sym run) (inr (inl (e, raised, inr refl, refl, h)))
            ]
      ]

  stored_lem : (st : State W S) (t : Tables W) → st.db ≡ some t → stored st ≡ (ok t, st)
  unfolding stored gets from_option pure ◌>>=◌
  stored_lem st t h = rw h refl

  pub sweep_order-Step :
      (longs : List Text) (b : Text) (t : Tables W) (st : State W S)
      → st.db ≡ some t
      → Step longs b t st (sweep_order c alert longs b st)
  unfolding sweep_order
  sweep_order-Step longs b t st h =
      let run = bind_ok stored (sweep_known longs b) st t st (stored_lem st t h) in
      elim (Bool-cases (protects longs t b)) [
        | inl held ↦
            let same : sweep_known longs b t st ≡ pure 0 st = rw held refl in
            subst (Step longs b t st) (sym (run ∙ same)) (unfold pure in inl (held, refl, refl, h))
        | inr free ↦
            let same : sweep_known longs b t st ≡ attempt_cancel b st = rw free refl in
            subst (Step longs b t st) (sym (run ∙ same)) (attempt_cancel-Step longs b t st h free)
      ]
