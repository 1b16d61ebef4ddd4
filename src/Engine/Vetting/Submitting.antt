-- ===== src/Engine/Vetting/Submitting.antt =====
-- autotrader/router.py and the account of autotrader/main.py: what is known after the account is read,
-- and that an order which the gate passed against it may be submitted.
use autotrader_ai.Prelude.{
  ◌≡◌, refl, inl, inr, Bool, true, false, Option, List, ◌∷◌, arith, Bool-cases, Option-cases,
}
use autotrader_ai.Prelude.Text.{Text}
use autotrader_ai.Float.{Float, fixed_float}
use autotrader_ai.Domain.{OrderRequest, OrderAck, AccountSnapshot, OrderState}
use autotrader_ai.Config.{RiskConfig}
use autotrader_ai.Risk.Core.{evaluate}
use autotrader_ai.Session.Gate.{EntryGate}
use autotrader_ai.Rebalance.{get_key}
use autotrader_ai.Engine.World.{
  Result, ok, Outside, Event, intent, placed, acked, Log, State, ◌>>=◌,
}
use autotrader_ai.Engine.Router.{audit, remember, place, answered, submit_new, submit}
use autotrader_ai.Engine.Binds.{after_bind, Result-cases}
use autotrader_ai.Engine.Audit.{
  IsAudited, audit-cases, audit-ok, place-log, submit-new, submit-seen,
}
use autotrader_ai.Engine.Vetting.Vetted.{
  Known, judged, unhalted, Holds, Holds-Sound, EndsIn, Runs, IsVetted, has_halted, last_account,
  is_entry,
}
use autotrader_ai.Engine.Vetting.Rules.{ends_still, ends_ok, ends_err}
use autotrader_ai.Engine.Vetting.Keeps.{Keeps, Keeps-Quiet, Keeps-bind, Holds-later, Sound-later}
use autotrader_ai.Engine.Setup.{Setup, read_account}

module _ {W : Type 0} ⦃f : Float W⦄ (cfg : RiskConfig W) (snap : AccountSnapshot W)
    (entries : Bool) where
  -- The gate passed the order against `snap`, and the order is an entry only where entries are open.
  pub record Passed (req : OrderRequest W) : Type 0 where
    pub ref_price : Option W
    pub coverage_legs : List (OrderRequest W)
    pub approved : (evaluate req snap cfg ref_price coverage_legs).approved ≡ true
    pub opens : is_entry req ≡ true → entries ≡ true

  Holds-placed :
      (req : OrderRequest W) (log : Log W) (gate : Option EntryGate)
      → Passed req
      → IsAudited (placed req ∷ log)
      → Holds cfg (judged snap entries) log gate
      → Holds cfg (judged snap entries) (placed req ∷ log) gate
  unfolding Holds IsVetted last_account has_halted
  Holds-placed req log gate p audited h = (
    record {
      audited = audited;
      vetted = (
        record {
          snap = snap;
          ref_price = p.ref_price;
          coverage_legs = p.coverage_legs;
          latest = h.1;
          approved = p.approved;
          before_halt = λ e. h.2 (p.opens e);
        },
        h.0.vetted,
      );
      gated = h.0.gated;
    },
    h.1,
    h.2,
  )

module _ {W S : Type 0} (o : Outside W S) where
  audit-gate : (line : Event W) (st : State W S) → (audit o line st).1.gate ≡ st.gate
  unfolding audit
  audit-gate line st = elim (Bool-cases (o.append_audit st.outside).0) [
    | inl e ↦ rw (e, audit) refl
    | inr e ↦ rw (e, audit) refl
  ]

  place-gate : (req : OrderRequest W) (st : State W S) → (place o req st).1.gate ≡ st.gate
  unfolding place
  place-gate req st = elim (Result-cases (o.place_order req st.outside).0) [
    | inl e ↦ rw (e.1, place) refl
    | inr e ↦ rw (e.1, place) refl
  ]

module _ {W S : Type 0} ⦃f : Float W⦄ (cfg : RiskConfig W) (o : Outside W S) where
  -- A line of the audit file that changes nothing of what is known.
  audit-Keeps :
      (k : Known W) (line : Event W)
      → ((log : Log W) (gate : Option EntryGate)
          → Holds cfg k log gate
          → Holds cfg k (line ∷ log) gate)
      → Keeps cfg k (audit o line)
  audit-Keeps k line g = record { runs = record { at = λ st h. keep_line st h } }
    where
      keep_line :
          (st : State W S)
          → Holds cfg k st.log st.gate
          → EndsIn cfg (λ _. k) (audit o line st).0 (audit o line st).1
      keep_line st h = elim (audit-cases o line st) [
        | inl d ↦ ends_still cfg k _ _ (rw d.1 (rw (audit-gate o line st) (g st.log st.gate h)))
        | inr d ↦ ends_still cfg k _ _ (rw d.1 (rw (audit-gate o line st) h))
      ]

  intent-Keeps : (k : Known W) (id : Text) → Keeps cfg k (audit o (intent id))
  unfolding IsAudited IsVetted last_account has_halted
  intent-Keeps k id =
      audit-Keeps k (intent id)
        (λ log gate h. Holds-later cfg _ _ _ k (λ a. a) (λ v. v) refl refl h)

  acked-Keeps : (k : Known W) (id : Text) (s : OrderState) → Keeps cfg k (audit o (acked id s))
  unfolding IsAudited IsVetted last_account has_halted
  acked-Keeps k id s =
      audit-Keeps k (acked id s)
        (λ log gate h. Holds-later cfg _ _ _ k (λ a. a) (λ v. v) refl refl h)

  answered-Keeps :
      (k : Known W) (req : OrderRequest W) (ack : OrderAck) → Keeps cfg k (answered o req ack)
  unfolding answered remember
  answered-Keeps k req ack =
      Keeps-bind _ _ (acked-Keeps k req.client_order_id ack.state)
        (λ _. Keeps-Quiet (record { still = λ st. (refl, refl) }))

module _ {W S : Type 0} ⦃f : Float W⦄ (cfg : RiskConfig W) (o : Outside W S)
    (snap : AccountSnapshot W) (entries : Bool) (req : OrderRequest W)
    (passed : Passed cfg snap entries req) where
  -- Once the line of intent is written, the order may be placed.
  placed-Holds :
      (st : State W S)
      → Holds cfg (judged snap entries) st.log st.gate
      → (u : Unit) → (audit o (intent req.client_order_id) st).0 ≡ ok u
      → let st1 = (audit o (intent req.client_order_id) st).1 in
        Holds cfg (judged snap entries) (place o req st1).1.log (place o req st1).1.gate
  unfolding EndsIn IsAudited
  placed-Holds st h u e =
      let k : Known W = judged snap entries in
      let line = intent req.client_order_id in
      let st1 = (audit o line st).1 in
      let h1 : Holds cfg k st1.log st1.gate =
        ends_ok cfg (λ _. k) (audit o line st).0 st1 u e ((intent-Keeps cfg o k _).runs.at st h) in
      let audited : IsAudited (placed req ∷ st1.log) =
        rw (audit-ok o line st u e) (refl, (Holds-Sound cfg k h).audited) in
      rw (place-log o req st1).0 (
        rw (place-gate o req st1)
          (Holds-placed cfg snap entries req st1.log st1.gate passed audited h1))

  submit_new-Ends :
      (st : State W S)
      → Holds cfg (judged snap entries) st.log st.gate
      → EndsIn cfg (λ _. judged snap entries) (submit_new o req st).0 (submit_new o req st).1
  unfolding submit_new
  submit_new-Ends st h =
      let k : Known W = judged snap entries in
      let line = intent req.client_order_id in
      let P : Result OrderAck × State W S → Type 0 = λ r. EndsIn cfg (λ _. k) r.0 r.1 in
      after_bind P (audit o line) (λ _. place o req >>= answered o req) st
        (λ e d.
          unfold EndsIn in
          ends_err cfg (λ _. k) (audit o line st).0 (audit o line st).1 e d
            ((intent-Keeps cfg o k _).runs.at st h))
        (λ u d.
          let h2 = placed-Holds st h u d in
          after_bind P (place o req) (answered o req) (audit o line st).1
            (λ e _. unfold EndsIn in Holds-Sound cfg k h2)
            (λ ack _. (answered-Keeps cfg o k req ack).runs.at _ h2))

  -- An order that passed the gate against the account read last may be submitted.
  pub submit-Keeps : Keeps cfg (judged snap entries) (submit o req)
  submit-Keeps = record {
    runs = record {
      at = λ st h. elim (Option-cases (get_key req.client_order_id st.seen)) [
        | inl e ↦ rw (submit-new o req st e) (submit_new-Ends st h)
        | inr e ↦ rw (submit-seen o req st e.0 e.1) (unfold EndsIn in h)
      ];
    };
  }

module _ {W S : Type 0} ⦃f : Float W⦄ (c : Setup W S) where
  -- Whatever was known, the account that is read is the one read last.
  pub read_account-Runs : {k : Known W} → Runs c.cfg k (λ snap. judged snap false) (read_account c)
  unfolding read_account EndsIn Holds IsAudited IsVetted last_account has_halted
  read_account-Runs {k = k} = record {
    at = λ st h. elim (Result-cases (c.world.get_account st.outside).0) [
      | inl e ↦
          let s = Holds-Sound c.cfg k h in
          rw (e.1, read_account)
            (Sound-later c.cfg _ _ _ (λ a. a) (λ v. v) refl s, refl, λ b. absurd (ground arith))
      | inr e ↦ rw (e.1, read_account) (Holds-Sound c.cfg k h)
    ];
  }

  -- A reading of the account does not halt the session.
  pub unhalted_read-Runs :
      {entries : Bool}
      → Runs c.cfg (unhalted entries) (λ snap. judged snap entries) (read_account c)
  unfolding read_account EndsIn Holds IsAudited IsVetted last_account has_halted
  unhalted_read-Runs = record {
    at = λ st h. elim (Result-cases (c.world.get_account st.outside).0) [
      | inl e ↦
          rw (e.1, read_account) (Sound-later c.cfg _ _ _ (λ a. a) (λ v. v) refl h.0, refl, h.1)
      | inr e ↦ rw (e.1, read_account) h.0
    ];
  }
