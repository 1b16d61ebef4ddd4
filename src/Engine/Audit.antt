-- ===== src/Engine/Audit.antt =====
-- autotrader/router.py: what the audit file and the table of seen requests promise.
use autotrader_ai.Prelude.{
  ◌≡◌, refl, sym, ap, ◌∙◌, ◌⊎◌, inl, inr, true, false, none, some, [], ◌∷◌, arith, Bool-cases,
  Option-cases,
}
use autotrader_ai.Float.{fixed_float}
use autotrader_ai.Domain.{OrderState, OrderRequest, OrderAck}
use autotrader_ai.Rebalance.{get_key}
use autotrader_ai.Engine.World.{
  Fault, Result, ok, err, Outside, Event, intent, placed, acked, account, cancelled, halting, Log,
  State, ◌>>=◌,
}
use autotrader_ai.Engine.Binds.{
  Result-cases, set_key-get_key, ok-injective, after_bind, bind_ok, bind_err,
}
use autotrader_ai.Engine.Router.{audit, remember, place, answered, submit_new, submit}

-- Each order that reached the broker comes directly after its own line of intent.
unfoldable pub IsAudited : {W : Type 0} → Log W → Type 0
IsAudited [] = Unit
IsAudited (placed req ∷ []) = ⊥
IsAudited (placed req ∷ e ∷ log) = (e ≡ intent req.client_order_id) × IsAudited (e ∷ log)
IsAudited (intent _ ∷ log) = IsAudited log
IsAudited (acked _ _ ∷ log) = IsAudited log
IsAudited (account _ ∷ log) = IsAudited log
IsAudited (cancelled _ ∷ log) = IsAudited log
IsAudited (halting ∷ log) = IsAudited log

module _ {W S : Type 0} (o : Outside W S) where
  pub audit-cases :
      (line : Event W) (st : State W S)
      → (((audit o line st).0 ≡ ok tt) × ((audit o line st).1.log ≡ line ∷ st.log))
        ⊎ (((audit o line st).0 ≡ err Fault.audit_failed) × ((audit o line st).1.log ≡ st.log))
  unfolding audit
  audit-cases line st = elim (Bool-cases (o.append_audit st.outside).0) [
    | inl e ↦ inl (ground arith)
    | inr e ↦ inr (ground arith)
  ]

  pub place-log :
      (req : OrderRequest W) (st : State W S)
      → ((place o req st).1.log ≡ placed req ∷ st.log)
        × ((ack : OrderAck) × ((place o req st).0 ≡ ok ack))
  unfolding place
  place-log req st = elim (Result-cases (o.place_order req st.outside).0) [
    | inl e ↦ rw (e.1, place) (refl, (e.0, refl))
    | inr e ↦ rw (e.1, place) (refl, (_, refl))
  ]

  audit_later :
      (line : Event W) (st : State W S)
      → ((log : Log W) → IsAudited log → IsAudited (line ∷ log))
      → IsAudited st.log
      → IsAudited (audit o line st).1.log
  audit_later line st f h = elim (audit-cases line st) [
    | inr d ↦ rw d.1 h
    | inl d ↦ rw d.1 (f st.log h)
  ]

  pub audit-ok :
      (line : Event W) (st : State W S) (u : Unit)
      → (audit o line st).0 ≡ ok u
      → (audit o line st).1.log ≡ line ∷ st.log
  audit-ok line st u h = elim (audit-cases line st) [ inl d ↦ d.1 | inr d ↦ absurd (ground arith) ]

  pub audit-err :
      (line : Event W) (st : State W S) (e : Fault)
      → (audit o line st).0 ≡ err e
      → (audit o line st).1.log ≡ st.log
  audit-err line st e h = elim (audit-cases line st) [ inl d ↦ absurd (ground arith) | inr d ↦ d.1 ]

  answered-IsAudited :
      (req : OrderRequest W) (ack : OrderAck) (st : State W S)
      → IsAudited st.log
      → IsAudited (answered o req ack st).1.log
  unfolding answered remember
  answered-IsAudited req ack st h =
      let line = acked req.client_order_id ack.state in
      let h' = audit_later line st (λ log a. unfold IsAudited in a) h in
      after_bind {B = OrderAck} (λ r. IsAudited r.1.log) (audit o line)
        (λ _. remember o req.client_order_id ack) st (λ _ _. h') (λ _ _. h')

  submit_new-IsAudited :
      (req : OrderRequest W) (st : State W S)
      → IsAudited st.log
      → IsAudited (submit_new o req st).1.log
  unfolding submit_new
  submit_new-IsAudited req st h =
      let P : Result OrderAck × State W S → Type 0 = λ r. IsAudited r.1.log in
      after_bind P (audit o (intent req.client_order_id)) (λ _. place o req >>= answered o req) st
        (λ e d. rw (audit-err _ st e d) h)
        (λ u d.
          let st1 = (audit o (intent req.client_order_id) st).1 in
          let p = place-log req st1 in
          let st2 = (place o req st1).1 in
          let h2 : IsAudited st2.log =
            rw p.0 (rw (audit-ok _ st u d) (unfold IsAudited in (refl, h))) in
          after_bind P (place o req) (answered o req) st1 (λ e k. h2)
            (λ ack k. answered-IsAudited req ack st2 h2))

  pub submit-new :
      (req : OrderRequest W) (st : State W S)
      → get_key req.client_order_id st.seen ≡ none
      → submit o req st ≡ submit_new o req st
  unfolding submit submit_new
  submit-new req st e = rw (e, submit) refl

  pub submit-seen :
      (req : OrderRequest W) (st : State W S) (ack : OrderAck)
      → get_key req.client_order_id st.seen ≡ some ack
      → submit o req st ≡ (ok ack, st)
  unfolding submit
  submit-seen req st ack e = rw (e, submit) refl

  -- Whatever the disk and the broker answer, `submit` never lets an order reach the broker without its
  -- own line of intent in the audit file directly before it: if every order of the log so far is so
  -- preceded, then so is every order of the log after `submit`.
  pub submit-IsAudited :
      (req : OrderRequest W) (st : State W S) → IsAudited st.log → IsAudited (submit o req st).1.log
  submit-IsAudited req st h = elim (Option-cases (get_key req.client_order_id st.seen)) [
    | inl e ↦ rw (submit-new req st e) (submit_new-IsAudited req st h)
    | inr e ↦ rw (submit-seen req st e.0 e.1) h
  ]

  answered-seen :
      (req : OrderRequest W) (a : OrderAck) (st : State W S) (ack : OrderAck)
      → (answered o req a st).0 ≡ ok ack
      → get_key req.client_order_id (answered o req a st).1.seen ≡ some ack
  unfolding answered remember
  answered-seen req a st ack =
      after_bind {B = OrderAck}
        (λ r. r.0 ≡ ok ack → get_key req.client_order_id r.1.seen ≡ some ack)
        (audit o (acked req.client_order_id a.state)) (λ _. remember o req.client_order_id a) st
        (λ e _ h. absurd (ground arith))
        (λ _ _ h. rw (set_key-get_key req.client_order_id a _) (ap some (ok-injective h)))

  seen_after :
      (req : OrderRequest W) (st : State W S) (ack : OrderAck)
      → (submit_new o req st).0 ≡ ok ack
      → get_key req.client_order_id (submit_new o req st).1.seen ≡ some ack
  unfolding submit_new
  seen_after req st ack =
      let P : Result OrderAck × State W S → Type 0 =
        λ r. r.0 ≡ ok ack → get_key req.client_order_id r.1.seen ≡ some ack in
      after_bind P (audit o (intent req.client_order_id)) (λ _. place o req >>= answered o req) st
        (λ e _ h. absurd (ground arith))
        (λ _ _.
          after_bind P (place o req) (answered o req) _ (λ e _ h. absurd (ground arith))
            (λ a _. answered-seen req a _ ack))

  -- A repeated `submit` of a request that was answered gives the answer of the first one and does
  -- nothing else: no second order, no line of audit, no change of the router.
  pub submit_idempotent :
      (req : OrderRequest W) (st : State W S) (ack : OrderAck)
      → (submit o req st).0 ≡ ok ack
      → submit o req (submit o req st).1 ≡ (ok ack, (submit o req st).1)
  submit_idempotent req st ack h = elim (Option-cases (get_key req.client_order_id st.seen)) [
    | inl e ↦
        let eq = submit-new req st e in
        let h' : (submit_new o req st).0 ≡ ok ack = rw (sym eq) h in
        rw eq (submit-seen req _ ack (seen_after req st ack h'))
    | inr e ↦
        let eq = submit-seen req st e.0 e.1 in
        let k : get_key req.client_order_id st.seen ≡ some ack =
          e.1 ∙ ap some (ok-injective (sym (ap (λ r. r.0) eq) ∙ h)) in
        rw eq (submit-seen req st ack k)
  ]

  audit_up :
      (line : Event W) (st : State W S)
      → (o.append_audit st.outside).0 ≡ true
      → audit o line st
        ≡ (ok tt, record st { outside = (o.append_audit st.outside).1; log = line ∷ st.log })
  unfolding audit
  audit_up line st h = rw (h, audit) refl

  audit_down :
      (line : Event W) (st : State W S)
      → (o.append_audit st.outside).0 ≡ false
      → audit o line st
        ≡ (err Fault.audit_failed, record st { outside = (o.append_audit st.outside).1 })
  unfolding audit
  audit_down line st h = rw (h, audit) refl

  place_answer :
      (req : OrderRequest W) (st : State W S)
      → (ack : OrderAck) × (place o req st ≡ (
        ok ack,
        record st { outside = (o.place_order req st.outside).1; log = placed req ∷ st.log },
      ))
  unfolding place
  place_answer req st = elim (Result-cases (o.place_order req st.outside).0) [
    | inl e ↦ (e.0, rw (e.1, place) refl)
    | inr e ↦ (
      record {
        client_order_id = req.client_order_id;
        broker_order_id = none;
        state = OrderState.unknown;
      },
      rw (e.1, place) refl,
    )
  ]

  -- Where the disk takes the line of intent but not the line of the answer, `submit` fails although
  -- the order was placed, and the router does not remember the request.
  pub unwritten_ack_forgotten :
      (req : OrderRequest W) (st : State W S)
      → get_key req.client_order_id st.seen ≡ none
      → (o.append_audit st.outside).0 ≡ true
      → (o.append_audit (o.place_order req (o.append_audit st.outside).1).1).0 ≡ false
      → let (r, st') = submit o req st in
        (r ≡ err Fault.audit_failed)
        × (st'.log ≡ placed req ∷ intent req.client_order_id ∷ st.log)
        × (st'.seen ≡ st.seen)
  unfolding submit_new answered
  unwritten_ack_forgotten req st new first_line second_line =
      let st1 = record st {
        outside = (o.append_audit st.outside).1;
        log = intent req.client_order_id ∷ st.log;
      } in
      let (ack, answer) = place_answer req st1 in
      let line = intent req.client_order_id in
      let ends = acked req.client_order_id ack.state in
      let st2 = record st1 {
        outside = (o.place_order req st1.outside).1;
        log = placed req ∷ st1.log;
      } in
      let run =
        submit-new req st new
        ∙ bind_ok (audit o line) (λ _. place o req >>= answered o req) st tt st1
            (audit_up line st first_line)
        ∙ bind_ok (place o req) (answered o req) st1 ack st2 answer
        ∙ bind_err (audit o ends) (λ _. remember o req.client_order_id ack) st2 _ _
            (audit_down ends st2 second_line) in
      rw run (refl, refl, refl)
