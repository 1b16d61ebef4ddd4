-- ===== src/Moomoo/Cancelling.antt =====
-- autotrader/moomoo_broker.py, `MoomooBroker.cancel_all`: what is cancelled.
use autotrader_ai.Prelude.{
  ◌≡◌, refl, ap, ◌∙◌, Bool, true, false, Option, none, some, List, [], ◌∷◌, if◌then◌else◌, null,
  foldl,
}
use autotrader_ai.Prelude.Text.{Text}
use autotrader_ai.Float.{Float, fixed_float}
use autotrader_ai.Domain.{OrderAck}
use autotrader_ai.Engine.World.{Fault, Result, ok, err}
use autotrader_ai.Moomoo.World.{
  Sdk, Link, Event, Ask, cancelling, ◌>>=◌, pure, raise, ask, note, attempt,
}
use autotrader_ai.Moomoo.Orders.{
  cancel_order, settled, get_open_orders, cancel_ack, cancel_acks, cancel_all,
}

-- The ids of orders that have one, in their order.
abbrev pub ids_of : List OrderAck → List Text
ids_of [] = []
ids_of (ack ∷ acks) = elim ack.broker_order_id [
  | none ↦ ids_of acks
  | some boid ↦ if null boid then ids_of acks else boid ∷ ids_of acks
]

abbrev pub book_ids : Option (List OrderAck) → List Text
book_ids none = []
book_ids (some acks) = ids_of acks

-- The log after cancellations of these ids were asked for.
abbrev pub log_cancels : List Text → List Event → List Event
log_cancels ids log = foldl (λ log id. cancelling id ∷ log) log ids

joined :
    (ack : OrderAck) (acks : List OrderAck) (log : List Event)
    → log_cancels (ids_of acks) (log_cancels (ids_of (ack ∷ [])) log)
      ≡ log_cancels (ids_of (ack ∷ acks)) log
joined ack acks log = cases ack.broker_order_id
  where
    cases :
        (o : Option Text)
        → log_cancels (ids_of acks) (
            log_cancels
              (elim o as (λ _. List Text) [
                | none ↦ []
                | some boid ↦ if null boid then [] else boid ∷ []
              ])
              log)
          ≡ log_cancels
              (elim o as (λ _. List Text) [
                | none ↦ ids_of acks
                | some boid ↦ if null boid then ids_of acks else boid ∷ ids_of acks
              ])
              log
    cases none = refl
    cases (some []) = refl
    cases (some (x ∷ xs)) = refl

-- The SDK raises nothing when it is asked to cancel.
abbrev pub Answers : {A : Type 0} → Result A → Type 0
Answers (ok a) = Unit
Answers (err e) = ⊥

module _ {W S : Type 0} where
  bind_ok :
      {A B : Type 0} (m : Ask W S A) (k : A → Ask W S B) (l : Link W S) (a : A) (l' : Link W S)
      → m l ≡ (ok a, l')
      → (m >>= k) l ≡ k a l'
  unfolding ◌>>=◌
  bind_ok m k l a l' h = rw (ap (λ r. r.0) h, ◌>>=◌) (ap (λ r. k a r.1) h)

  -- What becomes of the answer to one cancellation.
  settle_one :
      (r : Result Bool) (l : Link W S)
      → Answers r
      → let (end, l') = elim r as (λ _. Result (Unit {0}) × Link W S) [
        | ok taken ↦ (if taken then pure tt else raise Fault.broker_error) l
        | err e ↦ (err e, l)
      ] in
        settled end l' ≡ (ok tt, l)
  unfolding settled pure raise
  settle_one (ok true) l h = refl
  settle_one (ok false) l h = refl
  settle_one (err e) l h = absurd h

module _ {W S R : Type 0} ⦃f : Float W⦄ (c : Sdk W S R) where
  -- One cancellation, whatever the SDK's return code.
  cancel_one :
      (boid : Text) (l : Link W S)
      → Answers (c.cancel_order boid l.outside).0
      → (attempt (cancel_order c boid) >>= settled) l ≡ (
        ok tt,
        record l { outside = (c.cancel_order boid l.outside).1; log = cancelling boid ∷ l.log },
      )
  unfolding cancel_order attempt note ask ◌>>=◌
  cancel_one boid l h = settle_one (c.cancel_order boid l.outside).0 _ h

  module _ (answers : (boid : Text) (s : S) → Answers (c.cancel_order boid s).0) where
    cancel_ack_lem :
        (ack : OrderAck) (l : Link W S)
        → (l' : Link W S) × (cancel_ack c ack l ≡ (ok tt, l'))
          × (l'.log ≡ log_cancels (ids_of (ack ∷ [])) l.log)
    unfolding cancel_ack pure
    cancel_ack_lem ack l = cases ack.broker_order_id
      where
        cases :
            (o : Option Text)
            → (l' : Link W S) × (elim o as (λ _. Ask W S (Unit {0})) [
              | none ↦ pure tt
              | some boid ↦
                  if null boid then pure tt else (attempt (cancel_order c boid) >>= settled)
            ]
                  l
                ≡ (ok tt, l'))
              × (l'.log
                  ≡ log_cancels
                      (elim o as (λ _. List Text) [
                        | none ↦ []
                        | some boid ↦ if null boid then [] else boid ∷ []
                      ])
                      l.log)
        cases none = (l, refl, refl)
        cases (some []) = (l, refl, refl)
        cases (some (x ∷ xs)) = (_, cancel_one (x ∷ xs) l (answers (x ∷ xs) l.outside), refl)

    cancel_acks_lem :
        (acks : List OrderAck) (l : Link W S)
        → ((cancel_acks c acks l).0 ≡ ok tt)
          × ((cancel_acks c acks l).1.log ≡ log_cancels (ids_of acks) l.log)
    unfolding cancel_acks pure
    cancel_acks_lem [] l = (refl, refl)
    cancel_acks_lem (ack ∷ acks) l =
        let (l', run, logged) = cancel_ack_lem ack l in
        let (done, rest) = cancel_acks_lem acks l' in
        let same = bind_ok (cancel_ack c ack) (λ _. cancel_acks c acks) l tt l' run in
        (
          ap (λ r. r.0) same ∙ done,
          ap (λ r. r.1.log) same
              ∙ rest
              ∙ ap (log_cancels (ids_of acks)) logged
              ∙ joined ack acks l.log,
        )

    -- Where the query of the book ends without an exception and the SDK raises nothing when it is
    -- asked to cancel, whatever return codes it gives, `cancel_all` ends without an exception and asks to cancel exactly the working orders that its
    -- query of the book listed and that have an id, each once and in their order; where the book is
    -- unknown it asks to cancel none.
    pub cancel_all_lem :
        (l l1 : Link W S) (book : Option (List OrderAck))
        → get_open_orders c l ≡ (ok book, l1)
        → ((cancel_all c l).0 ≡ ok tt)
          × ((cancel_all c l).1.log ≡ log_cancels (book_ids book) l1.log)
    unfolding cancel_all pure
    cancel_all_lem l l1 none h =
        let same = bind_ok (get_open_orders c) _ l none l1 h in
        (ap (λ r. r.0) same, ap (λ r. r.1.log) same)
    cancel_all_lem l l1 (some acks) h =
        let same = bind_ok (get_open_orders c) _ l (some acks) l1 h in
        let (done, logged) = cancel_acks_lem acks l1 in
        (ap (λ r. r.0) same ∙ done, ap (λ r. r.1.log) same ∙ logged)
