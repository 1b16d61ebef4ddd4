-- ===== src/Moomoo/Metered.antt =====
-- autotrader/moomoo_broker.py: the calls of the SDK that take a token of the rate limiter first, and
-- the rules by which each method of the broker keeps to it.
use mathlib.Core.Path.{subst}
use autotrader_ai.Prelude.{
  ◌≡◌, refl, sym, inl, inr, Bool, true, false, Option, none, some, List, [], ◌∷◌, Bool-cases,
  if◌then◌else◌, or_default,
}
use autotrader_ai.Prelude.Text.{Text}
use autotrader_ai.Float.{Float, fixed_float}
use autotrader_ai.Engine.World.{Fault, Result, ok, err}
use autotrader_ai.Engine.Binds.{Result-cases}
use autotrader_ai.Moomoo.Limiter.{acquire}
use autotrader_ai.Moomoo.World.{
  Meter, Sdk, Event, spent, asked, cancelling, Link, Ask, log_token, ◌>>=◌, ◌>>◌, pure, raise, ask,
  note, attempt, bucket_of, with_bucket, acquire_token, called, metered, raising,
}

-- Each metered call comes directly after the token that was taken for it.
unfoldable pub IsMetered : List Event → Type 0
IsMetered [] = Unit
IsMetered (spent m ∷ log) = IsMetered log
IsMetered (cancelling boid ∷ log) = IsMetered log
IsMetered (asked m ∷ []) = ⊥
IsMetered (asked m ∷ e ∷ log) = (e ≡ spent m) × IsMetered log

-- Where a chain of two steps ends.
bind_log :
    {W S A B : Type 0} (P : List Event → Type 0) (m : Ask W S A) (k : A → Ask W S B) (l : Link W S)
    → P (m l).1.log
    → ((a : A) → P (k a (m l).1).1.log)
    → P ((m >>= k) l).1.log
unfolding ◌>>=◌
bind_log P m k l h g = elim (Result-cases (m l).0) [
  | inl e ↦ rw (e.1, ◌>>=◌) (g e.0)
  | inr e ↦ rw (e.1, ◌>>=◌) h
]

module _ {W S : Type 0} where
  pub record Keeps {A : Type 0} (m : Ask W S A) : Type 0 where
    pub apply : (l : Link W S) → IsMetered l.log → IsMetered (m l).1.log

  -- What is kept by an action that starts with a fresh token.
  pub record Uses {A : Type 0} (meter : Meter) (m : Ask W S A) : Type 0 where
    pub apply :
        (l : Link W S) (log : List Event)
        → l.log ≡ spent meter ∷ log
        → IsMetered log
        → IsMetered (m l).1.log

  module _ {A : Type 0} where
    pub Keeps-pure : (a : A) → Keeps (pure a)
    Keeps-pure a = record { apply = λ l h. unfold pure in h }

    pub Keeps-raise : (e : Fault) → Keeps (raise {A = A} e)
    Keeps-raise e = record { apply = λ l h. unfold raise in h }

    pub Keeps-ask : (g : S → Result A × S) → Keeps (ask g)
    Keeps-ask g = record { apply = λ l h. unfold ask in h }

    pub Keeps-attempt : (m : Ask W S A) → Keeps m → Keeps (attempt m)
    Keeps-attempt m k = record { apply = λ l h. unfold attempt in k.apply l h }

    pub Keeps-if : (b : Bool) (m n : Ask W S A) → Keeps m → Keeps n → Keeps (if b then m else n)
    Keeps-if true m n h k = h
    Keeps-if false m n h k = k

    pub Uses-Keeps : (meter : Meter) (m : Ask W S A) → Keeps m → Uses meter m
    Uses-Keeps meter m k = record {
      apply = λ l log e h. k.apply l (subst IsMetered (sym e) (unfold IsMetered in h));
    }

  pub Keeps-cancelling : (boid : Text) → Keeps (note (cancelling boid))
  Keeps-cancelling boid = record { apply = λ l h. unfold note IsMetered in h }

  module _ {A B : Type 0} where
    pub Keeps-bind :
        (m : Ask W S A) (k : A → Ask W S B) → Keeps m → ((a : A) → Keeps (k a)) → Keeps (m >>= k)
    Keeps-bind m k p q = record {
      apply =
          λ l h. bind_log IsMetered m k l (p.apply l h) (λ a. (q a).apply (m l).1 (p.apply l h));
    }

    pub Keeps-raising :
        (k : A → Ask W S B) (r : Result A) → ((a : A) → Keeps (k a)) → Keeps (raising k r)
    unfolding raising
    Keeps-raising k (ok a) h = h a
    Keeps-raising k (err e) h = Keeps-raise e

    pub Keeps-elim :
        (o : Option A) (m : Ask W S B) (g : A → Ask W S B)
        → Keeps m
        → ((a : A) → Keeps (g a))
        → Keeps (elim o [ none ↦ m | some a ↦ g a ])
    Keeps-elim none m g h k = h
    Keeps-elim (some a) m g h k = k a

    pub Uses-elim :
        (meter : Meter) (o : Option A) (m : Ask W S B) (g : A → Ask W S B)
        → Uses meter m
        → ((a : A) → Uses meter (g a))
        → Uses meter (elim o [ none ↦ m | some a ↦ g a ])
    Uses-elim meter none m g h k = h
    Uses-elim meter (some a) m g h k = k a

    pub Uses-called :
        (meter : Meter) (g : S → Result A × S) (k : Result A → Ask W S B)
        → ((r : Result A) → Keeps (k r))
        → Uses meter (called meter g k)
    unfolding called
    Uses-called meter g k h =
        let noted : (l : Link W S) (log : List Event)
            → l.log ≡ spent meter ∷ log
            → IsMetered log
            → IsMetered (note (asked meter) l).1.log =
          λ l log e p.
            unfold note in
            subst (λ log. IsMetered (asked meter ∷ log)) (sym e) (unfold IsMetered in (refl, p)) in
        record {
          apply = λ l log e p.
              bind_log IsMetered (note (asked meter) >> attempt (ask g)) k l
                (bind_log IsMetered (note (asked meter)) (λ _. attempt (ask g)) l (noted l log e p)
                  (λ _. (Keeps-attempt (ask g) (Keeps-ask g)).apply _ (noted l log e p)))
                (λ r. (h r).apply _ (
                  bind_log IsMetered (note (asked meter)) (λ _. attempt (ask g)) l (noted l log e p)
                    (λ _. (Keeps-attempt (ask g) (Keeps-ask g)).apply _ (noted l log e p))));
        }

module _ {W S R : Type 0} ⦃f : Float W⦄ (c : Sdk W S R) where
  pub Keeps-token :
      {B : Type 0} (meter : Meter) (k : Bool → Ask W S B)
      → Keeps (k false)
      → Uses meter (k true)
      → Keeps (acquire_token c meter >>= k)
  unfolding acquire_token ◌>>=◌
  Keeps-token meter k refused used = record {
    apply = λ l h.
        let answer = acquire c.timer c.polls (f.lit 60 0) (bucket_of meter l) l.outside in
        let after = λ (got : Bool). record (with_bucket meter answer.1 l) {
          outside = answer.2;
          log = log_token meter got l.log;
        } in
        let P = λ (got : Bool). IsMetered (k got (after got)).1.log in
        elim (Bool-cases (or_default answer.0 false)) [
          | inl e ↦ subst P (sym e) (used.apply (after true) l.log (unfold log_token in refl) h)
          | inr e ↦ subst P (sym e) (refused.apply (after false) (unfold log_token in h))
        ];
  }

  pub Keeps-metered :
      {A B : Type 0} (meter : Meter) (g : S → Result A × S) (refused : Ask W S B)
      (k : Result A → Ask W S B)
      → Keeps refused
      → ((r : Result A) → Keeps (k r))
      → Keeps (metered c meter g refused k)
  unfolding metered
  Keeps-metered meter g refused k h p =
      Keeps-token meter (λ got. if got then called meter g k else refused) h
        (Uses-called meter g k p)

pub ruleset keeps_rules = (
  Keeps-pure, Keeps-raise, Keeps-ask, Keeps-attempt, Keeps-if, Keeps-cancelling, Keeps-bind,
  Keeps-raising, Keeps-elim, Keeps-token, Keeps-metered, Uses-Keeps, Uses-elim, Uses-called,
)
