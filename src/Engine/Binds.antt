-- ===== src/Engine/Binds.antt =====
-- Reasoning about the steps of an action (autotrader/main.py, autotrader/router.py): its answer, the
-- two ways in which a chain of steps goes on, and the table of the requests that were seen.
use autotrader_ai.Prelude.{◌≡◌, refl, ap, ◌⊎◌, inl, inr, some, List, [], ◌∷◌, Bool-cases}
use autotrader_ai.Prelude.Text.{Text, text_eq, text_eq_refl}
use autotrader_ai.Float.{fixed_float}
use autotrader_ai.Rebalance.{get_key, set_key}
use autotrader_ai.Engine.World.{Fault, Result, ok, err, State, Action, ◌>>=◌}

pub Result-cases :
    {A : Type 0} (r : Result A) → ((a : A) × (r ≡ ok a)) ⊎ ((e : Fault) × (r ≡ err e))
Result-cases (ok a) = inl (a, refl)
Result-cases (err e) = inr (e, refl)

pub set_key-get_key :
    {V : Type 0} (k : Text) (v : V) (d : List (Text × V)) → get_key k (set_key k v d) ≡ some v
unfolding get_key set_key
set_key-get_key k v [] = rw (text_eq_refl k) refl
set_key-get_key k v (e ∷ d) = elim (Bool-cases (text_eq e.0 k)) [
  | inl t ↦ rw t (rw (text_eq_refl k) refl)
  | inr t ↦ rw t (rw t (set_key-get_key k v d))
]

pub ok-injective : {A : Type 0} {a b : A} → ok a ≡ ok b → a ≡ b
ok-injective {a = a} h = ap (λ r. elim r [ ok x ↦ x | err _ ↦ a ]) h

module _ {W S A B : Type 0} where
  pub after_bind :
      (P : Result B × State W S → Type 0) (m : Action W S A) (k : A → Action W S B) (st : State W S)
      → ((e : Fault) → (m st).0 ≡ err e → P (err e, (m st).1))
      → ((a : A) → (m st).0 ≡ ok a → P (k a (m st).1))
      → P ((m >>= k) st)
  unfolding ◌>>=◌
  after_bind P m k st f g = elim (Result-cases (m st).0) [
    | inl e ↦ rw (e.1, ◌>>=◌) (g e.0 e.1)
    | inr e ↦ rw (e.1, ◌>>=◌) (f e.0 e.1)
  ]

module _ {W S A B : Type 0} (m : Action W S A) (k : A → Action W S B) (st : State W S) where
  pub bind_ok : (a : A) (st' : State W S) → m st ≡ (ok a, st') → (m >>= k) st ≡ k a st'
  unfolding ◌>>=◌
  bind_ok a st' h = rw (ap (λ r. r.0) h, ◌>>=◌) (ap (λ r. k a r.1) h)

  pub bind_err : (e : Fault) (st' : State W S) → m st ≡ (err e, st') → (m >>= k) st ≡ (err e, st')
  unfolding ◌>>=◌
  bind_err e st' h = rw (ap (λ r. r.0) h, ◌>>=◌) (ap (λ r. (err e, r.1)) h)
