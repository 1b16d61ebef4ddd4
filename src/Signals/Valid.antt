-- ===== src/Signals/Valid.antt =====
-- autotrader/signals/normalize.py: what the signals of a payload satisfy.
use autotrader_ai.Prelude.{
  ◌≡◌, refl, inl, inr, true, not, ◌&&◌, Option, none, some, List, [], ◌∷◌, arith, ◌==◌, Bool-cases,
  is_some, any, All,
}
use autotrader_ai.Prelude.Int.{ℤ, abs_ℤ}
use autotrader_ai.Prelude.Text.{Text, text_eq}
use autotrader_ai.Float.{Float, IsOrdered, fzero, fone, fixed_float}
use mathlib.Core.Path.{subst}
use mathlib.Core.Option.{some-injective}
use autotrader_ai.Domain.{Signal, finite_pos, check_signal}
use autotrader_ai.Rebalance.{set_key, get_key}
use autotrader_ai.Signals.Normalize.{
  SignalChange, Payload, overlay_intended, normalize_symbol, confidence_of, normalize_change,
  usable_stops, normalize_changes, normalize_payload,
}

symbol_qualified : (t : Text) → any (λ c. c == b'.') (normalize_symbol t) ≡ true
unfolding normalize_symbol
symbol_qualified t = ground arith

module _ {W : Type 0} ⦃f : Float W⦄ where
  abbrev InUnit : W → Type 0
  InUnit x = (f.le fzero x ≡ true) × (f.le x fone ≡ true)

  confidence-InUnit :
      (laws : IsOrdered W) (points : ℤ) (scale : W)
      → f.le fzero fzero ≡ true
      → f.le fzero fone ≡ true
      → f.le fone fone ≡ true
      → InUnit (confidence_of points scale)
  unfolding confidence_of
  confidence-InUnit laws points scale zz zo oo =
      let x = f.div (f.of_int (abs_ℤ points)) scale in
      ground (arith, laws.le_of_lt fzero x, laws.le_of_lt x fone)

  abbrev AllPositive : List (Text × W) → Type 0
  AllPositive = All (λ (e : Text × W). finite_pos e.1 ≡ true)

  set_key-AllPositive :
      (k : Text) (v : W) (d : List (Text × W))
      → finite_pos v ≡ true
      → AllPositive d
      → AllPositive (set_key k v d)
  unfolding set_key
  set_key-AllPositive k v [] h hs = (h, tt)
  set_key-AllPositive k v (e ∷ d) h (g, gs) = elim (Bool-cases (text_eq e.0 k)) [
    | inl t ↦ rw t (h, gs)
    | inr t ↦ rw t (g, set_key-AllPositive k v d h gs)
  ]

  get_key-AllPositive :
      (k : Text) (d : List (Text × W)) (v : W)
      → AllPositive d
      → get_key k d ≡ some v
      → finite_pos v ≡ true
  unfolding get_key
  get_key-AllPositive k [] v h e = absurd (ground arith)
  get_key-AllPositive k (x ∷ d) v (h, hs) e = elim (Bool-cases (text_eq x.0 k)) [
    | inl t ↦ subst (λ y. finite_pos y ≡ true) (some-injective _ _ (rw t at e)) h
    | inr t ↦ get_key-AllPositive k d v hs (rw t at e)
  ]

  usable_stops-AllPositive :
      (es stops : List (Text × W)) → AllPositive stops → AllPositive (usable_stops es stops)
  unfolding usable_stops
  usable_stops-AllPositive [] stops h = h
  usable_stops-AllPositive (e ∷ es) stops h = elim (Bool-cases (finite_pos e.1)) [
    | inl p ↦ rw p (usable_stops-AllPositive es _ (set_key-AllPositive _ e.1 stops p h))
    | inr p ↦ rw p (usable_stops-AllPositive es stops h)
  ]

  abbrev pub IsValid : Signal W → Type 0
  IsValid s = (check_signal s ≡ none) × (any (λ c. c == b'.') s.symbol ≡ true)

  change-IsValid :
      (c : SignalChange) (scale : W) (stop : Option W)
      → InUnit (confidence_of c.points_delta scale)
      → ((v : W) → stop ≡ some v → finite_pos v ≡ true)
      → IsValid (normalize_change c scale stop)
  unfolding normalize_change check_signal
  change-IsValid c scale none unit good = (ground arith, symbol_qualified c.ticker)
  change-IsValid c scale (some v) unit good =
      let g = good v refl in (ground arith, symbol_qualified c.ticker)

  changes-IsValid :
      (cs : List SignalChange) (stops : List (Text × W)) (scale : W)
      → ((points : ℤ) → InUnit (confidence_of points scale))
      → AllPositive stops
      → All IsValid (normalize_changes cs stops scale)
  unfolding normalize_changes
  changes-IsValid [] stops scale unit good = tt
  changes-IsValid (c ∷ cs) stops scale unit good =
      let rest = changes-IsValid cs stops scale unit good in
      elim (Bool-cases (overlay_intended c && not (is_some c.overlay))) [
        | inl dropped ↦ rw dropped rest
        | inr kept ↦ rw kept (
          change-IsValid c scale (get_key (normalize_symbol c.ticker) stops) (unit c.points_delta)
              (λ v e. get_key-AllPositive (normalize_symbol c.ticker) stops v good e),
          rest,
        )
      ]

  -- Every signal that a payload gives passes the checks of the signal's constructor, whatever its
  -- changes, its stops and the scale are, so that the normalisation never raises; and its symbol is
  -- qualified. Floats are ordered (`IsOrdered`), zero and one among them.
  pub normalize_payload-IsValid :
      (laws : IsOrdered W) (payload : Payload W) (scale : W)
      → f.le fzero fzero ≡ true
      → f.le fzero fone ≡ true
      → f.le fone fone ≡ true
      → All IsValid (normalize_payload payload scale)
  unfolding normalize_payload
  normalize_payload-IsValid laws payload scale zz zo oo =
      changes-IsValid payload.signal_changes (usable_stops payload.hard_stops []) scale
        (λ points. confidence-InUnit laws points scale zz zo oo)
        (usable_stops-AllPositive payload.hard_stops [] tt)
