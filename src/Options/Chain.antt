-- ===== src/Options/Chain.antt =====
-- autotrader/options/chain.py: the choice of a contract from an option chain. `None` is `none`.
use mathlib.Core.Path.{subst}
use autotrader_ai.Prelude.{
  ℕ, ◌≡◌, refl, inl, inr, Bool, true, false, not, ◌&&◌, Option, none, some, List, [], ◌∷◌, arith,
  ◌==◌, if◌then◌else◌, Bool-cases, keep, All, All-mono,
}
use autotrader_ai.Prelude.Int.{ℤ, sub_ℕ, neg_ℤ, ltb_ℤ, leb_ℤ, eqb_ℤ}
use autotrader_ai.Prelude.Text.{Text}
use autotrader_ai.Float.{Float, IsOrdered, fzero, fixed_float}
use autotrader_ai.Domain.{OptionRight, right_eq, OptionContract}

pub record OptionQuote (W : Type 0) : Type 0 where
  pub code : Text
  pub underlying : Text
  pub expiry : ℕ
  pub strike : W
  pub right : OptionRight
  pub delta : W
  pub premium : W

-- `(expiry - asof).days`
abbrev pub days_to : ℕ → ℕ → ℤ
days_to asof expiry = sub_ℕ expiry asof

-- What a leg asks of a contract.
pub record Wanted (W : Type 0) : Type 0 where
  pub right : OptionRight
  pub target_delta : W
  pub dte_min : ℤ
  pub dte_max : ℤ
  pub pin_expiry : Option ℕ
  pub prefer_longest : Bool

abbrev pub pinned : Option ℕ → ℕ → Bool
pinned none expiry = true
pinned (some p) expiry = expiry == p

module _ {W : Type 0} ⦃f : Float W⦄ where
  -- The filter of the comprehension `candidates`.
  unfoldable pub qualifies : Wanted W → ℕ → OptionQuote W → Bool
  qualifies w asof q =
      right_eq q.right w.right
      && f.lt fzero q.premium
      && leb_ℤ w.dte_min (days_to asof q.expiry)
      && leb_ℤ (days_to asof q.expiry) w.dte_max
      && pinned w.pin_expiry q.expiry

  -- `abs(abs(q.delta) - target)`
  unfoldable pub distance : Wanted W → OptionQuote W → W
  distance w q = f.abs (f.sub (f.abs q.delta) (f.abs w.target_delta))

  -- The comparison `key(a) < key(b)` of the tuples (distance, signed days, strike). Python compares
  -- tuples at the first entries that differ.
  unfoldable pub key_lt : Wanted W → ℕ → OptionQuote W → OptionQuote W → Bool
  unfolding distance
  key_lt w asof a b =
      let days = λ (q : OptionQuote W).
        if w.prefer_longest then neg_ℤ (days_to asof q.expiry) else days_to asof q.expiry in
      if not (f.eq (distance w a) (distance w b))
      then f.lt (distance w a) (distance w b)
      else if not (eqb_ℤ (days a) (days b))
      then ltb_ℤ (days a) (days b)
      else f.lt a.strike b.strike

  -- `min(candidates, key=...)`: the first candidate that none after it is strictly below
  unfoldable pub best_from : Wanted W → ℕ → OptionQuote W → List (OptionQuote W) → OptionQuote W
  unfolding key_lt
  best_from w asof best [] = best
  best_from w asof best (q ∷ qs) = best_from w asof (if key_lt w asof q best then q else best) qs

  unfoldable pub select_contract : List (OptionQuote W) → Wanted W → ℕ → Option (OptionQuote W)
  unfolding qualifies best_from
  select_contract quotes w asof = elim (keep (qualifies w asof) quotes) [
    | [] ↦ none
    | q ∷ qs ↦ some (best_from w asof q qs)
  ]

  unfoldable pub to_contract : OptionQuote W → OptionContract W
  to_contract q = record {
    underlying = q.underlying;
    expiry = q.expiry;
    strike = q.strike;
    right = q.right;
    code = q.code;
    multiplier = 100;
  }

module _ {W : Type 0} ⦃f : Float W⦄ (laws : IsOrdered W) (w : Wanted W) (asof : ℕ) where
  abbrev IsNum : OptionQuote W → Type 0
  IsNum q = f.le (distance w q) (distance w q) ≡ true

  abbrev Nearer : OptionQuote W → OptionQuote W → Type 0
  Nearer a b = f.le (distance w a) (distance w b) ≡ true

  -- By either outcome of the comparison the quote that is kept is no farther than the other.
  pick-Nearer :
      (a b : OptionQuote W)
      → IsNum a
      → IsNum b
      → (key_lt w asof a b ≡ true → Nearer a b) × (key_lt w asof a b ≡ false → Nearer b a)
  unfolding key_lt
  pick-Nearer a b na nb = (
    ground (
      arith,
      laws.eq-eq-le (distance w a) (distance w b) na nb,
      laws.le_of_lt (distance w a) (distance w b),
    ),
    ground (
      arith,
      laws.eq-eq-le (distance w a) (distance w b) na nb,
      laws.lt-eq-not-le (distance w a) (distance w b) na nb,
    ),
  )

  -- What the fold has found: a number at least as near as all that it passed.
  best_from_lem :
      (best : OptionQuote W) (qs : List (OptionQuote W)) (r : OptionQuote W)
      → best_from w asof best qs ≡ r
      → IsNum best
      → All IsNum qs
      → Nearer r best × All (Nearer r) qs
  unfolding best_from
  best_from_lem best [] r e nb nq = (subst (λ x. Nearer x best) e nb, tt)
  best_from_lem best (q ∷ qs) r e nb (n, nq) = elim (Bool-cases (key_lt w asof q best)) [
    | inl lt ↦
        let (head, rest) = best_from_lem q qs r (rw lt at e) n nq in
        (laws.le_trans _ _ _ head ((pick-Nearer q best n nb).0 lt), (head, rest))
    | inr ge ↦
        let (head, rest) = best_from_lem best qs r (rw ge at e) nb nq in
        (head, (laws.le_trans _ _ _ head ((pick-Nearer q best n nb).1 ge), rest))
  ]

module _ {W : Type 0} ⦃f : Float W⦄ (w : Wanted W) (asof : ℕ) where
  best_has :
      (P : OptionQuote W → Type 0) (best : OptionQuote W) (qs : List (OptionQuote W))
      → P best
      → All P qs
      → P (best_from w asof best qs)
  unfolding best_from
  best_has P best [] p ps = p
  best_has P best (q ∷ qs) p (pq, ps) = elim (Bool-cases (key_lt w asof q best)) [
    | inl lt ↦ rw lt (best_has P q qs pq ps)
    | inr ge ↦ rw ge (best_has P best qs p ps)
  ]

keep-All :
    {A : Type 0} (P : A → Type 0) (p : A → Bool) (xs : List A)
    → All P xs
    → All (λ x. P x × (p x ≡ true)) (keep p xs)
keep-All P p [] h = tt
keep-All P p (x ∷ xs) (h, hs) = elim (Bool-cases (p x)) [
  | inl e ↦ rw e ((h, e), keep-All P p xs hs)
  | inr e ↦ rw e (keep-All P p xs hs)
]

All-of_keep :
    {A : Type 0} (Q : A → Type 0) (p : A → Bool) (xs : List A)
    → All Q (keep p xs)
    → All (λ x. p x ≡ true → Q x) xs
All-of_keep Q p [] h = tt
All-of_keep Q p (x ∷ xs) h = elim (Bool-cases (p x)) [
  | inl e ↦ let k : Q x × All Q (keep p xs) = rw e at h in ((λ _. k.0), All-of_keep Q p xs k.1)
  | inr e ↦ ((λ e2. absurd (cc)), All-of_keep Q p xs (rw e at h))
]

module _ {W : Type 0} ⦃f : Float W⦄ (laws : IsOrdered W) (quotes : List (OptionQuote W))
    (w : Wanted W) (asof : ℕ) where
  -- Where the chain's deltas are numbers, the contract that is chosen qualifies (right, premium,
  -- days to expiry, pinned expiry), and none that qualifies has a delta nearer to the target.
  -- Floats are ordered (`IsOrdered`).
  pub select_contract-nearest :
      (q : OptionQuote W)
      → All (λ r. f.le (distance w r) (distance w r) ≡ true) quotes
      → select_contract quotes w asof ≡ some q
      → (qualifies w asof q ≡ true)
        × All (λ r. qualifies w asof r ≡ true → f.le (distance w q) (distance w r) ≡ true) quotes
  unfolding select_contract
  select_contract-nearest q nums h = go (keep (qualifies w asof) quotes) refl
    where
      Fact : OptionQuote W → Type 0
      Fact r = (f.le (distance w r) (distance w r) ≡ true) × (qualifies w asof r ≡ true)

      go :
          (c : List (OptionQuote W))
          → keep (qualifies w asof) quotes ≡ c
          → (qualifies w asof q ≡ true)
            × All
                (λ r. qualifies w asof r ≡ true → f.le (distance w q) (distance w r) ≡ true)
                quotes
      go [] e = absurd (ground arith)
      go (b ∷ bs) e =
          let facts : All Fact (b ∷ bs) = rw e at (
            keep-All (λ r. f.le (distance w r) (distance w r) ≡ true) (qualifies w asof) quotes
              nums) in
          let chosen : best_from w asof b bs ≡ q = ground arith in
          let near =
            best_from_lem laws w asof b bs q chosen facts.0.0
              (All-mono Fact (IsNum laws w asof) bs (λ r k. k.0) facts.1) in
          (
            subst (λ x. qualifies w asof x ≡ true) chosen
                (best_has w asof (λ x. qualifies w asof x ≡ true) b bs facts.0.1
                  (All-mono Fact (λ x. qualifies w asof x ≡ true) bs (λ r k. k.1) facts.1)),
            All-of_keep (λ r. f.le (distance w q) (distance w r) ≡ true) (qualifies w asof) quotes
                (rw e near),
          )

module _ {W : Type 0} ⦃f : Float W⦄ (P : OptionQuote W → Type 0) (quotes : List (OptionQuote W))
    (w : Wanted W) (asof : ℕ) where
  -- What is chosen has what all quotes have, and qualifies.
  pub select_contract-has :
      (q : OptionQuote W)
      → All P quotes
      → select_contract quotes w asof ≡ some q
      → P q × (qualifies w asof q ≡ true)
  unfolding select_contract
  select_contract-has q ps h = go (keep (qualifies w asof) quotes) refl
    where
      Fact : OptionQuote W → Type 0
      Fact r = P r × (qualifies w asof r ≡ true)

      go :
          (c : List (OptionQuote W))
          → keep (qualifies w asof) quotes ≡ c
          → P q × (qualifies w asof q ≡ true)
      go [] e = absurd (ground arith)
      go (b ∷ bs) e =
          let facts : All Fact (b ∷ bs) = rw e at (keep-All P (qualifies w asof) quotes ps) in
          let chosen : best_from w asof b bs ≡ q = ground arith in
          subst Fact chosen (best_has w asof Fact b bs facts.0 facts.1)
