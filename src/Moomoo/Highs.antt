-- ===== src/Moomoo/Highs.antt =====
-- autotrader/moomoo_broker.py, `MoomooBroker.recent_high`: what the high of the last days is.
use autotrader_ai.Prelude.{
  ◌≡◌, ◌≤◌, refl, ◌∙◌, ◌⊎◌, inl, inr, ℕ, zero, suc, ◌+◌, ◌-◌, ◌*◌, Bool, true, false, Option, none,
  some, List, [], ◌∷◌, arith, Bool-cases, if◌then◌else◌, ltb, length, take, drop, All,
}
use mathlib.Core.Path.{subst}
use autotrader_ai.Prelude.Int.{ℤ}
use autotrader_ai.Prelude.Text.{Text, text, text_eq}
use autotrader_ai.Float.{Float, IsOrdered, fzero, fmax, fixed_float}
use autotrader_ai.Engine.World.{Result, ok, err}
use autotrader_ai.Engine.Binds.{ok-injective}
use autotrader_ai.Moomoo.World.{Sdk, Link, ◌>>=◌, attempt, ask, pure}
use autotrader_ai.Moomoo.Market.{
  last_n, completed_highs, max_of, high_of, bars_high, lookback_of, recent_high,
}

abbrev pub Among : {W : Type 0} → W → List W → Type 0
Among h [] = ⊥
Among h (x ∷ xs) = (h ≡ x) ⊎ Among h xs

length-drop {ℓ} : {A : Type ℓ} (n : ℕ) (xs : List A) → length (drop n xs) ≡ length xs - n
unfolding drop
length-drop zero xs = omega arith
length-drop (suc n) [] = omega arith
length-drop (suc n) (x ∷ xs) = omega (arith, length-drop n xs)

All-drop {ℓ κ} : {A : Type ℓ} (P : A → Type κ) (n : ℕ) (xs : List A) → All P xs → All P (drop n xs)
unfolding drop
All-drop P zero xs h = h
All-drop P (suc n) [] h = tt
All-drop P (suc n) (x ∷ xs) (p, h) = All-drop P n xs h

All-if {ℓ κ} :
    {A : Type ℓ} (P : A → Type κ) (b : Bool) (xs ys : List A)
    → (b ≡ true → All P xs)
    → (b ≡ false → All P ys)
    → All P (if b then xs else ys)
All-if P true xs ys h k = h refl
All-if P false xs ys h k = k refl

module _ {W : Type 0} ⦃f : Float W⦄ (laws : IsOrdered W) where
  le_fmax :
      (x y : W)
      → f.le x x ≡ true
      → f.le y y ≡ true
      → (f.le x (fmax x y) ≡ true) × (f.le y (fmax x y) ≡ true)
  le_fmax x y h k = elim (Bool-cases (f.lt x y)) [
    | inl t ↦ rw t (laws.le_of_lt x y t, k)
    | inr t ↦ rw t (h, ground (arith, laws.lt-eq-not-le x y h k))
  ]

  max_of_lem :
      (x : W) (xs : List W)
      → f.le x x ≡ true
      → All (λ y. f.le y y ≡ true) xs
      → (f.le x (max_of x xs) ≡ true) × All (λ y. f.le y (max_of x xs) ≡ true) xs
  unfolding max_of
  max_of_lem x [] h hs = (h, tt)
  max_of_lem x (y ∷ ys) h (k, hs) =
      let (a, b) = le_fmax x y h k in
      let (top, rest) = max_of_lem (fmax x y) ys (laws.num_of_le x (fmax x y) a).1 hs in
      (laws.le_trans _ _ _ a top, (laws.le_trans _ _ _ b top, rest))

  max_of-Among : (x : W) (xs : List W) → Among (max_of x xs) (x ∷ xs)
  unfolding max_of
  max_of-Among x [] = inl refl
  max_of-Among x (y ∷ ys) = elim (max_of-Among (fmax x y) ys) [
    | inr m ↦ inr (inr m)
    | inl e ↦ elim (Bool-cases (f.lt x y)) [
      | inl t ↦ let later : fmax x y ≡ y = rw t refl in inr (inl (e ∙ later))
      | inr t ↦ let first : fmax x y ≡ x = rw t refl in inl (e ∙ first)
    ]
  ]

  high_of_lem :
      (n : ℕ) (highs : List W) (h : W)
      → All (λ x. f.le x x ≡ true) highs
      → high_of n highs ≡ some h
      → (length (last_n n highs) ≡ n)
        × Among h (last_n n highs)
        × All (λ x. f.le x h ≡ true) (last_n n highs)
  unfolding high_of last_n
  high_of_lem n highs h nums e =
      let size : length (last_n n highs) ≤ n =
        unfold last_n in omega (arith, length-drop (length highs - n) highs) in
      cases (last_n n highs) (unfold last_n in All-drop _ (length highs - n) highs nums) size e
    where
      cases :
          (done : List W)
          → All (λ x. f.le x x ≡ true) done
          → length done ≤ n
          → (if ltb (length done) n
              then none
              else elim done as (λ _. Option W) [ [] ↦ none | x ∷ xs ↦ some (max_of x xs) ])
            ≡ some h
          → (length done ≡ n) × Among h done × All (λ x. f.le x h ≡ true) done
      cases [] nums size e = absurd (ground arith)
      cases (x ∷ xs) (k, ks) size e =
          let full : length (x ∷ xs) ≡ n = ground arith in
          let same : max_of x xs ≡ h = ground arith in
          let (top, rest) = max_of_lem x xs k ks in
          (
            full,
            subst (λ h. Among h (x ∷ xs)) same (max_of-Among x xs),
            subst (λ h. All (λ y. f.le y h ≡ true) (x ∷ xs)) same (top, rest),
          )

module _ {W S R : Type 0} ⦃f : Float W⦄ (laws : IsOrdered W) (c : Sdk W S R) where
  bars_answer :
      (n : ℕ) (end_day : Text) (answer : Result (Option (List R))) (h : W)
      → bars_high c n end_day answer ≡ some h
      → (rows : List R) × (answer ≡ ok (some rows))
        × (high_of n (completed_highs c end_day rows) ≡ some h)
  unfolding bars_high
  bars_answer n end_day (err e) h k = absurd (ground arith)
  bars_answer n end_day (ok none) h k = absurd (ground arith)
  bars_answer n end_day (ok (some rows)) h k = (rows, refl, k)

  completed_highs-num :
      (end_day : Text) (rows : List R) → All (λ x. f.le x x ≡ true) (completed_highs c end_day rows)
  unfolding completed_highs
  completed_highs-num end_day [] = tt
  completed_highs-num end_day (row ∷ rows) =
      let rest = completed_highs-num end_day rows in
      let P : W → Type 0 = λ x. f.le x x ≡ true in
      let high = c.float_at row (text "high" ∷ []) in
      let day = take 10 (c.text_at row (text "time_key" ∷ text "time" ∷ [])) in
      All-if P (text_eq day end_day) _ _ (λ _. rest)
        (λ _.
          All-if P (f.lt fzero high) _ _ (λ t. ((laws.num_of_lt fzero high t).1, rest)) (λ _. rest))

  -- A high that the adapter answers is the greatest high of so many days as were asked for, all of
  -- them days of the bars that the SDK answered, complete and with a positive high, and the last such
  -- ones: too short a history gives no high. Floats are ordered (`IsOrdered`).
  pub recent_high_lem :
      (symbol : Text) (lookback : ℤ) (l : Link W S) (h : W)
      → (recent_high c symbol lookback l).0 ≡ ok (some h)
      → let n = lookback_of lookback in
        let today = c.today l.outside in
        (rows : List R) × ((c.day_bars symbol (today - (n * 2 + 10)) today (2 * n + 15) l.outside).0
          ≡ ok (some rows))
        × let days = last_n n (completed_highs c (c.isoformat today) rows) in
          (length days ≡ n) × Among h days × All (λ x. f.le x h ≡ true) days
  unfolding recent_high attempt ask ◌>>=◌ pure
  recent_high_lem symbol lookback l h e =
      let n = lookback_of lookback in
      let today = c.today l.outside in
      let answer = c.day_bars symbol (today - (n * 2 + 10)) today (2 * n + 15) l.outside in
      let (rows, same, found) = bars_answer n (c.isoformat today) answer.0 h (ok-injective e) in
      (rows, same, high_of_lem laws n _ h (completed_highs-num _ rows) found)
