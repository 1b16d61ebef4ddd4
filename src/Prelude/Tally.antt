-- ===== src/Prelude/Tally.antt =====
-- The number of elements of a list that satisfy a test, on lists that are joined or mapped.
use autotrader_ai.Prelude.{
  ℕ, suc, ◌+◌, ◌≡◌, refl, ap, ◌∙◌, Bool, if◌then◌else◌, List, [], ◌∷◌, ◌++◌, map, arith,
}

module _ {A : Type 0} where
  unfoldable pub tally : (A → Bool) → List A → ℕ
  tally test [] = 0
  tally test (x ∷ xs) = let rest = tally test xs in if test x then suc rest else rest

  pub tally-append :
      (test : A → Bool) (xs ys : List A) → tally test (xs ++ ys) ≡ tally test xs + tally test ys
  unfolding tally
  tally-append test [] ys = omega arith
  tally-append test (x ∷ xs) ys = ground (arith, tally-append test xs ys)

  pub tally-cons :
      (test : A → Bool) (x : A) (xs : List A)
      → tally test (x ∷ xs) ≡ tally test (x ∷ []) + tally test xs
  unfolding tally
  tally-cons test x xs = ground arith

module _ {A B : Type 0} where
  pub map-append : (g : A → B) (xs ys : List A) → map g (xs ++ ys) ≡ map g xs ++ map g ys
  map-append g [] ys = refl
  map-append g (x ∷ xs) ys = ap (λ l. g x ∷ l) (map-append g xs ys)

  -- One more entry at the end.
  pub tally-last :
      (test : B → Bool) (g : A → B) (xs : List A) (x : A)
      → tally test (map g (xs ++ x ∷ [])) ≡ tally test (map g xs) + tally test (g x ∷ [])
  tally-last test g xs x =
      ap (tally test) (map-append g xs (x ∷ [])) ∙ tally-append test (map g xs) (g x ∷ [])
