-- ===== src/Float/Defs.antt =====
-- The operations, and the laws of IEEE 754 comparisons.
use autotrader_ai.Prelude.{ℕ, ◌≡◌, Bool, true, false, not, ◌&&◌, Option, none, some, if◌then◌else◌}
use autotrader_ai.Prelude.Int.{ℤ}

pub record Float (W : Type 0) : Type 0 where
  pub lt : W → W → Bool
  pub le : W → W → Bool
  pub eq : W → W → Bool
  pub add : W → W → W
  pub sub : W → W → W
  pub mul : W → W → W
  -- the divisor is not zero: a zero divisor raises, which the callers write out
  pub div : W → W → W
  -- `a // b`, for a divisor that is not zero
  pub floordiv : W → W → W
  pub neg : W → W
  pub abs : W → W
  pub is_finite : W → Bool
  -- the float nearest to n / 10^k: the literal with k decimals
  pub lit : ℕ → ℕ → W
  pub of_int : ℤ → W
  -- `math.floor`, `int` and `round`; `none` where they raise, at a NaN or an infinity
  pub floor : W → Option ℤ
  pub trunc : W → Option ℤ
  pub round : W → Option ℤ

module _ {W : Type 0} ⦃f : Float W⦄ where
  abbrev pub fzero : W
  fzero = f.lit 0 0

  abbrev pub fone : W
  fone = f.lit 1 0

  -- `min(a, b)` and `max(a, b)`, which keep `a` unless `b` is strictly better
  abbrev pub fmin : W → W → W
  fmin a b = if f.lt b a then b else a

  abbrev pub fmax : W → W → W
  fmax a b = if f.lt a b then b else a

  -- `x` as a condition: only zero is false
  abbrev pub truthy : Option W → Bool
  truthy none = false
  truthy (some x) = not (f.eq x fzero)

-- What IEEE 754 says of comparisons. A NaN is the value that is not `<=` itself.
pub record IsOrdered (W : Type 0) ⦃f : Float W⦄ : Type 0 where
  pub finite_num : (x : W) → f.is_finite x ≡ true → f.le x x ≡ true
  pub num_of_lt : (x y : W) → f.lt x y ≡ true → (f.le x x ≡ true) × (f.le y y ≡ true)
  pub num_of_le : (x y : W) → f.le x y ≡ true → (f.le x x ≡ true) × (f.le y y ≡ true)
  pub le_trans : (x y z : W) → f.le x y ≡ true → f.le y z ≡ true → f.le x z ≡ true
  pub lt-eq-not-le : (x y : W) → f.le x x ≡ true → f.le y y ≡ true → f.lt x y ≡ not (f.le y x)
  pub le_of_lt : (x y : W) → f.lt x y ≡ true → f.le x y ≡ true
  pub eq-eq-le : (x y : W) → f.le x x ≡ true → f.le y y ≡ true → f.eq x y ≡ (f.le x y && f.le y x)
