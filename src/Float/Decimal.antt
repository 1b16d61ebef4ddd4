-- ===== src/Float/Decimal.antt =====
-- Decimal numbers with four places and one NaN, at which the model runs and its laws are met.
use autotrader_ai.Prelude.{
  ◌*◌, ◌/◌, ◌^◌, ◌+◌, ◌%◌, Bool, false, Option, none, some, arith, if◌then◌else◌, is_some, ◌==◌,
  ltb,
}
use autotrader_ai.Prelude.Int.{
  ℤ, pos, negsuc, pos_part, neg_part, ◌+ℤ◌, ◌-ℤ◌, ◌*ℤ◌, neg_ℤ, abs_ℤ, floordiv_ℕ, ltb_ℤ, leb_ℤ,
  eqb_ℤ,
}
use autotrader_ai.Float.Defs.{Float, IsOrdered}

abbrev pub Fixed : Type 0
Fixed = Option ℤ

abbrev test : (ℤ → ℤ → Bool) → Fixed → Fixed → Bool
test g (some a) (some b) = g a b
test g _ _ = false

abbrev both : (ℤ → ℤ → ℤ) → Fixed → Fixed → Fixed
both g (some a) (some b) = some (g a b)
both g _ _ = none

abbrev one : (ℤ → ℤ) → Fixed → Fixed
one g (some a) = some (g a)
one g none = none

-- The quotient rounded down.
abbrev quot : ℤ → ℤ → ℤ
quot a (pos n) = floordiv_ℕ a n
quot a (negsuc n) = floordiv_ℕ (neg_ℤ a) (n + 1)

-- Half to even, of an amount of ten-thousandths.
abbrev nearest : ℤ → ℤ
nearest a =
    let low = floordiv_ℕ a 10_000 in
    let rest = pos_part (a -ℤ (low *ℤ pos 10_000)) in
    let even = (pos_part low + neg_part low) % 2 == 0 in
    if ltb rest 5000
    then low
    else if ltb 5000 rest
    then low +ℤ pos 1
    else if even
    then low
    else low +ℤ pos 1

-- Towards zero.
abbrev chop : ℤ → ℤ
chop (pos n) = pos (n / 10_000)
chop (negsuc n) = neg_ℤ (pos ((n + 1) / 10_000))

instance abbrev pub fixed_float : Float Fixed
unfolding ◌+ℤ◌ ◌-ℤ◌ ◌*ℤ◌
fixed_float = record {
  lt = test ltb_ℤ;
  le = test leb_ℤ;
  eq = test eqb_ℤ;
  add = both ◌+ℤ◌;
  sub = both ◌-ℤ◌;
  mul = both λ a b. floordiv_ℕ (a *ℤ b) 10_000;
  div = both λ a b. quot (a *ℤ pos 10_000) b;
  floordiv = both λ a b. quot a b *ℤ pos 10_000;
  neg = one neg_ℤ;
  abs = one abs_ℤ;
  is_finite = is_some;
  lit = λ n k. some (pos (n * 10_000 / 10 ^ k));
  of_int = λ z. some (z *ℤ pos 10_000);
  floor = one λ a. floordiv_ℕ a 10_000;
  trunc = one chop;
  round = one nearest;
}

pub Fixed-IsOrdered : IsOrdered Fixed
unfolding ◌+ℤ◌ ◌-ℤ◌ ◌*ℤ◌
Fixed-IsOrdered = ground arith
