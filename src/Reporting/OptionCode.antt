-- ===== src/Reporting/OptionCode.antt =====
-- autotrader/reporting/option_code.py: the decoder of option codes. The parser of dates is a parameter.
use autotrader_ai.Prelude.{
  ℕ, ◌+◌, ◌-◌, ◌*◌, ◌&&◌, Option, none, some, [], ◌∷◌, ◌++◌, ◌==◌, if◌then◌else◌, not, null, all,
  take, drop, length,
}
use autotrader_ai.Prelude.Int.{pos}
use autotrader_ai.Prelude.Text.{Text, is_digit}
use autotrader_ai.Float.{Float, fixed_float}
use autotrader_ai.Domain.{OptionRight}

pub record ParsedOption (W : Type 0) : Type 0 where
  pub underlying : Text
  pub expiry : ℕ
  pub strike : W
  pub right : OptionRight
  pub multiplier : ℕ

-- `int(s)`, of digits
unfoldable pub number_from : ℕ → Text → ℕ
number_from n [] = n
number_from n (c ∷ s) = number_from (n * 10 + (c - b'0')) s

-- What `\d+$` takes: one digit at least, up to the end or to a line feed that ends the text.
unfoldable pub strike_digits : Text → Option Text
strike_digits [] = none
strike_digits (c ∷ []) = if is_digit c then some (c ∷ []) else none
strike_digits (c ∷ d ∷ s) =
    let rest = strike_digits (d ∷ s) in
    if not (is_digit c)
    then none
    else if null s && d == 10
    then some (c ∷ [])
    else elim rest [ none ↦ none | some ds ↦ some (c ∷ ds) ]

-- `[CP]`
abbrev right_of : ℕ → Option OptionRight
right_of c =
    if c == b'C' then some OptionRight.call else if c == b'P' then some OptionRight.put else none

-- `(\d{6})([CP])(\d+)$`
unfoldable pub code_tail : Text → Option (Text × OptionRight × Text)
unfolding take drop strike_digits
code_tail s =
    let ymd = take 6 s in
    if length ymd == 6 && all is_digit ymd
    then (elim (drop 6 s) [
      | [] ↦ none
      | c ∷ strike ↦ elim (right_of c) [
        | none ↦ none
        | some r ↦ elim (strike_digits strike) [ none ↦ none | some ds ↦ some (ymd, r, ds) ]
      ]
    ])
    else none

-- `_CODE_RE.match`, from a prefix of the underlying on: the shortest one that leaves a tail.
unfoldable pub match_code : Text → Text → Option (Text × Text × OptionRight × Text)
unfolding code_tail
match_code under [] = none
match_code under (c ∷ s) =
    let rest = match_code (under ++ c ∷ []) s in
    let later = if c == 10 then none else rest in
    if null under
    then later
    else elim (code_tail (c ∷ s)) [ none ↦ later | some t ↦ some (under, t.0, t.1, t.2) ]

module _ {W : Type 0} ⦃f : Float W⦄ (parse_ymd : Text → Option ℕ) where
  unfoldable pub parse_option_code : Text → Option (ParsedOption W)
  unfolding match_code number_from
  parse_option_code code = elim (match_code [] code) [
    | none ↦ none
    | some (under, ymd, right, strike) ↦ elim (parse_ymd ymd) [
      | none ↦ none
      | some expiry ↦ some (record {
        underlying = under;
        expiry = expiry;
        strike = f.div (f.of_int (pos (number_from 0 strike))) (f.lit 1000 0);
        right = right;
        multiplier = 100;
      })
    ]
  ]
