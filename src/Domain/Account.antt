-- ===== src/Domain/Account.antt =====
-- autotrader/domain.py, lines 18 to 32 and 147 to 208: fills, positions and the account snapshot, and
-- the option codes that tell a position on an option from one on its underlying.
use autotrader_ai.Prelude.{
  ℕ, ◌+◌, Bool, true, false, ◌&&◌, ◌||◌, Option, none, some, List, [], ◌∷◌, foldl, ◌==◌,
  if◌then◌else◌, is_some, all,
}
use autotrader_ai.Prelude.Int.{ℤ, pos, neg_part, ◌*ℤ◌, abs_ℤ, leb_ℤ}
use autotrader_ai.Prelude.Text.{Text, text_eq, strip_prefix, is_digit}
use autotrader_ai.Float.{Float, fixed_float}
use autotrader_ai.Domain.Orders.{Side, OptionRight, right_eq}

pub record Fill (W : Type 0) : Type 0 where
  pub fill_id : Text
  pub symbol : Text
  pub side : Side
  pub qty : W
  pub price : W
  pub ts : Text

pub record Position (W : Type 0) : Type 0 where
  pub symbol : Text
  pub qty : ℤ
  pub avg_price : W

pub record AccountSnapshot (W : Type 0) : Type 0 where
  pub cash : W
  pub total_assets : W
  pub day_pnl : W
  pub stale : Bool
  pub positions_loaded : Bool
  pub unrealized_pnl : W
  pub positions : List (Position W)

-- `$`: the end of the text, or a line feed that ends it
at_end : Text → Bool
at_end [] = true
at_end (c ∷ []) = c == 10
at_end (c ∷ d ∷ s) = false

-- `\d*$`
digits_to_end : Text → Bool
unfolding at_end
digits_to_end [] = true
digits_to_end (c ∷ s) = (is_digit c && digits_to_end s) || at_end (c ∷ s)

-- `([CP])\d+$`
right_tail : Text → Option OptionRight
unfolding digits_to_end
right_tail (c ∷ d ∷ s) =
    let strike = is_digit d && digits_to_end s in
    if c == b'C' && strike
    then some OptionRight.call
    else if c == b'P' && strike
    then some OptionRight.put
    else none
right_tail _ = none

-- `_OPT_SUFFIX_RE.match(s)`, with its group 1
unfoldable pub match_opt_suffix : Text → Option OptionRight
unfolding right_tail
match_opt_suffix (a ∷ b ∷ c ∷ d ∷ e ∷ g ∷ s) =
    if all is_digit (a ∷ b ∷ c ∷ d ∷ e ∷ g ∷ []) then right_tail s else none
match_opt_suffix _ = none

-- `_OPT_CODE_TAIL_RE.search(symbol) is not None`
unfoldable pub is_option_symbol : Text → Bool
unfolding match_opt_suffix
is_option_symbol [] = false
is_option_symbol (c ∷ s) = is_some (match_opt_suffix (c ∷ s)) || is_option_symbol s

-- What follows the underlying in a position's symbol, read as an option code.
unfoldable pub option_right_on : Text → Text → Option OptionRight
unfolding match_opt_suffix strip_prefix
option_right_on underlying symbol = elim (strip_prefix underlying symbol) [
  | none ↦ none
  | some s ↦ match_opt_suffix s
]

module _ {W : Type 0} where
  qty_in : Text → List (Position W) → ℤ
  unfolding text_eq
  qty_in symbol [] = pos 0
  qty_in symbol (p ∷ ps) = if text_eq p.symbol symbol then p.qty else qty_in symbol ps

  unfoldable pub position_qty : AccountSnapshot W → Text → ℤ
  unfolding qty_in
  position_qty snapshot symbol = qty_in symbol snapshot.positions

  -- the contracts that one position adds to the count: none unless it is short
  short_contracts : Text → OptionRight → Position W → ℕ
  unfolding option_right_on
  short_contracts underlying want p = elim (option_right_on underlying p.symbol) [
    | none ↦ 0
    | some r ↦ if leb_ℤ (pos 0) p.qty then 0 else if right_eq r want then neg_part p.qty else 0
  ]

  short_total : Text → OptionRight → List (Position W) → ℕ
  unfolding short_contracts
  short_total underlying want [] = 0
  short_total underlying want (p ∷ ps) =
      short_contracts underlying want p + short_total underlying want ps

  unfoldable pub short_option_contracts : AccountSnapshot W → Text → OptionRight → ℕ
  unfolding short_total
  short_option_contracts snapshot underlying want = short_total underlying want snapshot.positions

  module _ ⦃f : Float W⦄ where
    unfoldable pub gross_exposure : AccountSnapshot W → W
    unfolding ◌*ℤ◌
    gross_exposure snapshot =
        foldl (λ total p. f.add total (f.mul (f.of_int (abs_ℤ p.qty)) p.avg_price))
          (f.of_int (pos 0)) snapshot.positions
