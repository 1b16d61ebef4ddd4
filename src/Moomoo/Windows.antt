-- ===== src/Moomoo/Windows.antt =====
-- autotrader/moomoo_broker.py, `_chain_windows`: the spans of days for which the option chain is asked.
-- A date is its day's number.
pub mod Spans
use mathlib.Core.Path.{subst}
use autotrader_ai.Prelude.{
  ◌≡◌, ℕ, ◌+◌, ◌≤◌, ◌<◌, Bool, true, false, ◌&&◌, ◌||◌, refl, sym, ◌==◌, inl, inr, List, [], ◌∷◌,
  arith, leb, Bool-cases, if◌then◌else◌, keep, any, All, All-mono, All-keep, &&_iff,
}
use autotrader_ai.Prelude.Int.{ℤ, pos, sub_ℕ, leb_ℤ}

-- `sorted(days)`
unfoldable pub insert_day : ℕ → List ℕ → List ℕ
insert_day d [] = d ∷ []
insert_day d (e ∷ es) = if leb d e then d ∷ e ∷ es else e ∷ insert_day d es

unfoldable pub sort_days : List ℕ → List ℕ
unfolding insert_day
sort_days [] = []
sort_days (d ∷ ds) = insert_day d (sort_days ds)

-- `dte_min <= (e - today).days <= dte_max`
abbrev pub in_dte : (today : ℕ) (dte_min dte_max : ℤ) (expiry : ℕ) → Bool
in_dte today dte_min dte_max expiry =
    leb_ℤ dte_min (sub_ℕ expiry today) && leb_ℤ (sub_ℕ expiry today) dte_max

-- The inner loop from the window that begins at `start` and has come to `last`.
unfoldable pub group_days : (span start last : ℕ) → List ℕ → List (ℕ × ℕ)
group_days span start last [] = (start, last) ∷ []
group_days span start last (e ∷ es) = elim (leb_ℤ (sub_ℕ e start) (pos span)) [
  | true ↦ group_days span start e es
  | false ↦ (start, last) ∷ group_days span e e es
]

unfoldable pub windows_of : ℕ → List ℕ → List (ℕ × ℕ)
unfolding group_days
windows_of span [] = []
windows_of span (e ∷ es) = group_days span e e es

unfoldable pub chain_windows : List ℕ → ℕ → ℤ → ℤ → ℕ → List (ℕ × ℕ)
unfolding sort_days windows_of
chain_windows expiries today dte_min dte_max max_span =
    windows_of max_span (sort_days (keep (in_dte today dte_min dte_max) expiries))
