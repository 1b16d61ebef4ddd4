-- ===== src/Signals/Coerce.antt =====
-- autotrader/signals/coerce.py: a drifted payload becomes a canonical one.
pub mod Document
use autotrader_ai.Prelude.{
  ◌≡◌, ℕ, Bool, true, false, not, ◌&&◌, ◌||◌, Option, none, some, List, [], ◌∷◌, if◌then◌else◌,
  null, or_default, is_some,
}
use autotrader_ai.Prelude.Int.{ℤ, pos, negsuc, eqb_ℤ, min_ℤ, max_ℤ}
use autotrader_ai.Prelude.Text.{Text, text, text_eq, contains, upper}
use autotrader_ai.Float.{Float, fzero, fixed_float}
use autotrader_ai.Rebalance.{get_key}
use autotrader_ai.Domain.{OverlayType}
use autotrader_ai.Engine.World.{Fault, Result, ok, err}
use autotrader_ai.Signals.Normalize.{Direction, SignalChange, lstrip, rstrip, direction_text}
use autotrader_ai.Signals.Json.{
  Json, missing, bool, int, real, str, arr, obj, Items, nil, cons, Fields, end, field, get_field,
}

-- `s.strip().upper()`
abbrev pub folded : Text → Text
folded s = upper (rstrip (lstrip s))

abbrev pub buy_labels : List Text
buy_labels = text "BUY" ∷ text "STRONG BUY" ∷ []

abbrev pub sell_labels : List Text
sell_labels = text "CAUTION" ∷ text "AVOID" ∷ text "SELL" ∷ []

-- `_EXIT_POINTS`
abbrev pub exit_points : ℤ
exit_points = negsuc 9

-- `_DIRECTION_ALIASES`
abbrev pub direction_aliases : List (Text × Direction)
direction_aliases =
    (text "UP", Direction.up)
    ∷ (text "UPGRADE", Direction.up)
    ∷ (text "DOWN", Direction.down)
    ∷ (text "DOWNGRADE", Direction.down)
    ∷ []

-- `_OVERLAYS`, with the type that each names
abbrev pub overlays : List (Text × OverlayType)
overlays =
    (text "COVERED_CALL", OverlayType.covered_call)
    ∷ (text "PROTECTIVE_PUT", OverlayType.protective_put)
    ∷ (text "COLLAR", OverlayType.collar)
    ∷ (text "CALL_DIAGONAL", OverlayType.call_diagonal)
    ∷ (text "BEAR_PUT_SPREAD", OverlayType.bear_put_spread)
    ∷ (text "LEAP", OverlayType.leap)
    ∷ []

-- What becomes of an item: a change; a benign skip; an item that is broken.
pub data Coerced : Type 0 where
  change : SignalChange → Coerced
  skipped : Coerced
  broken : Coerced

unfoldable pub add_item : Coerced → List SignalChange × Bool → List SignalChange × Bool
add_item (change c) (cs, failed) = (c ∷ cs, failed)
add_item skipped r = r
add_item broken (cs, failed) = (cs, true)

-- The canonical document.
pub record Canonical (W : Type 0) : Type 0 where
  pub routine_id : Text
  pub timestamp : Json W
  pub signal_changes : List SignalChange
  pub hard_stops : Option (Fields W)
  pub catalysts : Option (Items W)
  pub portfolio_targets : Option (Items W)

-- A text that is not blank.
unfoldable pub named_id : {W : Type 0} → Json W → Option Text
named_id (str s) = if null (rstrip (lstrip s)) then none else some s
named_id _ = none

-- `d.get(key)`
abbrev pub item_of : {W : Type 0} → Text → Fields W → Json W
item_of k fs = or_default (get_field k fs) missing

module _ {W : Type 0} ⦃f : Float W⦄ where
  -- `_num`
  unfoldable pub num : Json W → Option W
  num (int n) = some (f.of_int n)
  num (real x) = some x
  num _ = none

  -- `_label` of one candidate
  unfoldable pub label_of : Json W → Option Text
  label_of (str s) = let t = folded s in if null t then none else some t
  label_of _ = none

  -- `_label` of two candidates
  unfoldable pub label : Json W → Json W → Option Text
  unfolding label_of
  label a b = elim (label_of a) [ none ↦ label_of b | some t ↦ some t ]

  -- The truth of a value.
  unfoldable pub truth : Json W → Bool
  truth missing = false
  truth (bool b) = b
  truth (int n) = not (eqb_ℤ n (pos 0))
  truth (real x) = not (f.eq x fzero)
  truth (str s) = not (null s)
  truth (arr nil) = false
  truth (arr (cons x xs)) = true
  truth (obj end) = false
  truth (obj (field k v fs)) = true

  -- `a or b`
  unfoldable pub or_json : Json W → Json W → Json W
  unfolding truth
  or_json a b = if truth a then a else b

  -- `max(0, min(10, int(round(score / 10))))`; `none` where `round` raises
  unfoldable pub conviction : W → Option ℤ
  conviction score = elim (f.round (f.div score (f.lit 10 0))) [
    | none ↦ none
    | some n ↦ some (max_ℤ (pos 0) (min_ℤ (pos 10) n))
  ]

  -- `score or 0.0`
  unfoldable pub score_or_zero : Option W → W
  score_or_zero none = fzero
  score_or_zero (some x) = if f.eq x fzero then fzero else x

  -- The direction and the points; `none` for a benign skip.
  unfoldable pub direction_of :
      Option Text → Option Direction → Option W → Option W → Result (Option (Direction × ℤ))
  unfolding contains text_eq
  direction_of (some l) explicit score delta =
      if contains l buy_labels
      then (elim (conviction (score_or_zero score)) [
        | none ↦ err Fault.not_finite
        | some n ↦ ok (some (Direction.up, n))
      ])
      else if contains l sell_labels
      then ok (some (Direction.down, exit_points))
      else ok none
  direction_of none none score delta = ok none
  direction_of none (some d) score none = ok none
  direction_of none (some d) score (some x) = elim (f.round x) [
    | none ↦ err Fault.not_finite
    | some n ↦ ok (some (d, n))
  ]

  unfoldable pub overlay_named : Json W → Option OverlayType
  unfolding get_key text_eq
  overlay_named (str s) = get_key (folded s) overlays
  overlay_named _ = none

  -- `it.get("changed") is False`
  unfoldable pub is_unchanged : Json W → Bool
  is_unchanged (bool b) = not b
  is_unchanged _ = false

  unfoldable pub as_items : Json W → Option (Items W)
  as_items (arr xs) = some xs
  as_items _ = none

  unfoldable pub keep_object : Json W → Option (Fields W)
  keep_object (obj fs) = some fs
  keep_object _ = none

  unfoldable pub given : Json W → Option (Json W)
  given missing = none
  given j = some j

  unfoldable pub raw_changes : Fields W → Items W
  unfolding as_items
  raw_changes doc = elim (as_items (item_of (text "signal_changes") doc)) [
    | some xs ↦ xs
    | none ↦ or_default (as_items (item_of (text "signals") doc)) nil
  ]

  -- A change needs a ticker that is a text and not blank.
  unfoldable pub with_ticker : Json W → (Text → Coerced) → Coerced
  with_ticker (str s) made = if null (rstrip (lstrip s)) then broken else made (rstrip (lstrip s))
  with_ticker _ made = broken
