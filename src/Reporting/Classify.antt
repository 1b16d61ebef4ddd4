-- ===== src/Reporting/Classify.antt =====
-- autotrader/reporting/classify.py: the label of a day's legs, and the check of an intended overlay.
use autotrader_ai.Prelude.{
  ℕ, Bool, false, not, ◌&&◌, Option, none, some, List, [], ◌∷◌, ◌==◌, leb, if◌then◌else◌, null,
  keep, any, length, is_some,
}
use autotrader_ai.Prelude.Text.{Text, text, upper, text_eq}
use autotrader_ai.Float.{fixed_float}
use autotrader_ai.Domain.{Side, OptionRight, side_eq, right_eq}
use autotrader_ai.Rebalance.{get_key}
use autotrader_ai.Reporting.OptionCode.{ParsedOption}

pub record Leg (W : Type 0) : Type 0 where
  pub side : Side
  pub qty : W
  pub price : W
  pub option : Option (ParsedOption W)

-- The names of `classify_strategy`.
pub data Label : Type 0 where
  collar covered_call protective_put bear_put_spread call_diagonal leap existing_shares : Label
  stock_entry stock_exit strategy : Label

module _ {W : Type 0} where
  abbrev pub is_stock : Leg W → Bool
  is_stock l = not (is_some l.option)

  abbrev pub has_right : OptionRight → Leg W → Bool
  has_right r l = elim l.option [ none ↦ false | some o ↦ right_eq o.right r ]

  -- An option leg of that right on that side.
  abbrev pub is_leg : OptionRight → Side → Leg W → Bool
  is_leg r s l = has_right r l && side_eq l.side s

  abbrev pub sold : OptionRight → List (Leg W) → Bool
  sold r legs = any (λ l. side_eq l.side Side.sell) (keep (has_right r) legs)

  abbrev pub bought : OptionRight → List (Leg W) → Bool
  bought r legs = any (λ l. side_eq l.side Side.buy) (keep (has_right r) legs)

  -- `"Stock entry" if stock[0].side == "BUY" else "Stock exit"`
  unfoldable pub stock_label : List (Leg W) → Label
  stock_label [] = strategy
  stock_label (l ∷ ls) = if side_eq l.side Side.buy then stock_entry else stock_exit

  unfoldable pub classify_strategy : List (Leg W) → Label
  unfolding stock_label
  classify_strategy legs =
      let stock = keep is_stock legs in
      let calls = keep (has_right OptionRight.call) legs in
      let puts = keep (has_right OptionRight.put) legs in
      let has_stock = not (null stock) in
      let short_call = sold OptionRight.call legs in
      let long_call = bought OptionRight.call legs in
      let long_put = bought OptionRight.put legs in
      let short_put = sold OptionRight.put legs in
      if has_stock && short_call && long_put
      then collar
      else if has_stock && short_call && null puts
      then covered_call
      else if has_stock && long_put && null calls
      then protective_put
      else if not has_stock && long_put && short_put
      then bear_put_spread
      else if not has_stock && null puts && leb 2 (length calls)
      then call_diagonal
      else if not has_stock && null puts && (length calls == 1) && long_call
      then leap
      else if not has_stock && null puts && (length calls == 1) && short_call
      then existing_shares
      else if has_stock && null calls && null puts
      then stock_label stock
      else strategy

-- `_INTENT_PROOF`: the name that is shown, and the labels that prove the intent.
abbrev pub intent_proof : List (Text × (Label × List Label))
intent_proof =
    (text "PROTECTIVE_PUT", (protective_put, protective_put ∷ collar ∷ []))
    ∷ (text "COLLAR", (collar, collar ∷ []))
    ∷ (text "COVERED_CALL", (covered_call, covered_call ∷ existing_shares ∷ collar ∷ []))
    ∷ (text "BEAR_PUT_SPREAD", (bear_put_spread, bear_put_spread ∷ []))
    ∷ (text "CALL_DIAGONAL", (call_diagonal, call_diagonal ∷ []))
    ∷ (text "LEAP", (leap, leap ∷ []))
    ∷ []

abbrev pub label_code : Label → ℕ
label_code collar = 0
label_code covered_call = 1
label_code protective_put = 2
label_code bear_put_spread = 3
label_code call_diagonal = 4
label_code leap = 5
label_code existing_shares = 6
label_code stock_entry = 7
label_code stock_exit = 8
label_code strategy = 9

abbrev pub same_label : Label → Label → Bool
same_label a b = label_code a == label_code b

-- The intended overlay whose option hedge the label does not prove.
unfoldable pub overlay_intent_mismatch : Text → Label → Option Label
unfolding get_key upper text_eq
overlay_intent_mismatch prefix label = elim (get_key (upper prefix) intent_proof) [
  | none ↦ none
  | some p ↦ if any (same_label label) p.1 then none else some p.0
]
