-- ===== src/Reporting/Proven.antt =====
-- autotrader/reporting/classify.py: what a report shows of an intended overlay.
use autotrader_ai.Prelude.{◌≡◌, ◌≤◌, true, false, none, List, arith, null, keep, length}
use autotrader_ai.Prelude.Text.{Text, text}
use autotrader_ai.Float.{fixed_float}
use autotrader_ai.Domain.{OptionRight, OverlayType}
use autotrader_ai.Reporting.Classify.{
  Leg, is_stock, has_right, sold, bought, classify_strategy, overlay_intent_mismatch,
}

-- The prefix of a signal's rationale.
abbrev pub prefix_name : OverlayType → Text
prefix_name OverlayType.covered_call = text "COVERED_CALL"
prefix_name OverlayType.protective_put = text "PROTECTIVE_PUT"
prefix_name OverlayType.collar = text "COLLAR"
prefix_name OverlayType.call_diagonal = text "CALL_DIAGONAL"
prefix_name OverlayType.bear_put_spread = text "BEAR_PUT_SPREAD"
prefix_name OverlayType.leap = text "LEAP"

module _ {W : Type 0} where
  -- The legs hold what the overlay is made of.
  abbrev pub Holds : OverlayType → List (Leg W) → Type 0
  Holds OverlayType.covered_call legs = sold OptionRight.call legs ≡ true
  Holds OverlayType.protective_put legs =
      (null (keep is_stock legs) ≡ false) × (bought OptionRight.put legs ≡ true)
  Holds OverlayType.collar legs =
      (null (keep is_stock legs) ≡ false)
      × (sold OptionRight.call legs ≡ true)
      × (bought OptionRight.put legs ≡ true)
  Holds OverlayType.call_diagonal legs =
      (2 ≤ length (keep (has_right OptionRight.call) legs))
      × (null (keep (has_right OptionRight.put) legs) ≡ true)
  Holds OverlayType.bear_put_spread legs =
      (null (keep is_stock legs) ≡ true)
      × (bought OptionRight.put legs ≡ true)
      × (sold OptionRight.put legs ≡ true)
  Holds OverlayType.leap legs = bought OptionRight.call legs ≡ true

  -- Where the report shows no missing hedge for an intended overlay, the fills of the day hold what the
  -- overlay is made of: a protective put has stock and a bought put, a collar stock, a sold call and
  -- a bought put, a covered call a sold call, a put spread a bought and a sold put, a LEAP a bought
  -- call, and a diagonal two call legs at least and no put.
  pub shown_hedge_held :
      (intent : OverlayType) (legs : List (Leg W))
      → overlay_intent_mismatch (prefix_name intent) (classify_strategy legs) ≡ none
      → Holds intent legs
  unfolding overlay_intent_mismatch classify_strategy
  shown_hedge_held OverlayType.covered_call legs h = ground arith
  shown_hedge_held OverlayType.protective_put legs h = ground arith
  shown_hedge_held OverlayType.collar legs h = ground arith
  shown_hedge_held OverlayType.call_diagonal legs h = ground arith
  shown_hedge_held OverlayType.bear_put_spread legs h = ground arith
  shown_hedge_held OverlayType.leap legs h = ground arith
