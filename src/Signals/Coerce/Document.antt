-- ===== src/Signals/Coerce/Document.antt =====
-- autotrader/signals/coerce.py: `_coerce_change` and `coerce_payload`.
use autotrader_ai.Prelude.{
  Bool, false, not, ◌&&◌, Option, none, some, List, [], ◌∷◌, if◌then◌else◌, null, or_default,
  is_some,
}
use autotrader_ai.Prelude.Int.{ℤ}
use autotrader_ai.Prelude.Text.{Text, text}
use autotrader_ai.Float.{Float, fixed_float}
use autotrader_ai.Rebalance.{get_key}
use autotrader_ai.Engine.World.{Result, ok, err}
use autotrader_ai.Signals.Normalize.{Direction, SignalChange, direction_text}
use autotrader_ai.Signals.Json.{Json, str, arr, obj, Items, nil, cons, Fields, get_field}
use autotrader_ai.Signals.Coerce.{
  folded, direction_aliases, Coerced, change, skipped, broken, add_item, Canonical, named_id,
  item_of, num, label, or_json, direction_of, overlay_named, is_unchanged, as_items, keep_object,
  given, raw_changes, with_ticker,
}

module _ {W : Type 0} ⦃f : Float W⦄ where
  -- `show` gives `str` of a value that is no text.
  module _ (show : Json W → Text) where
    unfoldable pub py_str : Json W → Text
    py_str (str s) = s
    py_str j = show j

    unfoldable pub transition_of : Json W → Option Text → Option Text → Direction → List Text
    unfolding py_str
    transition_of (arr (cons a (cons b nil))) prior new d = py_str a ∷ py_str b ∷ []
    transition_of _ prior new d = or_default prior [] ∷ or_default new (direction_text d) ∷ []

    -- With the direction and the points.
    unfoldable pub salvage : Fields W → Option Text → Option Text → Direction → ℤ → Coerced
    unfolding py_str transition_of overlay_named or_json with_ticker
    salvage fs prior new d points =
        let ticker =
          or_json (or_json (item_of (text "ticker") fs) (item_of (text "symbol") fs))
            (item_of (text "qualified_symbol") fs) in
        let made = λ (t : Text). change (record {
          ticker = t;
          direction = d;
          transition = transition_of (item_of (text "transition") fs) prior new d;
          points_delta = points;
          driver = py_str (
              or_json
                (or_json (or_json (item_of (text "driver") fs) (item_of (text "catalyst") fs))
                  (item_of (text "event") fs))
                (str []));
          overlay = overlay_named (item_of (text "overlay") fs);
        }) in
        with_ticker ticker made

    unfoldable pub labelled : Fields W → Option Direction → Result Coerced
    unfolding label direction_of salvage num
    labelled fs explicit =
        let prior = label (item_of (text "prior_signal") fs) (item_of (text "prior") fs) in
        let new = label (item_of (text "new_signal") fs) (item_of (text "signal") fs) in
        let score = elim (num (item_of (text "new_score") fs)) as (λ _. Option W) [
          | none ↦ num (item_of (text "score") fs)
          | some x ↦ some x
        ] in
        let delta = num (item_of (text "points_delta") fs) in
        elim (direction_of new explicit score delta) [
          | err e ↦ err e
          | ok none ↦ ok skipped
          | ok (some (d, points)) ↦ ok (salvage fs prior new d points)
        ]

    -- `_coerce_change`
    unfoldable pub coerce_change : Json W → Result Coerced
    unfolding py_str labelled is_unchanged get_key
    coerce_change (obj fs) =
        let raw = folded (py_str (or_default (get_field (text "direction") fs) (str []))) in
        let explicit = get_key raw direction_aliases in
        if not (null raw) && not (is_some explicit)
        then ok broken
        else if is_unchanged (item_of (text "changed") fs)
        then ok skipped
        else labelled fs explicit
    coerce_change _ = ok skipped

    -- The changes, and whether an item was broken.
    unfoldable pub coerce_items : Items W → Result (List SignalChange × Bool)
    unfolding coerce_change
    coerce_items nil = ok ([], false)
    coerce_items (cons it its) =
        let rest = coerce_items its in
        elim (coerce_change it) [
          | err e ↦ err e
          | ok one ↦ elim rest [ err e ↦ err e | ok r ↦ ok (add_item one r) ]
        ]

    -- With the id, the stamp and what the changes give.
    unfoldable pub finish_doc :
        Fields W → Text → Json W → Result (List SignalChange × Bool) → Result (Option (Canonical W))
    finish_doc doc id at (err e) = err e
    finish_doc doc id at (ok (changes, failed)) =
        if null changes && failed
        then ok none
        else ok (
            some (record {
              routine_id = id;
              timestamp = at;
              signal_changes = changes;
              hard_stops = keep_object (item_of (text "hard_stops") doc);
              catalysts = as_items (item_of (text "catalysts") doc);
              portfolio_targets = as_items (item_of (text "portfolio_targets") doc);
            }))

    unfoldable pub identified :
        Fields W → Option Text → Option (Json W) → Result (Option (Canonical W))
    unfolding coerce_items raw_changes as_items keep_object finish_doc
    identified doc none at = ok none
    identified doc (some id) none = ok none
    identified doc (some id) (some at) = finish_doc doc id at (coerce_items (raw_changes doc))

    unfoldable pub coerce_doc : Fields W → Result (Option (Canonical W))
    unfolding identified or_json given named_id
    coerce_doc doc =
        let routine_id = or_json (item_of (text "routine_id") doc) (item_of (text "run_id") doc) in
        let stamp =
          or_json (or_json (item_of (text "timestamp") doc) (item_of (text "generated_at") doc))
            (item_of (text "sweep_date") doc) in
        identified doc (named_id routine_id) (given stamp)

    -- `coerce_payload`, on the document that `json.loads` gives, if it gives one
    unfoldable pub coerce_payload : Option (Json W) → Result (Option (Canonical W))
    unfolding coerce_doc
    coerce_payload (some (obj doc)) = coerce_doc doc
    coerce_payload _ = ok none
