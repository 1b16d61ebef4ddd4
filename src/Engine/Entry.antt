-- ===== src/Engine/Entry.antt =====
-- autotrader/main.py: the object that `_defer_entry` builds for the JSON library, and the fields that
-- `_restore_deferred_entries` reads back from one. A field of another type than the one written, which
-- Python would take over unchecked, raises here.
use autotrader_ai.Prelude.{
  ◌≡◌, refl, sym, ap, ◌∙◌, Bool, false, Option, none, some, if◌then◌else◌, or_default,
}
use autotrader_ai.Prelude.Text.{Text, text, text_eq}
use autotrader_ai.Float.{Float, fixed_float}
use autotrader_ai.Domain.{Side, Signal}
use autotrader_ai.Rebalance.{◌>>=◌}
use autotrader_ai.Signals.Json.{Json, missing, int, real, str, obj, Fields, end, field, get_field}
use autotrader_ai.Engine.World.{Fault, Result, ok, err}
use autotrader_ai.Engine.Setup.{side_text}

-- The fields of an object.
abbrev pub object_fields : {W : Type 0} → Json W → Option (Fields W)
object_fields (obj fs) = some fs
object_fields _ = none

-- `d.get("deferred_on") == today`
abbrev pub is_today : {W : Type 0} → Text → Option (Json W) → Bool
is_today today (some (str day)) = text_eq day today
is_today today _ = false

abbrev side_from : Text → Option Side
side_from t =
    if text_eq t (text "BUY")
    then some Side.buy
    else if text_eq t (text "SELL")
    then some Side.sell
    else none

module _ {W : Type 0} where
  abbrev price_field : Option W → Json W
  price_field none = missing
  price_field (some x) = real x

  -- The dict of `_defer_entry`.
  unfoldable pub entry_fields : Text → Signal W → Fields W
  entry_fields deferred_on signal = field (text "symbol") (str signal.symbol) (
      field (text "direction") (str (side_text signal.direction)) (
        field (text "confidence") (real signal.confidence) (
          field (text "rationale") (str signal.rationale) (
            field (text "stop_price") (price_field signal.stop_price)
              (field (text "deferred_on") (str deferred_on) end)))))

module _ {W : Type 0} ⦃f : Float W⦄ where
  abbrev float_from : Json W → Option W
  float_from (real x) = some x
  float_from (int n) = some (f.of_int n)
  float_from _ = none

  abbrev price_from : Json W → Option (Option W)
  price_from missing = some none
  price_from j = elim (float_from j) [ none ↦ none | some x ↦ some (some x) ]

  -- `Signal(...)` of the values of the fields, without the checks of the constructor
  unfoldable pub signal_from :
      (symbol direction confidence rationale stop : Json W) → Option (Signal W)
  unfolding text_eq
  signal_from (str symbol) (str direction) confidence (str rationale) stop = do
    side ← side_from direction
    level ← float_from confidence
    price ← price_from stop
    some (record {
      symbol = symbol;
      direction = side;
      confidence = level;
      rationale = rationale;
      stop_price = price;
      overlay = none;
    })
  signal_from _ _ _ _ _ = none

  -- The values are looked up in the order of the arguments; a missing stop price is None.
  unfoldable pub signal_of : Fields W → Result (Signal W)
  unfolding signal_from get_field
  signal_of d = elim (get_field (text "symbol") d) [
    | none ↦ err Fault.missing_key
    | some symbol ↦ elim (get_field (text "direction") d) [
      | none ↦ err Fault.missing_key
      | some direction ↦ elim (get_field (text "confidence") d) [
        | none ↦ err Fault.missing_key
        | some confidence ↦ elim (get_field (text "rationale") d) [
          | none ↦ err Fault.missing_key
          | some rationale ↦
              elim (signal_from symbol direction confidence rationale
                (or_default (get_field (text "stop_price") d) missing)) [
                  | none ↦ err Fault.bad_value
                  | some s ↦ ok s
                ]
        ]
      ]
    ]
  ]

  parts_read_back :
      (symbol rationale : Text) (side : Side) (level : W) (stop : Option W)
      → signal_from
          (str symbol)
          (str (side_text side))
          (real level)
          (str rationale)
          (price_field stop)
        ≡ some (record {
          symbol = symbol;
          direction = side;
          confidence = level;
          rationale = rationale;
          stop_price = stop;
          overlay = none;
        })
  unfolding signal_from text_eq
  parts_read_back symbol rationale Side.buy level none = refl
  parts_read_back symbol rationale Side.buy level (some x) = refl
  parts_read_back symbol rationale Side.sell level none = refl
  parts_read_back symbol rationale Side.sell level (some x) = refl

  -- What is written of a signal without an overlay is read back as that signal.
  pub signal_of-entry_fields :
      (day : Text) (signal : Signal W)
      → signal.overlay ≡ none
      → signal_of (entry_fields day signal) ≡ ok signal
  unfolding signal_of entry_fields get_field text_eq
  signal_of-entry_fields day signal plain =
      let built : Option (Signal W) → Result (Signal W) =
        λ o. elim o [ none ↦ err Fault.bad_value | some s ↦ ok s ] in
      ap built (
        parts_read_back signal.symbol signal.rationale signal.direction signal.confidence
          signal.stop_price)
      ∙ ap (λ o. ok (record signal { overlay = o })) (sym plain)

  pub entry_day :
      (today day : Text) (signal : Signal W)
      → is_today today (get_field (text "deferred_on") (entry_fields day signal))
        ≡ text_eq day today
  unfolding entry_fields get_field text_eq
  entry_day today day signal = refl
