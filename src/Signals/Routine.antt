-- ===== src/Signals/Routine.antt =====
-- autotrader/signals/routine_adapter.py: a ticker sweep of the routine becomes a payload. The entries
-- are objects; an entry that is none raises, which is left out.
use autotrader_ai.Prelude.{
  suc, ◌==◌, Bool, Option, none, some, List, [], ◌∷◌, ◌++◌, if◌then◌else◌, null, any, or_default,
}
use autotrader_ai.Prelude.Int.{ℤ, pos, negsuc}
use autotrader_ai.Prelude.Text.{Text, text, text_eq, contains, upper, numbered}
use autotrader_ai.Float.{Float, fixed_float}
use autotrader_ai.Rebalance.{get_key, set_key}
use autotrader_ai.Engine.World.{Fault, Result, ok, err}
use autotrader_ai.Signals.Normalize.{Direction, SignalChange, lstrip, rstrip}
use autotrader_ai.Signals.Json.{Json, int, str, Fields, get_field}
use autotrader_ai.Signals.Coerce.{folded, conviction}
use autotrader_ai.Signals.Coerce.Document.{py_str}

-- The adapter's own labels and points.
abbrev pub routine_buys : List Text
routine_buys = text "BUY" ∷ text "STRONG BUY" ∷ []

abbrev pub routine_sells : List Text
routine_sells = text "CAUTION" ∷ text "AVOID" ∷ text "SELL" ∷ []

abbrev pub routine_exit_points : ℤ
routine_exit_points = negsuc 9

abbrev pub has_dot : Text → Bool
has_dot = any λ c. c == b'.'

-- What follows the first dot.
unfoldable pub after_dot : Text → Text
after_dot [] = []
after_dot (c ∷ s) = if c == b'.' then s else after_dot s

-- `q.split(".", 1)[1] if "." in q else q`
unfoldable pub bare_of : Text → Text
unfolding after_dot
bare_of q = if has_dot q then after_dot q else q

-- One more symbol; a bare ticker of two markets is ambiguous from then on.
unfoldable pub add_qualified : Text → List (Text × Option Text) → List (Text × Option Text)
unfolding bare_of get_key set_key text_eq
add_qualified q out =
    let bare = bare_of q in
    set_key bare
      (elim (get_key bare out) [
        | none ↦ some q
        | some none ↦ none
        | some (some other) ↦ if text_eq other q then some q else none
      ])
      out

-- `_qualified_map`, with the ambiguous tickers, which are none
unfoldable pub qualified_map : List Text → List (Text × Option Text) → List (Text × Option Text)
unfolding add_qualified
qualified_map [] out = out
qualified_map (s ∷ ss) out = qualified_map ss (add_qualified (folded s) out)

-- `_resolve_symbol`
unfoldable pub resolve_symbol : Text → List (Text × Option Text) → Option Text
unfolding get_key
resolve_symbol ticker qmap =
    if has_dot (folded ticker)
    then some (folded ticker)
    else or_default (get_key (folded ticker) qmap) none

unfoldable pub int_text : ℤ → Text
int_text (pos n) = numbered [] n
int_text (negsuc n) = numbered (b'-' ∷ []) (suc n)

-- `[s for s in (a, b) if s]`
unfoldable pub filled : Text → Text → List Text
filled a b = (if null a then [] else a ∷ []) ++ (if null b then [] else b ∷ [])

-- `show` gives `str` of a value that is no text, and `read_int` `int` of one that is no whole number.
module _ {W : Type 0} ⦃f : Float W⦄ (show : Json W → Text) (read_int : Json W → Option ℤ) where
  -- `str(entry.get(key, "")).strip()`
  unfoldable pub entry_str : Text → Fields W → Text
  unfolding py_str
  entry_str k entry = rstrip (lstrip (py_str show (or_default (get_field k entry) (str []))))

  unfoldable pub entry_text : Text → Fields W → Text
  unfolding entry_str
  entry_text k entry = upper (entry_str k entry)

  -- `int(entry.get("composite_score", 0))`
  unfoldable pub entry_score : Fields W → Result ℤ
  entry_score entry = elim (or_default (get_field (text "composite_score") entry) (int (pos 0))) [
    | int n ↦ ok n
    | j ↦ elim (read_int j) [ none ↦ err Fault.bad_value | some n ↦ ok n ]
  ]

  -- The direction and the points of a label; none where it is not actionable.
  unfoldable pub action_of : Text → ℤ → Result (Option (Direction × ℤ))
  unfolding contains text_eq
  action_of to_signal score =
      if contains to_signal routine_buys
      then (elim (conviction (f.of_int score)) [
        | none ↦ err Fault.not_finite
        | some points ↦ ok (some (Direction.up, points))
      ])
      else if contains to_signal routine_sells
      then ok (some (Direction.down, routine_exit_points))
      else ok none

  unfoldable pub swept_change : Text → Text → Text → ℤ → Direction → ℤ → SignalChange
  unfolding int_text filled
  swept_change symbol from_signal to_signal score direction points = record {
    ticker = symbol;
    direction = direction;
    transition = filled from_signal to_signal;
    points_delta = points;
    driver = text "routine ticker sweep (score " ++ int_text score ++ text ")";
    overlay = none;
  }

  -- One entry: its change, or none where it is skipped.
  unfoldable pub adapt_entry : List (Text × Option Text) → Fields W → Result (Option SignalChange)
  unfolding entry_text entry_score action_of swept_change resolve_symbol
  adapt_entry qmap entry =
      let to_signal = entry_text (text "to_signal") entry in
      elim (entry_score entry) [
        | err e ↦ err e
        | ok score ↦ elim (action_of to_signal score) [
          | err e ↦ err e
          | ok none ↦ ok none
          | ok (some (direction, points)) ↦
              elim (resolve_symbol (entry_str (text "ticker") entry) qmap) [
                | none ↦ ok none
                | some symbol ↦ ok (
                    some (
                      swept_change symbol (entry_text (text "from_signal") entry) to_signal score
                        direction points))
              ]
        ]
      ]

  unfoldable pub adapt_entries :
      List (Text × Option Text) → List (Fields W) → Result (List SignalChange)
  unfolding adapt_entry
  adapt_entries qmap [] = ok []
  adapt_entries qmap (e ∷ es) =
      let rest = adapt_entries qmap es in
      elim (adapt_entry qmap e) [
        | err e ↦ err e
        | ok one ↦ elim rest [
          | err e ↦ err e
          | ok cs ↦ ok (elim one [ none ↦ cs | some c ↦ c ∷ cs ])
        ]
      ]

  -- `adapt_routine_sweep`, for the id and the entries of a sweep; the stamp is apart.
  unfoldable pub adapt_routine_sweep :
      List Text → Text → List (Fields W) → Result (Text × List SignalChange)
  unfolding qualified_map adapt_entries
  adapt_routine_sweep allowed_symbols run_id entries =
      if null (rstrip (lstrip run_id))
      then err Fault.bad_value
      else elim (adapt_entries (qualified_map allowed_symbols []) entries) [
        | err e ↦ err e
        | ok changes ↦ ok (rstrip (lstrip run_id), changes)
      ]
