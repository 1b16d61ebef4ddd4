-- ===== src/Signals/Tests.antt =====
-- A payload of two changes, of which one asks for an overlay without naming it, and a folder of two files.
use autotrader_ai.Prelude.{◌≡◌, refl, ◌+◌, Bool, Option, none, some, List, [], ◌∷◌}
use autotrader_ai.Prelude.Int.{negsuc, ◌+ℤ◌, ◌-ℤ◌, ◌*ℤ◌}
use autotrader_ai.Prelude.Tally.{tally}
use autotrader_ai.Prelude.Text.{Text, text, text_eq, text_lt, contains, upper, strip_prefix}
use autotrader_ai.Float.{Fixed, fixed_float, Fixed-IsOrdered}
use autotrader_ai.Domain.{Side}
use autotrader_ai.Rebalance.{set_key, get_key}
use autotrader_ai.Signals.Normalize.{
  Direction, SignalChange, Payload, lower, has_part, lstrip, rstrip, join_slash, last_of,
  overlay_intended, normalize_symbol, confidence_of, normalize_change, usable_stops,
  normalize_changes, normalize_payload,
}
use autotrader_ai.Signals.Inbox.{
  Validated, Stored, Feed, names_of, insert_file, sort_files, take_targets, reject_file,
  accept_file, abandon, settle_file, poll_files, poll_folder, Answered, poll_folder_lem,
}
use autotrader_ai.Fixtures.{amount, aapl}

abbrev change : Text → Text → SignalChange
change ticker driver = record {
  ticker = ticker;
  direction = Direction.up;
  transition = text "HOLD" ∷ text "BUY" ∷ [];
  points_delta = negsuc 3;
  driver = driver;
  overlay = none;
}

abbrev payload : Payload Fixed
payload = record {
  signal_changes =
      change (text " aapl") (text "earnings")
      ∷ change (text "MSFT") (text "x (options Overlay)")
      ∷ [];
  hard_stops = (text "AAPL", amount 90) ∷ (text "MSFT", amount 0) ∷ [];
}

payload_runs :
    normalize_payload payload (amount 10)
    ≡ record {
      symbol = aapl;
      direction = Side.buy;
      confidence = fixed_float.lit 4 1;
      rationale = text "earnings: HOLD/BUY";
      stop_price = some (amount 90);
      overlay = none;
    }
      ∷ []
unfolding normalize_payload normalize_changes usable_stops normalize_change confidence_of
    normalize_symbol overlay_intended last_of join_slash rstrip lstrip has_part lower strip_prefix
    set_key get_key contains text_eq upper ◌+ℤ◌ ◌-ℤ◌ ◌*ℤ◌
payload_runs = refl

-- Only the file with a text is valid.
abbrev validate : Text → Option (Validated Fixed)
validate [] = none
validate (c ∷ body) = some (record {
  payload = payload;
  day = text "2026-06-01";
  targets = (aapl, amount 1) ∷ (aapl, amount 2) ∷ [];
})

abbrev feed : Feed Fixed Text
feed = record { validate = validate; on_targets = none; scale = amount 10 }

abbrev files : List (Text × Text)
files = (text "b.json", text "x") ∷ (text "a.json", []) ∷ []

files_run : (poll_folder feed files []).rejected ≡ text "a.json" ∷ []
unfolding payload_runs poll_folder poll_files sort_files insert_file text_lt take_targets
    settle_file accept_file reject_file
files_run = refl

-- A store that refuses the second row of a symbol ends the poll: the valid file stays.
abbrev strict : Feed Fixed Text
strict = record feed { on_targets = some (λ day rows s. (Stored.thrown, s)) }

poll_raises :
    ((poll_folder strict files []).signals ≡ none)
    × ((poll_folder strict files []).left ≡ text "b.json" ∷ [])
unfolding files_run abandon
poll_raises = (refl, refl)

abbrev is_a : Text → Bool
is_a name = text_eq name (text "a.json")

poll_folder_lem_example :
    (tally is_a (poll_folder strict files []).processed
        + tally is_a (poll_folder strict files []).rejected
        + tally is_a (poll_folder strict files []).left
      ≡ tally is_a (names_of files))
    × Answered strict (poll_folder strict files []).signals (poll_folder strict files []).left
unfolding payload_runs
poll_folder_lem_example = poll_folder_lem strict Fixed-IsOrdered refl refl refl is_a files []
