-- ===== src/Signals/Runs.antt =====
-- A rating in both dialects, and requests to a webhook with a small secret.
use autotrader_ai.Prelude.{◌≡◌, ◌⊎◌, refl, ◌++◌, true, false, Option, none, some, [], ◌∷◌}
use autotrader_ai.Prelude.Int.{ℤ, pos, ◌+ℤ◌, ◌-ℤ◌, ◌*ℤ◌, min_ℤ, max_ℤ}
use autotrader_ai.Prelude.Text.{Text, text, text_eq, eq_of_text_eq, contains, upper}
use autotrader_ai.Float.{Fixed, fixed_float}
use autotrader_ai.Rebalance.{get_key}
use autotrader_ai.Engine.World.{ok}
use autotrader_ai.Signals.Normalize.{Direction, lstrip, rstrip}
use autotrader_ai.Signals.Json.{Json, str, obj, nil, get_field}
use autotrader_ai.Signals.Coerce.{truth, conviction}
use autotrader_ai.Signals.Routine.{adapt_entry}
use autotrader_ai.Signals.Agree.{Rating, sweep_entry, swept_trade}
use autotrader_ai.Signals.Webhook.{
  Server, Request, Folders, accepted, crashed, IsAuthentic, handle_sweep, handle_sweep_lem,
}
use autotrader_ai.Signals.Lost.{rated, sweep_of, unrounded_score_lost}
use autotrader_ai.Fixtures.{aapl}

abbrev rating : Rating
rating = record { ticker = text " us.aapl"; prior = text "HOLD"; new = text "Buy "; score = pos 74 }

abbrev show : Json Fixed → Text
show j = []

abbrev read_int : Json Fixed → Option ℤ
read_int j = none

rating_runs :
    swept_trade (adapt_entry show read_int [] (sweep_entry rating))
    ≡ ok (some (aapl, Direction.up, pos 7))
unfolding adapt_entry get_field get_key text_eq upper lstrip rstrip conviction contains min_ℤ max_ℤ
    ◌+ℤ◌ ◌-ℤ◌ ◌*ℤ◌
rating_runs = refl

abbrev nan_body : Text
nan_body = text "{..NaN..}"

abbrev server : Server Fixed
server = record {
  secret = text "k";
  compare_digest = text_eq;
  hex_digest = λ secret body. secret ++ body;
  is_valid = λ body. text_eq body (text "ok");
  loads = λ body. some (obj (sweep_of (text "r1") (str (text "now")) (rated aapl none) nil));
  dumps = λ doc. text "ok";
  show = show;
}

abbrev signed : Text → Request
signed body = record {
  body = body;
  token = some (text "k");
  signature = some (text "sha256=k" ++ body);
}

abbrev empty_folders : Folders
empty_folders = record { inbox = []; rejected = []; refusals = [] }

sweep_runs :
    handle_sweep server (signed (text "ok")) empty_folders
    ≡ (accepted false, record empty_folders { inbox = text "ok" ∷ [] })
unfolding handle_sweep text_eq
sweep_runs = refl

handle_sweep_lem_example :
    ((handle_sweep server (signed (text "ok")) empty_folders).1.inbox ≡ [])
    ⊎ (IsAuthentic server (signed (text "ok"))
        × (body : Text) × ((handle_sweep server (signed (text "ok")) empty_folders).1.inbox
            ≡ body ∷ [])
        × (server.is_valid body ≡ true))
handle_sweep_lem_example = handle_sweep_lem server eq_of_text_eq (signed (text "ok")) empty_folders

unrounded_score_lost_example :
    handle_sweep server (signed nan_body) empty_folders ≡ (crashed, empty_folders)
unfolding sweep_runs truth upper lstrip rstrip ◌+ℤ◌ ◌-ℤ◌ ◌*ℤ◌
unrounded_score_lost_example =
    unrounded_score_lost show aapl none refl refl server (signed nan_body) empty_folders (text "r1")
      (str (text "now")) nil refl refl refl refl refl refl
