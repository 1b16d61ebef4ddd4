-- ===== src/Db/Listing.antt =====
-- autotrader/db.py, `DB.list_state`: the states under a prefix.
use autotrader_ai.Prelude.{List, is_some, keep}
use autotrader_ai.Prelude.Text.{Text, upper, strip_prefix}
use autotrader_ai.Float.{fixed_float}
use autotrader_ai.Rebalance.{sort_keys}
use autotrader_ai.Db.Tables.{Tables}

-- For a prefix without the wildcards `%` and `_`; SQL's `LIKE` does not tell the cases of ASCII apart.
unfoldable pub list_state : {W : Type 0} → Text → Tables W → List (Text × Text)
list_state prefix t =
    sort_keys
      (keep (λ (e : Text × Text). is_some (strip_prefix (upper prefix) (upper e.0))) t.engine_state)
