-- ===== src/Signals/Agree.antt =====
-- autotrader/signals/coerce.py and autotrader/signals/routine_adapter.py: the two ways in which a rating
-- of the routine becomes a trade.
use autotrader_ai.Prelude.{Option, none, some}
use autotrader_ai.Prelude.Int.{ℤ}
use autotrader_ai.Prelude.Text.{Text, text}
use autotrader_ai.Float.{Float, fixed_float}
use autotrader_ai.Engine.World.{Result, ok, err}
use autotrader_ai.Signals.Normalize.{Direction, SignalChange, lstrip, rstrip}
use autotrader_ai.Signals.Json.{Json, int, str, Fields, end, field}
use autotrader_ai.Signals.Coerce.{folded, Coerced, change, skipped, broken}

-- One rating of the routine.
pub record Rating : Type 0 where
  pub ticker : Text
  pub prior : Text
  pub new : Text
  pub score : ℤ

abbrev pub symbol_of : Rating → Text
symbol_of r = folded (rstrip (lstrip r.ticker))

module _ {W : Type 0} where
  -- In the dialect of the sweep, and in the one that the webhook repairs.
  abbrev pub sweep_entry : Rating → Fields W
  sweep_entry r = field (text "ticker") (str r.ticker) (
      field (text "from_signal") (str r.prior)
        (field (text "to_signal") (str r.new) (field (text "composite_score") (int r.score) end)))

  abbrev pub drifted : Rating → Fields W
  drifted r = field (text "ticker") (str r.ticker) (
      field (text "prior_signal") (str r.prior)
        (field (text "new_signal") (str r.new) (field (text "new_score") (int r.score) end)))

-- What of a change is traded: the symbol, stripped and in capitals, the direction and the points.
abbrev pub Trade : Type 0
Trade = Text × Direction × ℤ

abbrev pub trade_of : SignalChange → Trade
trade_of c = (folded c.ticker, c.direction, c.points_delta)

abbrev pub swept_trade : Result (Option SignalChange) → Result (Option Trade)
swept_trade (err e) = err e
swept_trade (ok none) = ok none
swept_trade (ok (some c)) = ok (some (c.ticker, c.direction, c.points_delta))

abbrev pub coerced_trade : Result Coerced → Result (Option Trade)
coerced_trade (err e) = err e
coerced_trade (ok (change c)) = ok (some (trade_of c))
coerced_trade (ok skipped) = ok none
coerced_trade (ok broken) = ok none

abbrev with_symbol : Text → Result (Option (Direction × ℤ)) → Result (Option Trade)
with_symbol s (err e) = err e
with_symbol s (ok none) = ok none
with_symbol s (ok (some (d, n))) = ok (some (s, d, n))
