-- ===== src/Reporting/Tests.antt =====
-- Fills out of order: two purchases and a sale above their average cost.
use autotrader_ai.Prelude.{ℕ, ◌≡◌, refl, some, List, [], ◌∷◌, is_some, any}
use autotrader_ai.Prelude.Int.{◌+ℤ◌, ◌-ℤ◌, ◌*ℤ◌}
use autotrader_ai.Prelude.Text.{Text, text, text_eq, text_lt}
use autotrader_ai.Float.{Fixed, fixed_float}
use autotrader_ai.Domain.{Side}
use autotrader_ai.Rebalance.{set_key, get_key}
use autotrader_ai.Reporting.Pnl.{
  FillRow, prefix_of, insert_row, sort_rows, sold_on, book_fill, book_fills, realized_from_fills,
  realized_iff_sold,
}
use autotrader_ai.Fixtures.{amount, aapl}

abbrev row : Side → ℕ → ℕ → Text → FillRow Fixed
row s q p ts = record { symbol = aapl; side = s; qty = amount q; price = amount p; ts = ts }

abbrev rows : List (FillRow Fixed)
rows =
    row Side.sell 10 130 (text "2026-07-02T15:00")
    ∷ row Side.buy 10 100 (text "2026-07-01T15:00")
    ∷ row Side.buy 10 120 (text "2026-07-02T10:00")
    ∷ []

-- Ten shares sold at 130 that cost 110 on average.
pnl_runs : realized_from_fills rows (text "2026-07-02") ≡ some (amount 200)
unfolding realized_from_fills book_fills book_fill sort_rows insert_row prefix_of set_key get_key
    text_eq text_lt ◌+ℤ◌ ◌-ℤ◌ ◌*ℤ◌
pnl_runs = refl

realized_iff_sold_example :
    is_some (realized_from_fills rows (text "2026-07-02")) ≡ any (sold_on (text "2026-07-02")) rows
realized_iff_sold_example = realized_iff_sold rows (text "2026-07-02")
