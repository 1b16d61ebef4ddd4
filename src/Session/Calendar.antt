-- ===== src/Session/Calendar.antt =====
-- autotrader/market_calendar.py: the days of trading. A day is its ordinal number, of which 1 is a
-- Monday, as `date.toordinal` counts.
use autotrader_ai.Prelude.{ℕ, ◌+◌, ◌%◌, Bool, not, ◌&&◌, List, ltb, ◌==◌, any}

-- `d.weekday()`: 0 is Monday
unfoldable pub weekday : ℕ → ℕ
weekday d = (d + 6) % 7

unfoldable pub is_trading_day : ℕ → List ℕ → Bool
is_trading_day d holidays = ltb (weekday d) 5 && not (any (λ h. h == d) holidays)
