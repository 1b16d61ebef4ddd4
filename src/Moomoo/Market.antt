-- ===== src/Moomoo/Market.antt =====
-- autotrader/moomoo_broker.py, lines 101 to 159: quotes and the high of the last days.
-- Calls of the quote context take no token.
use autotrader_ai.Prelude.{
  ℕ, ◌+◌, ◌-◌, ◌*◌, ◌||◌, Option, none, some, List, [], ◌∷◌, if◌then◌else◌, ltb, length, take, drop,
}
use autotrader_ai.Prelude.Int.{ℤ, pos, pos_part, max_ℤ}
use autotrader_ai.Prelude.Text.{Text, text, text_eq}
use autotrader_ai.Float.{Float, fzero, fmax, fixed_float}
use autotrader_ai.Engine.World.{Result, ok, err}
use autotrader_ai.Moomoo.World.{Sdk, Ask, ◌>>=◌, pure, ask, attempt}

-- `xs[-n:]`, for n above 0
unfoldable pub last_n {ℓ} : {A : Type ℓ} → ℕ → List A → List A
unfolding drop
last_n n xs = drop (length xs - n) xs

-- The first row of an answer; none after another return code, and where there is no row.
abbrev pub first_row : {R : Type 0} → Option (List R) → Option R
first_row none = none
first_row (some []) = none
first_row (some (row ∷ rows)) = some row

-- `max(1, int(lookback))`
abbrev pub lookback_of : ℤ → ℕ
lookback_of lookback = pos_part (max_ℤ (pos 1) lookback)

module _ {W : Type 0} ⦃f : Float W⦄ where
  -- `max(xs)`
  unfoldable pub max_of : W → List W → W
  max_of x [] = x
  max_of x (y ∷ ys) = max_of (fmax x y) ys

  -- From the highs of the days, the oldest first.
  unfoldable pub high_of : ℕ → List W → Option W
  unfolding last_n max_of
  high_of lookback highs =
      let completed = last_n lookback highs in
      if ltb (length completed) lookback
      then none
      else elim completed [ [] ↦ none | x ∷ xs ↦ some (max_of x xs) ]

module _ {W S R : Type 0} ⦃f : Float W⦄ (c : Sdk W S R) where
  -- `safe_float(...) or None`
  unfoldable pub last_price : R → Option W
  last_price row =
      let px = c.float_at row (text "last_price" ∷ []) in if f.eq px fzero then none else some px

  unfoldable pub get_quote : Text → Ask W S (Option W)
  unfolding last_price
  get_quote symbol = do
    rows ← ask (c.market_snapshot (symbol ∷ []))
    pure (elim (first_row rows) [ none ↦ none | some row ↦ last_price row ])

  unfoldable pub touch_of : R → Option (W × W)
  touch_of row =
      let bid = c.float_at row (text "bid_price" ∷ text "bid" ∷ []) in
      let ask_px = c.float_at row (text "ask_price" ∷ text "ask" ∷ []) in
      if f.le bid fzero || f.le ask_px fzero then none else some (bid, ask_px)

  unfoldable pub get_touch : Text → Ask W S (Option (W × W))
  unfolding touch_of
  get_touch symbol = do
    rows ← ask (c.market_snapshot (symbol ∷ []))
    pure (elim (first_row rows) [ none ↦ none | some row ↦ touch_of row ])

  -- The highs of the bars that are complete: today's bar and bars without a high are left out.
  unfoldable pub completed_highs : Text → List R → List W
  unfolding take text_eq
  completed_highs end_day [] = []
  completed_highs end_day (row ∷ rows) =
      let rest = completed_highs end_day rows in
      let day = take 10 (c.text_at row (text "time_key" ∷ text "time" ∷ [])) in
      let high = c.float_at row (text "high" ∷ []) in
      if text_eq day end_day then rest else if f.lt fzero high then high ∷ rest else rest

  unfoldable pub bars_high : ℕ → Text → Result (Option (List R)) → Option W
  unfolding completed_highs high_of
  bars_high lookback end_day (err e) = none
  bars_high lookback end_day (ok none) = none
  bars_high lookback end_day (ok (some rows)) = high_of lookback (completed_highs end_day rows)

  -- Days are numbers, far from the first one.
  unfoldable pub recent_high : Text → ℤ → Ask W S (Option W)
  recent_high symbol lookback l =
      let n = lookback_of lookback in
      let today = c.today l.outside in
      (do
        bars ← attempt (ask (c.day_bars symbol (today - (n * 2 + 10)) today (2 * n + 15)))
        pure (bars_high n (c.isoformat today) bars))
        l
