-- ===== src/Moomoo/Chain.antt =====
-- autotrader/moomoo_broker.py, `MoomooBroker.get_option_chain`.
use autotrader_ai.Prelude.{
  ℕ, zero, suc, not, ◌&&◌, ◌||◌, Option, none, some, List, [], ◌∷◌, ◌++◌, if◌then◌else◌, null,
  length, take, drop,
}
use autotrader_ai.Prelude.Int.{ℤ}
use autotrader_ai.Prelude.Text.{Text, text, contains}
use autotrader_ai.Float.{Float, fzero, fixed_float}
use autotrader_ai.Domain.{OptionRight}
use autotrader_ai.Options.Chain.{OptionQuote}
use autotrader_ai.Moomoo.World.{Sdk, Ask, ◌>>=◌, pure, ask}
use autotrader_ai.Moomoo.Windows.{chain_windows}

-- The rows of an answer; none after another return code.
abbrev rows_of : {R : Type 0} → Option (List R) → List R
rows_of none = []
rows_of (some rows) = rows

-- `range(0, len(codes), 400)`, with as many batches at most as there is fuel
unfoldable pub batches : (fuel : ℕ) → List Text → List (List Text)
unfolding take drop
batches fuel [] = []
batches zero (x ∷ xs) = []
batches (suc fuel) (x ∷ xs) = take 400 (x ∷ xs) ∷ batches fuel (drop 400 (x ∷ xs))

module _ {W S R : Type 0} ⦃f : Float W⦄ (c : Sdk W S R) where
  unfoldable pub expiries_of : List R → List ℕ
  unfolding take
  expiries_of [] = []
  expiries_of (row ∷ rows) =
      let rest = expiries_of rows in
      elim (c.parse_day (take 10 (c.text_at row (text "strike_time" ∷ text "expiry_date" ∷ [])))) [
        | none ↦ rest
        | some day ↦ day ∷ rest
      ]

  -- The codes so far, with those of the rows that are new.
  unfoldable pub add_codes : List R → List Text → List Text
  unfolding contains
  add_codes [] codes = codes
  add_codes (row ∷ rows) codes =
      let code = c.text_at row (text "code" ∷ []) in
      add_codes rows (if null code || contains code codes then codes else codes ++ code ∷ [])

  -- A window whose query fails adds nothing.
  unfoldable pub chain_codes : Text → OptionRight → List (ℕ × ℕ) → List Text → Ask W S (List Text)
  unfolding add_codes
  chain_codes underlying right [] codes = pure codes
  chain_codes underlying right (w ∷ ws) codes = do
    rows ← ask (c.option_chain underlying right w.0 w.1)
    chain_codes underlying right ws (add_codes (rows_of rows) codes)

  -- `(bid + ask) / 2 if (bid and ask) else last_price`
  unfoldable pub mid_of : R → W
  mid_of row =
      let bid = c.float_at row (text "bid_price" ∷ text "bid" ∷ []) in
      let ask_px = c.float_at row (text "ask_price" ∷ text "ask" ∷ []) in
      if not (f.eq bid fzero) && not (f.eq ask_px fzero)
      then f.div (f.add bid ask_px) (f.lit 2 0)
      else c.float_at row (text "last_price" ∷ text "cur_price" ∷ [])

  -- The quote of a row, or nothing.
  unfoldable pub quote_of : Text → OptionRight → R → List (OptionQuote W)
  unfolding mid_of take
  quote_of underlying right row =
      let strike =
        c.float_at row (text "option_strike_price" ∷ text "strike_price" ∷ text "strike" ∷ []) in
      let mid = mid_of row in
      let names = text "option_expiry_date" ∷ text "strike_time" ∷ text "expiry_date" ∷ [] in
      elim (c.parse_day (take 10 (c.text_at row names))) [
        | none ↦ []
        | some expiry ↦
            if f.le strike fzero || f.le mid fzero
            then []
            else (record {
              code = c.text_at row (text "code" ∷ []);
              underlying = underlying;
              expiry = expiry;
              strike = strike;
              right = right;
              delta = c.float_at row (text "option_delta" ∷ text "delta" ∷ []);
              premium = mid;
            })
              ∷ []
      ]

  unfoldable pub quotes_of_rows : Text → OptionRight → List R → List (OptionQuote W)
  unfolding quote_of
  quotes_of_rows underlying right [] = []
  quotes_of_rows underlying right (row ∷ rows) =
      quote_of underlying right row ++ quotes_of_rows underlying right rows

  -- A batch whose query fails adds nothing.
  unfoldable pub batch_quotes :
      Text → OptionRight → List (List Text) → Ask W S (List (OptionQuote W))
  unfolding quotes_of_rows
  batch_quotes underlying right [] = pure []
  batch_quotes underlying right (b ∷ bs) = do
    rows ← ask (c.market_snapshot b)
    rest ← batch_quotes underlying right bs
    pure (quotes_of_rows underlying right (rows_of rows) ++ rest)

  unfoldable pub get_option_chain : Text → OptionRight → ℤ → ℤ → Ask W S (List (OptionQuote W))
  unfolding expiries_of
  get_option_chain underlying right dte_min dte_max l =
      let today = c.today l.outside in
      (do
        days ← ask (c.expirations underlying)
        let wanted = chain_windows (expiries_of (rows_of days)) today dte_min dte_max 30
        codes ← chain_codes underlying right wanted []
        batch_quotes underlying right (batches (length codes) codes))
        l
