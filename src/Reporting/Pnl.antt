-- ===== src/Reporting/Pnl.antt =====
-- autotrader/reporting/pnl.py: the realised profit of a day, from fills at a running average cost.
use autotrader_ai.Prelude.{
  ℕ, zero, suc, ◌≡◌, refl, ap, ◌∙◌, Bool, false, ◌&&◌, ◌||◌, Option, none, some, List, [], ◌∷◌,
  arith, if◌then◌else◌, or_default, is_some, any,
}
use autotrader_ai.Prelude.Text.{Text, text_eq, text_lt}
use autotrader_ai.Float.{Float, fzero, fixed_float}
use autotrader_ai.Domain.{Side, side_eq}
use autotrader_ai.Rebalance.{set_key, get_key}

pub record FillRow (W : Type 0) : Type 0 where
  pub symbol : Text
  pub side : Side
  pub qty : W
  pub price : W
  pub ts : Text

-- The variables of the loop.
pub record Costs (W : Type 0) : Type 0 where
  pub shares : List (Text × W)
  pub avg : List (Text × W)
  pub realized : W
  pub saw_sell_today : Bool

-- `ts[:n]`
unfoldable pub prefix_of : ℕ → Text → Text
prefix_of zero s = []
prefix_of (suc n) [] = []
prefix_of (suc n) (c ∷ s) = c ∷ prefix_of n s

module _ {W : Type 0} where
  -- `sorted(fills, key=lambda r: r[4])`, which keeps the order of equal keys
  unfoldable pub insert_row : FillRow W → List (FillRow W) → List (FillRow W)
  insert_row r [] = r ∷ []
  insert_row r (s ∷ rows) = if text_lt s.ts r.ts then s ∷ insert_row r rows else r ∷ s ∷ rows

  unfoldable pub sort_rows : List (FillRow W) → List (FillRow W)
  sort_rows [] = []
  sort_rows (r ∷ rows) = insert_row r (sort_rows rows)

  abbrev pub on_day : Text → FillRow W → Bool
  on_day day r = text_eq (prefix_of 10 r.ts) day

  abbrev pub sold_on : Text → FillRow W → Bool
  sold_on day r = side_eq r.side Side.sell && on_day day r

module _ {W : Type 0} ⦃f : Float W⦄ where
  -- The body of the loop.
  unfoldable pub book_fill : Text → Costs W → FillRow W → Costs W
  book_fill day b r =
      let h = or_default (get_key r.symbol b.shares) fzero in
      let a = or_default (get_key r.symbol b.avg) fzero in
      elim r.side [
        | Side.buy ↦
            let new_h = f.add h r.qty in
            let cost =
              if f.eq new_h fzero
              then fzero
              else f.div (f.add (f.mul a h) (f.mul r.price r.qty)) new_h in
            record b { avg = set_key r.symbol cost b.avg; shares = set_key r.symbol new_h b.shares }
        | Side.sell ↦ record b {
          realized =
              if on_day day r then f.add b.realized (f.mul (f.sub r.price a) r.qty) else b.realized;
          saw_sell_today = on_day day r || b.saw_sell_today;
          shares = set_key r.symbol (f.sub h r.qty) b.shares;
        }
      ]

  unfoldable pub book_fills : Text → Costs W → List (FillRow W) → Costs W
  book_fills day b [] = b
  book_fills day b (r ∷ rows) = book_fills day (book_fill day b r) rows

  unfoldable pub realized_from_fills : List (FillRow W) → Text → Option W
  realized_from_fills fills day =
      let b =
        book_fills day (record { shares = []; avg = []; realized = fzero; saw_sell_today = false })
          (sort_rows fills) in
      if b.saw_sell_today then some b.realized else none

  any-insert_row :
      (p : FillRow W → Bool) (r : FillRow W) (rows : List (FillRow W))
      → any p (insert_row r rows) ≡ (p r || any p rows)
  unfolding insert_row
  any-insert_row p r [] = refl
  any-insert_row p r (s ∷ rows) = ground (arith, any-insert_row p r rows)

  any-sort_rows :
      (p : FillRow W → Bool) (rows : List (FillRow W)) → any p (sort_rows rows) ≡ any p rows
  unfolding sort_rows
  any-sort_rows p [] = refl
  any-sort_rows p (r ∷ rows) =
      any-insert_row p r (sort_rows rows) ∙ ap (λ b. p r || b) (any-sort_rows p rows)

  saw-book_fill :
      (day : Text) (b : Costs W) (r : FillRow W)
      → (book_fill day b r).saw_sell_today ≡ (sold_on day r || b.saw_sell_today)
  unfolding book_fill
  saw-book_fill day b r = ground arith

  saw-book_fills :
      (day : Text) (b : Costs W) (rows : List (FillRow W))
      → (book_fills day b rows).saw_sell_today ≡ (any (sold_on day) rows || b.saw_sell_today)
  unfolding book_fills
  saw-book_fills day b [] = refl
  saw-book_fills day b (r ∷ rows) =
      ground (arith, saw-book_fills day (book_fill day b r) rows, saw-book_fill day b r)

  -- A day has a realised profit exactly when a SELL of that day is among the fills, in whatever
  -- order they come; a day without one has none, not zero.
  pub realized_iff_sold :
      (fills : List (FillRow W)) (day : Text)
      → is_some (realized_from_fills fills day) ≡ any (sold_on day) fills
  unfolding realized_from_fills
  realized_iff_sold fills day = ground (
    arith,
    saw-book_fills day (record { shares = []; avg = []; realized = fzero; saw_sell_today = false })
        (sort_rows fills),
    any-sort_rows (sold_on day) fills,
  )
