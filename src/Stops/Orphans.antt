-- ===== src/Stops/Orphans.antt =====
-- autotrader/stops.py, the orders that the first pass of `StopManager.reconcile` looks at, and its test of
-- whether one of them is a trailing stop of a held long.
use autotrader_ai.Prelude.{
  ◌≡◌, refl, ap, ◌∙◌, inl, inr, Bool, false, not, ◌&&◌, Option, none, some, List, [], ◌∷◌, map,
  arith, if◌then◌else◌, Option-cases, keep, null,
}
use autotrader_ai.Prelude.Int.{pos, ltb_ℤ}
use autotrader_ai.Prelude.Text.{Text, contains}
use autotrader_ai.Float.{fixed_float}
use autotrader_ai.Domain.{Side, side_eq, OrderAck, Position, AccountSnapshot, is_option_symbol}
use autotrader_ai.Db.Tables.{
  TradeRow, Tables, is_trailing, newest, broker_id_is, cancel_row, get_trade_by_broker_order_id,
  mark_order_cancelled,
}

-- An order is looked at that has a broker id, and one that is not empty.
abbrev pub orphan_ids : List OrderAck → List Text
orphan_ids [] = []
orphan_ids (a ∷ acks) = elim a.broker_order_id [
  | none ↦ orphan_ids acks
  | some b ↦ if null b then orphan_ids acks else b ∷ orphan_ids acks
]

module _ {W : Type 0} where
  -- The symbols of the longs in shares.
  unfoldable pub held_longs : AccountSnapshot W → List Text
  held_longs snap =
      map (λ (p : Position W). p.symbol)
        (keep (λ (p : Position W). ltb_ℤ (pos 0) p.qty && not (is_option_symbol p.symbol))
          snap.positions)

  unfoldable pub guards : List Text → Option (TradeRow W) → Bool
  guards longs none = false
  guards longs (some r) =
      is_trailing r.order_type && side_eq r.side Side.sell && contains r.symbol longs

  -- Is the order a trailing stop that protects a held long?
  unfoldable pub protects : List Text → Tables W → Text → Bool
  protects longs t boid = guards longs (get_trade_by_broker_order_id boid t)

  abbrev on_row : Text → Option (TradeRow W) → Option (TradeRow W)
  on_row b none = none
  on_row b (some r) = some (cancel_row b r)

  newest-cancel_row :
      (i b : Text) (rows : List (TradeRow W))
      → newest (broker_id_is i) (map (cancel_row b) rows) ≡ on_row b (newest (broker_id_is i) rows)
  unfolding newest
  newest-cancel_row i b [] = refl
  newest-cancel_row i b (r ∷ rows) = elim (Option-cases (newest (broker_id_is i) rows)) [
    | inl e ↦ let ih = newest-cancel_row i b rows ∙ ap (on_row b) e in ground arith
    | inr (x, e) ↦ let ih = newest-cancel_row i b rows ∙ ap (on_row b) e in ground arith
  ]

  guards-on_row :
      (longs : List Text) (b : Text) (o : Option (TradeRow W))
      → guards longs (on_row b o) ≡ guards longs o
  unfolding guards
  guards-on_row longs b none = refl
  guards-on_row longs b (some r) = ground arith

  pub protects-marked :
      (longs : List Text) (b i : Text) (t : Tables W)
      → protects longs (mark_order_cancelled b t) i ≡ protects longs t i
  unfolding protects mark_order_cancelled get_trade_by_broker_order_id
  protects-marked longs b i t =
      ap (guards longs) (newest-cancel_row i b t.trades)
      ∙ guards-on_row longs b (newest (broker_id_is i) t.trades)
