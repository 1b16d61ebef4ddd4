-- ===== src/Db/Sync.antt =====
-- autotrader/lifecycle.py, `ground_truth_sync` and `reconcile_open_orders`, on what the broker answers:
-- the account, the fills and the open orders, of which the last two may be unknown.
use autotrader_ai.Prelude.{
  ℕ, suc, ◌≡◌, refl, sym, ap, ◌∙◌, inl, inr, Bool, true, false, not, ◌&&◌, Option, none, some, List,
  [], ◌∷◌, map, arith, if◌then◌else◌, Bool-cases, length, keep, All,
}
use autotrader_ai.Prelude.Text.{Text, text_eq, contains, text_eq_refl, text_eq_iff}
use autotrader_ai.Float.{fixed_float}
use autotrader_ai.Domain.{Fill, OrderAck, AccountSnapshot}
use autotrader_ai.Db.Tables.{
  TradeRow, Tables, record_fills, replace_positions, mark_order_cancelled, open_trailing_stop_ids,
  stop_ids, cancel_row,
}

-- `{a.broker_order_id for a in open_orders if a.broker_order_id is not None}`
abbrev pub open_ids : List OrderAck → List Text
open_ids [] = []
open_ids (a ∷ acks) = elim a.broker_order_id [ none ↦ open_ids acks | some b ↦ b ∷ open_ids acks ]

pub record SyncResult : Type 0 where
  pub positions : ℕ
  pub new_fills : ℕ

abbrev swept_away : List Text → List Text → Text → Bool
swept_away ids opened i = contains i ids && not (contains i opened)

keep-keep : (p q : Text → Bool) (xs : List Text) → keep p (keep q xs) ≡ keep (λ i. q i && p i) xs
keep-keep p q [] = refl
keep-keep p q (x ∷ xs) = ground (arith, keep-keep p q xs)

keep_ext : (p q : Text → Bool) (xs : List Text) → ((i : Text) → p i ≡ q i) → keep p xs ≡ keep q xs
keep_ext p q [] h = refl
keep_ext p q (x ∷ xs) h = rw (h x, keep_ext p q xs h)

keep_all : (p : Text → Bool) (xs : List Text) → ((i : Text) → p i ≡ true) → keep p xs ≡ xs
keep_all p [] h = refl
keep_all p (x ∷ xs) h = rw (h x, keep_all p xs h)

swept_here :
    (b : Text) (bs opened : List Text) (i : Text)
    → contains b opened ≡ true
    → not (swept_away bs opened i) ≡ not (swept_away (b ∷ bs) opened i)
unfolding contains
swept_here b bs opened i h = ground (arith, text_eq_iff i b)

swept_gone :
    (b : Text) (bs opened : List Text) (i : Text)
    → contains b opened ≡ false
    → (not (text_eq i b) && not (swept_away bs opened i)) ≡ not (swept_away (b ∷ bs) opened i)
unfolding contains
swept_gone b bs opened i h = ground (arith, text_eq_iff i b)

-- Of the ids themselves, what is not swept is what is open.
left_open :
    (ids opened xs : List Text)
    → All (λ i. contains i ids ≡ true) xs
    → keep (λ i. not (swept_away ids opened i)) xs ≡ keep (λ i. contains i opened) xs
left_open ids opened [] h = refl
left_open ids opened (x ∷ xs) (h, hs) = ground (arith, left_open ids opened xs hs)

contains_mono :
    (x : Text) (ids xs : List Text)
    → All (λ i. contains i ids ≡ true) xs
    → All (λ i. contains i (x ∷ ids) ≡ true) xs
contains_mono x ids [] h = tt
contains_mono x ids (y ∷ xs) (h, hs) = (unfold contains in ground arith, contains_mono x ids xs hs)

contains_each : (xs : List Text) → All (λ i. contains i xs ≡ true) xs
contains_each [] = tt
contains_each (x ∷ xs) =
    (unfold contains in ground (arith, text_eq_refl x), contains_mono x xs xs (contains_each xs))

module _ {W : Type 0} where
  -- The loop over the tracked stops: the rows and the number swept.
  unfoldable pub sweep : List Text → List Text → Tables W → Tables W × ℕ
  sweep [] opened t = (t, 0)
  sweep (b ∷ bs) opened t =
      let gone = not (contains b opened) in
      let (t', n) = sweep bs opened (if gone then mark_order_cancelled b t else t) in
      (t', if gone then suc n else n)

  unfoldable pub reconcile_open_orders : Option (List OrderAck) → Tables W → Tables W × ℕ
  reconcile_open_orders none t = (t, 0)
  reconcile_open_orders (some acks) t = sweep (open_trailing_stop_ids t) (open_ids acks) t

  -- The fills step, where the query answered.
  unfoldable pub sync_fills : Option (List (Fill W)) → Tables W → Tables W × ℕ
  sync_fills none t = (t, 0)
  sync_fills (some xs) t = record_fills xs t

  unfoldable pub ground_truth_sync :
      AccountSnapshot W
      → Option (List (Fill W))
      → Option (List OrderAck)
      → Tables W
      → Tables W × SyncResult
  ground_truth_sync snap fills opened t =
      let mirrored = if snap.positions_loaded then replace_positions snap.positions t else t in
      let (filled, new) = sync_fills fills mirrored in
      (
        (reconcile_open_orders opened filled).0,
        record { positions = length snap.positions; new_fills = new },
      )

  stop_ids-cancel :
      (b : Text) (rows : List (TradeRow W))
      → stop_ids (map (cancel_row b) rows) ≡ keep (λ i. not (text_eq i b)) (stop_ids rows)
  stop_ids-cancel b [] = refl
  stop_ids-cancel b (r ∷ rows) = ground (arith, stop_ids-cancel b rows)

  marked_ids :
      (b : Text) (t : Tables W)
      → stop_ids (mark_order_cancelled b t).trades
        ≡ keep (λ i. not (text_eq i b)) (stop_ids t.trades)
  unfolding mark_order_cancelled
  marked_ids b t = stop_ids-cancel b t.trades

  stop_ids-sweep :
      (bs opened : List Text) (t : Tables W)
      → stop_ids (sweep bs opened t).0.trades
        ≡ keep (λ i. not (swept_away bs opened i)) (stop_ids t.trades)
  unfolding sweep
  stop_ids-sweep [] opened t = sym (
      keep_all (λ i. not (swept_away [] opened i)) (stop_ids t.trades)
        (λ i. unfold contains in refl))
  stop_ids-sweep (b ∷ bs) opened t = elim (Bool-cases (contains b opened)) [
    | inl there ↦ rw there (
        stop_ids-sweep bs opened t
        ∙ keep_ext _ _ (stop_ids t.trades) (λ i. swept_here b bs opened i there))
    | inr gone ↦ rw gone (
        stop_ids-sweep bs opened (mark_order_cancelled b t)
        ∙ ap (keep (λ i. not (swept_away bs opened i))) (marked_ids b t)
        ∙ keep-keep (λ i. not (swept_away bs opened i)) (λ i. not (text_eq i b)) (stop_ids t.trades)
        ∙ keep_ext _ _ (stop_ids t.trades) (λ i. swept_gone b bs opened i gone))
  ]

  -- A reconcile on a known book leaves as open stops exactly the tracked ones that the broker still
  -- lists, in their order; on an unknown book it changes nothing.
  pub reconcile_open_orders_lem :
      (acks : List OrderAck) (t : Tables W)
      → (open_trailing_stop_ids (reconcile_open_orders (some acks) t).0
          ≡ keep (λ i. contains i (open_ids acks)) (open_trailing_stop_ids t))
        × (reconcile_open_orders none t ≡ (t, 0))
  unfolding reconcile_open_orders open_trailing_stop_ids
  reconcile_open_orders_lem acks t = (
    stop_ids-sweep (stop_ids t.trades) (open_ids acks) t
        ∙ left_open (stop_ids t.trades) (open_ids acks) (stop_ids t.trades)
            (contains_each (stop_ids t.trades)),
    refl,
  )
