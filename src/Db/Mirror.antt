-- ===== src/Db/Mirror.antt =====
-- The projection mirrors the broker: fills are recorded once, and the positions are those of the
-- snapshot.
use autotrader_ai.Prelude.{
  ◌+◌, ◌≡◌, refl, ap, ◌∙◌, Bool, true, not, ◌||◌, Option, none, some, List, [], ◌∷◌, ◌++◌, map,
  arith, if◌then◌else◌, is_some, length, keep, any, first, All, length-append,
}
use autotrader_ai.Prelude.Text.{Text, text_eq, contains, text_eq_refl, text_eq_iff}
use autotrader_ai.Float.{fixed_float}
use autotrader_ai.Domain.{Fill, Position}
use autotrader_ai.Db.Tables.{
  Tables, insert_fill, insert_fills, record_fills, put_position, put_positions, replace_positions,
}

module _ {W : Type 0} where
  abbrev known : Text → List (Fill W) → Bool
  known k = any (λ (r : Fill W). text_eq r.fill_id k)

  known-append :
      (k : Text) (xs ys : List (Fill W)) → known k (xs ++ ys) ≡ (known k xs || known k ys)
  known-append k [] ys = refl
  known-append k (x ∷ xs) ys = ground (arith, known-append k xs ys)

  -- A fill that is in the table stays in it.
  known_insert :
      (k : Text) (x : Fill W) (rows : List (Fill W))
      → known k rows ≡ true
      → known k (insert_fill x rows).0 ≡ true
  unfolding insert_fill
  known_insert k x rows h = ground (arith, known-append k rows (x ∷ []))

  known_inserts :
      (k : Text) (xs rows : List (Fill W))
      → known k rows ≡ true
      → known k (insert_fills xs rows).0 ≡ true
  unfolding insert_fills
  known_inserts k [] rows h = h
  known_inserts k (x ∷ xs) rows h =
      known_inserts k xs (insert_fill x rows).0 (known_insert k x rows h)

  known_self : (x : Fill W) (rows : List (Fill W)) → known x.fill_id (insert_fill x rows).0 ≡ true
  unfolding insert_fill
  known_self x rows = ground (arith, known-append x.fill_id rows (x ∷ []), text_eq_refl x.fill_id)

  All-known :
      (xs rows : List (Fill W)) → All (λ x. known x.fill_id (insert_fills xs rows).0 ≡ true) xs
  unfolding insert_fills
  All-known [] rows = tt
  All-known (x ∷ xs) rows = (
    known_inserts x.fill_id xs (insert_fill x rows).0 (known_self x rows),
    All-known xs (insert_fill x rows).0,
  )

  insert_known :
      (xs rows : List (Fill W))
      → All (λ x. known x.fill_id rows ≡ true) xs
      → insert_fills xs rows ≡ (rows, 0)
  unfolding insert_fills insert_fill
  insert_known [] rows h = refl
  insert_known (x ∷ xs) rows (h, hs) = ground (arith, insert_known xs rows hs)

  length-insert_fills :
      (xs rows : List (Fill W))
      → length (insert_fills xs rows).0 ≡ length rows + (insert_fills xs rows).1
  unfolding insert_fills insert_fill
  length-insert_fills [] rows = omega arith
  length-insert_fills (x ∷ xs) rows = ground (
    arith,
    length-append rows (x ∷ []),
    length-insert_fills xs rows,
    length-insert_fills xs (rows ++ x ∷ []),
  )

  -- Recording fills adds to the table as many rows as it reports; recording the same fills again
  -- changes nothing and reports none.
  pub record_fills_once :
      (xs : List (Fill W)) (t : Tables W)
      → let (t', n) = record_fills xs t in
        (length t'.fills ≡ length t.fills + n) × (record_fills xs t' ≡ (t', 0))
  unfolding record_fills
  record_fills_once xs t = (
    length-insert_fills xs t.fills,
    ground (arith, insert_known xs (insert_fills xs t.fills).0 (All-known xs t.fills)),
  )

  -- The row of a symbol.
  abbrev pub row_of : Text → List (Position W) → Option (Position W)
  row_of s = first (λ (r : Position W). text_eq r.symbol s)

  row_of-keep :
      (s : Text) (g : Text → Bool) (rows : List (Position W))
      → row_of s (keep (λ (r : Position W). g r.symbol) rows)
        ≡ (if g s then row_of s rows else none)
  row_of-keep s g [] = ground arith
  row_of-keep s g (r ∷ rows) = ground (arith, text_eq_iff r.symbol s, row_of-keep s g rows)

  row_of-append :
      (s : Text) (rows : List (Position W)) (p : Position W)
      → row_of s (rows ++ p ∷ []) ≡ (
          if is_some (row_of s rows)
          then row_of s rows
          else if text_eq p.symbol s
          then some p
          else none)
  row_of-append s [] p = refl
  row_of-append s (r ∷ rows) p = ground (arith, row_of-append s rows p)

  row_of-put :
      (s : Text) (p : Position W) (rows : List (Position W))
      → row_of s (put_position p rows) ≡ (if text_eq p.symbol s then some p else row_of s rows)
  unfolding put_position
  row_of-put s p rows =
      let g = λ (k : Text). not (text_eq k p.symbol) in
      rw (row_of-append s (keep (λ (r : Position W). g r.symbol) rows) p) (
        rw (row_of-keep s g rows)
          (ground (arith, text_eq_iff p.symbol s, text_eq_iff s p.symbol, text_eq_refl s)))

  -- The last position that a snapshot lists for a symbol.
  abbrev pub latest : Text → List (Position W) → Option (Position W) → Option (Position W)
  latest s [] d = d
  latest s (p ∷ ps) d = latest s ps (if text_eq p.symbol s then some p else d)

  row_of-puts :
      (s : Text) (ps rows : List (Position W))
      → row_of s (put_positions ps rows) ≡ latest s ps (row_of s rows)
  unfolding put_positions
  row_of-puts s [] rows = refl
  row_of-puts s (p ∷ ps) rows =
      row_of-puts s ps (put_position p rows) ∙ ap (latest s ps) (row_of-put s p rows)

  latest_listed :
      (s : Text) (ps : List (Position W)) (d : Option (Position W))
      → (if contains s (map (λ (p : Position W). p.symbol) ps) then latest s ps d else none)
        ≡ latest s ps none
  unfolding contains
  latest_listed s [] d = refl
  latest_listed s (p ∷ ps) d = ground (
    arith,
    text_eq_iff p.symbol s,
    text_eq_iff s p.symbol,
    latest_listed s ps d,
    latest_listed s ps none,
    latest_listed s ps (some p),
  )

  -- After a sync the table has, for every symbol, exactly the position that the broker's snapshot
  -- lists last for it: rows of symbols that the snapshot lacks are gone, whatever stood there.
  pub replace_positions_mirror :
      (s : Text) (ps : List (Position W)) (t : Tables W)
      → row_of s (replace_positions ps t).positions ≡ latest s ps none
  unfolding replace_positions
  replace_positions_mirror s ps t =
      let g = λ (k : Text). contains k (map (λ (p : Position W). p.symbol) ps) in
      row_of-keep s g (put_positions ps t.positions)
      ∙ (rw (row_of-puts s ps t.positions) (latest_listed s ps (row_of s t.positions)))
