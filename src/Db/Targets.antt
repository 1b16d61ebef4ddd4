-- ===== src/Db/Targets.antt =====
-- autotrader/db.py: the table of target weights. A row keeps the time stamp of its insertion. A row
-- whose key is taken makes the insertion fail, and leaves on the connection what came before it.
use autotrader_ai.Prelude.{
  ◌≡◌, refl, sym, ap, ◌∙◌, inl, inr, Bool, true, false, not, ◌&&◌, Option, none, some, List, [],
  ◌∷◌, ◌++◌, map, arith, if◌then◌else◌, Bool-cases, keep, any, first, All,
}
use autotrader_ai.Prelude.Text.{Text, text_eq, upper, text_lt, text_eq_refl}
use autotrader_ai.Float.{fixed_float}

pub record WeightRow (W : Type 0) : Type 0 where
  pub as_of_date : Text
  pub symbol : Text
  pub score : W
  pub ingested_at : Text

-- What `latest_target_weights` answers.
pub record Targets (W : Type 0) : Type 0 where
  pub as_of : Text
  pub stamp : Text
  pub scores : List (Text × W)

append-nil : {A : Type 0} (xs : List A) → xs ++ [] ≡ xs
append-nil [] = refl
append-nil (x ∷ xs) = ap (λ ys. x ∷ ys) (append-nil xs)

append_assoc : {A : Type 0} (xs ys zs : List A) → (xs ++ ys) ++ zs ≡ xs ++ (ys ++ zs)
append_assoc [] ys zs = refl
append_assoc (x ∷ xs) ys zs = ap (λ rest. x ∷ rest) (append_assoc xs ys zs)

module _ {W : Type 0} where
  abbrev pub same_key : WeightRow W → WeightRow W → Bool
  same_key a b = text_eq a.as_of_date b.as_of_date && text_eq a.symbol b.symbol

  abbrev pub row_for : Text → Text → Text × W → WeightRow W
  row_for ts day e = record { as_of_date = day; symbol = upper e.0; score = e.1; ingested_at = ts }

  -- The `INSERT`s: the table, and whether all of them passed.
  unfoldable pub insert_weights :
      Text → Text → List (Text × W) → List (WeightRow W) → List (WeightRow W) × Bool
  insert_weights ts day [] t = (t, true)
  insert_weights ts day (e ∷ es) t =
      let rest = insert_weights ts day es (t ++ row_for ts day e ∷ []) in
      if any (same_key (row_for ts day e)) t then (t, false) else rest

  abbrev pub other_day : Text → WeightRow W → Bool
  other_day day r = not (text_eq r.as_of_date day)

  unfoldable pub upsert_target_weights :
      Text → Text → List (Text × W) → List (WeightRow W) → List (WeightRow W) × Bool
  upsert_target_weights ts day rows t = insert_weights ts day rows (keep (other_day day) t)

  -- `ORDER BY as_of_date DESC LIMIT 1`
  unfoldable pub newest_date : List (WeightRow W) → Option Text
  newest_date [] = none
  newest_date (r ∷ rs) = elim (newest_date rs) [
    | none ↦ some r.as_of_date
    | some d ↦ if text_lt d r.as_of_date then some r.as_of_date else some d
  ]

  -- The scores in the order of insertion, which the query leaves open and the dict that is answered
  -- does not show, and the stamp of the first row.
  unfoldable pub latest_target_weights : List (WeightRow W) → Option (Targets W)
  latest_target_weights t = elim (newest_date t) [
    | none ↦ none
    | some day ↦
        let rows = keep (λ (r : WeightRow W). text_eq r.as_of_date day) t in
        elim (first (λ _. true) rows) [
          | none ↦ none
          | some r ↦ some (record {
            as_of = day;
            stamp = r.ingested_at;
            scores = map (λ (x : WeightRow W). (x.symbol, x.score)) rows;
          })
        ]
  ]

  -- Where the insertions pass, they append all rows.
  insert_weights_appends :
      (ts day : Text) (es : List (Text × W)) (t : List (WeightRow W))
      → (insert_weights ts day es t).1 ≡ true
      → (insert_weights ts day es t).0 ≡ t ++ map (row_for ts day) es
  unfolding insert_weights
  insert_weights_appends ts day [] t h = sym (append-nil t)
  insert_weights_appends ts day (e ∷ es) t h =
      elim (Bool-cases (any (same_key (row_for ts day e)) t)) [
        | inl taken ↦ absurd (ground arith)
        | inr free ↦
            let passed : (insert_weights ts day es (t ++ row_for ts day e ∷ [])).1 ≡ true =
              ground arith in
            rw free (
              insert_weights_appends ts day es (t ++ row_for ts day e ∷ []) passed
              ∙ append_assoc t (row_for ts day e ∷ []) (map (row_for ts day) es))
      ]

  -- No row of the table is of a later day.
  abbrev pub UpTo : Text → List (WeightRow W) → Type 0
  UpTo day = All (λ (r : WeightRow W). text_lt day r.as_of_date ≡ false)

  newest_of_new :
      (ts day : Text) (e : Text × W) (es : List (Text × W))
      → newest_date (map (row_for ts day) (e ∷ es)) ≡ some day
  unfolding newest_date
  newest_of_new ts day e [] = refl
  newest_of_new ts day e (x ∷ es) = ground (arith, newest_of_new ts day x es)

  newest_after :
      (day : Text) (t rows : List (WeightRow W))
      → UpTo day t
      → newest_date rows ≡ some day
      → newest_date (t ++ rows) ≡ some day
  unfolding newest_date
  newest_after day [] rows h n = n
  newest_after day (r ∷ t) rows (h, hs) n = ground (arith, newest_after day t rows hs n)

  UpTo-keep : (day : Text) (t : List (WeightRow W)) → UpTo day t → UpTo day (keep (other_day day) t)
  UpTo-keep day [] h = tt
  UpTo-keep day (r ∷ t) (h, hs) = elim (Bool-cases (text_eq r.as_of_date day)) [
    | inl e ↦ rw e (UpTo-keep day t hs)
    | inr e ↦ rw e (h, UpTo-keep day t hs)
  ]

  of_day-upsert :
      (ts day : Text) (es : List (Text × W)) (t : List (WeightRow W))
      → keep
          (λ (r : WeightRow W). text_eq r.as_of_date day)
          (keep (other_day day) t ++ map (row_for ts day) es)
        ≡ map (row_for ts day) es
  of_day-upsert ts day [] [] = refl
  of_day-upsert ts day (e ∷ es) [] =
      rw (text_eq_refl day) (ap (λ xs. row_for ts day e ∷ xs) (of_day-upsert ts day es []))
  of_day-upsert ts day es (r ∷ t) = elim (Bool-cases (text_eq r.as_of_date day)) [
    | inl e ↦ rw e (of_day-upsert ts day es t)
    | inr e ↦ rw e (rw e (of_day-upsert ts day es t))
  ]

  pairs_of_rows :
      (ts day : Text) (es : List (Text × W))
      → map {B = Text × W} (λ (x : WeightRow W). (x.symbol, x.score)) (map (row_for ts day) es)
        ≡ map {B = Text × W} (λ (e : Text × W). (upper e.0, e.1)) es
  pairs_of_rows ts day [] = refl
  pairs_of_rows ts day (e ∷ es) = ap (λ xs. (upper e.0, e.1) ∷ xs) (pairs_of_rows ts day es)

  abbrev targets : Text → Text → List (Text × W) → Targets W
  targets day ts es = record { as_of = day; stamp = ts; scores = es }

  latest_of :
      (day : Text) (t rows : List (WeightRow W)) (r : WeightRow W)
      → newest_date t ≡ some day
      → keep (λ (x : WeightRow W). text_eq x.as_of_date day) t ≡ r ∷ rows
      → latest_target_weights t
        ≡ some (
            targets day r.ingested_at
              ((r.symbol, r.score) ∷ map (λ (x : WeightRow W). (x.symbol, x.score)) rows))
  unfolding latest_target_weights
  latest_of day t rows r n k =
      rw (n, latest_target_weights)
        (rw (k, latest_target_weights)
          (ap
            (λ xs.
              some (targets day r.ingested_at (map (λ (x : WeightRow W). (x.symbol, x.score)) xs)))
            k))

  -- Weights that are stored for a day are read back, with that day, its stamp and their symbols in
  -- upper case, where there is at least one, no later day is stored and no symbol comes twice, so
  -- that all the rows were inserted.
  pub latest-upsert :
      (ts day : Text) (e : Text × W) (es : List (Text × W)) (t : List (WeightRow W))
      → UpTo day t
      → (upsert_target_weights ts day (e ∷ es) t).1 ≡ true
      → latest_target_weights (upsert_target_weights ts day (e ∷ es) t).0
        ≡ some (record {
          as_of = day;
          stamp = ts;
          scores = map (λ (x : Text × W). (upper x.0, x.1)) (e ∷ es);
        })
  unfolding upsert_target_weights
  latest-upsert ts day e es t up h =
      let kept = keep (other_day day) t in
      let rows = insert_weights_appends ts day (e ∷ es) kept h in
      let day_eq =
        newest_after day kept (map (row_for ts day) (e ∷ es)) (UpTo-keep day t up)
          (newest_of_new ts day e es) in
      rw rows (
        latest_of day (kept ++ map (row_for ts day) (e ∷ es)) (map (row_for ts day) es)
          (row_for ts day e) day_eq (of_day-upsert ts day (e ∷ es) t)
        ∙ ap (λ xs. some (targets day ts ((upper e.0, e.1) ∷ xs))) (pairs_of_rows ts day es))
