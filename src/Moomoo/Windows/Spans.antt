-- ===== src/Moomoo/Windows/Spans.antt =====
-- autotrader/moomoo_broker.py: what the windows of `_chain_windows` are.
use mathlib.Core.Path.{subst}
use autotrader_ai.Prelude.{
  ◌≡◌, ℕ, ◌+◌, ◌≤◌, Bool, true, ◌&&◌, refl, sym, ◌==◌, inl, inr, List, [], ◌∷◌, arith, leb,
  Bool-cases, keep, any, All, All-mono,
}
use autotrader_ai.Prelude.Int.{ℤ, pos, sub_ℕ, leb_ℤ}
use autotrader_ai.Moomoo.Windows.{
  insert_day, sort_days, in_dte, group_days, windows_of, chain_windows,
}

-- Days in ascending order, from a day on.
abbrev Rising : ℕ → List ℕ → Type 0
Rising a [] = Unit
Rising a (e ∷ es) = (a ≤ e) × Rising e es

insert_day-Rising : (a d : ℕ) (es : List ℕ) → a ≤ d → Rising a es → Rising a (insert_day d es)
unfolding insert_day
insert_day-Rising a d [] h r = (h, tt)
insert_day-Rising a d (e ∷ es) h (p, r) = elim (Bool-cases (leb d e)) [
  | inl t ↦ rw t (h, (ground arith, r))
  | inr t ↦ rw t (p, insert_day-Rising e d es (ground arith) r)
]

sort_days-Rising : (ds : List ℕ) → Rising 0 (sort_days ds)
unfolding sort_days
sort_days-Rising [] = tt
sort_days-Rising (d ∷ ds) = insert_day-Rising 0 d (sort_days ds) (omega arith) (sort_days-Rising ds)

insert_day-All : (P : ℕ → Type 0) (d : ℕ) (es : List ℕ) → P d → All P es → All P (insert_day d es)
unfolding insert_day
insert_day-All P d [] p h = (p, tt)
insert_day-All P d (e ∷ es) p (q, h) = elim (Bool-cases (leb d e)) [
  | inl t ↦ rw t (p, (q, h))
  | inr t ↦ rw t (q, insert_day-All P d es p h)
]

sort_days-All : (P : ℕ → Type 0) (ds : List ℕ) → All P ds → All P (sort_days ds)
unfolding sort_days
sort_days-All P [] h = tt
sort_days-All P (d ∷ ds) (p, h) = insert_day-All P d (sort_days ds) p (sort_days-All P ds h)

-- A day in one of the windows.
abbrev pub in_window : ℕ → ℕ × ℕ → Bool
in_window d w = leb w.0 d && leb d w.1

-- The windows lie in ascending order from a day on, and no day lies in two of them.
abbrev pub Apart : ℕ → List (ℕ × ℕ) → Type 0
Apart d [] = Unit
Apart d (w ∷ ws) = (d ≤ w.0) × Apart (w.1 + 1) ws

-- What is wanted of a window.
abbrev pub IsWindow : (P : ℕ → Type 0) → ℕ → ℕ × ℕ → Type 0
IsWindow P span w = (w.0 ≤ w.1) × (w.1 ≤ w.0 + span) × P w.0 × P w.1

group_days-All :
    (P : ℕ → Type 0) (span start last : ℕ) (es : List ℕ)
    → IsWindow P span (start, last)
    → Rising last es
    → All P es
    → All (IsWindow P span) (group_days span start last es)
unfolding group_days
group_days-All P span start last [] w r h = (w, tt)
group_days-All P span start last (e ∷ es) w (le, r) (p, h) =
    elim (Bool-cases (leb_ℤ (sub_ℕ e start) (pos span))) [
      | inl t ↦
          rw (t, group_days)
            (group_days-All P span start e es (omega arith, ground arith, w.2, p) r h)
      | inr t ↦
          rw (t, group_days) (w, group_days-All P span e e es (omega arith, omega arith, p, p) r h)
    ]

group_days-Apart :
    (d span start last : ℕ) (es : List ℕ)
    → d ≤ start
    → start ≤ last
    → last ≤ start + span
    → Rising last es
    → Apart d (group_days span start last es)
unfolding group_days
group_days-Apart d span start last [] h k w r = (h, tt)
group_days-Apart d span start last (e ∷ es) h k w (le, r) =
    elim (Bool-cases (leb_ℤ (sub_ℕ e start) (pos span))) [
      | inl t ↦
          rw (t, group_days) (group_days-Apart d span start e es h (omega arith) (ground arith) r)
      | inr t ↦
          rw (t, group_days)
            (
              h,
              group_days-Apart (last + 1) span e e es (ground arith) (omega arith) (omega arith) r,
            )
    ]

abbrev pub Covered : ℕ → List (ℕ × ℕ) → Type 0
Covered d ws = any (in_window d) ws ≡ true

group_days-first :
    (d span start last : ℕ) (es : List ℕ)
    → start ≤ d
    → d ≤ last
    → Rising last es
    → Covered d (group_days span start last es)
unfolding group_days
group_days-first d span start last [] h k r = ground arith
group_days-first d span start last (e ∷ es) h k (le, r) =
    elim (Bool-cases (leb_ℤ (sub_ℕ e start) (pos span))) [
      | inl t ↦ rw (t, group_days) (group_days-first d span start e es h (omega arith) r)
      | inr t ↦ rw (t, group_days) (ground arith)
    ]

group_days-Covered :
    (span start last : ℕ) (es : List ℕ)
    → start ≤ last
    → Rising last es
    → All (λ d. Covered d (group_days span start last es)) es
unfolding group_days
group_days-Covered span start last [] k r = tt
group_days-Covered span start last (e ∷ es) k (le, r) =
    elim (Bool-cases (leb_ℤ (sub_ℕ e start) (pos span))) [
      | inl t ↦
          let same : group_days span start last (e ∷ es) ≡ group_days span start e es =
            rw (t, group_days) refl in
          subst (λ ws. All (λ d. Covered d ws) (e ∷ es)) (sym same)
            (
              group_days-first e span start e es (omega arith) (omega arith) r,
              group_days-Covered span start e es (omega arith) r,
            )
      | inr t ↦
          let here : Covered e (group_days span e e es) =
            group_days-first e span e e es (omega arith) (omega arith) r in
          let later = group_days-Covered span e e es (omega arith) r in
          let skip : (d : ℕ)
              → Covered d (group_days span e e es)
              → Covered d ((start, last) ∷ group_days span e e es) =
            λ d c. ground arith in
          let next : group_days span start last (e ∷ es) ≡ (start, last) ∷ group_days span e e es =
            rw (t, group_days) refl in
          subst (λ ws. All (λ d. Covered d ws) (e ∷ es)) (sym next)
            (skip e here, All-mono _ _ es skip later)
    ]

All-insert_day : (P : ℕ → Type 0) (d : ℕ) (es : List ℕ) → All P (insert_day d es) → P d × All P es
unfolding insert_day
All-insert_day P d [] h = h
All-insert_day P d (e ∷ es) h = elim (Bool-cases (leb d e)) [
  | inl t ↦
      let same : insert_day d (e ∷ es) ≡ d ∷ e ∷ es = rw (t, insert_day) refl in
      subst (All P) same h
  | inr t ↦
      let next : insert_day d (e ∷ es) ≡ e ∷ insert_day d es = rw (t, insert_day) refl in
      let h' = subst (All P) next h in let (p, q) = All-insert_day P d es h'.1 in (p, (h'.0, q))
]

All-sort_days : (P : ℕ → Type 0) (ds : List ℕ) → All P (sort_days ds) → All P ds
unfolding sort_days
All-sort_days P [] h = tt
All-sort_days P (d ∷ ds) h =
    let (p, q) = All-insert_day P d (sort_days ds) h in (p, All-sort_days P ds q)

-- What holds of all entries that pass the test.
keep-All :
    (P Q : ℕ → Type 0) (p : ℕ → Bool) (ds : List ℕ)
    → All P ds
    → ((d : ℕ) → P d → p d ≡ true → Q d)
    → All Q (keep p ds)
keep-All P Q p [] h g = tt
keep-All P Q p (d ∷ ds) (h, hs) g = elim (Bool-cases (p d)) [
  | inl t ↦ rw t (g d h t, keep-All P Q p ds hs g)
  | inr t ↦ rw t (keep-All P Q p ds hs g)
]

All-kept :
    (Q : ℕ → Type 0) (p : ℕ → Bool) (ds : List ℕ)
    → All Q (keep p ds)
    → All (λ d. p d ≡ true → Q d) ds
All-kept Q p [] h = tt
All-kept Q p (d ∷ ds) h = elim (Bool-cases (p d)) [
  | inl t ↦
      let same : keep p (d ∷ ds) ≡ d ∷ keep p ds = rw t refl in
      let h' = subst (All Q) same h in (λ _. h'.0, All-kept Q p ds h'.1)
  | inr t ↦
      let same : keep p (d ∷ ds) ≡ keep p ds = rw t refl in
      (λ e. absurd (ground arith), All-kept Q p ds (subst (All Q) same h))
]

abbrev pub Listed : List ℕ → ℕ → Type 0
Listed ds d = any (λ e. e == d) ds ≡ true

All-Listed : (ds : List ℕ) → All (Listed ds) ds
All-Listed [] = tt
All-Listed (d ∷ ds) =
    (ground arith, All-mono (Listed ds) (Listed (d ∷ ds)) ds (λ e h. ground arith) (All-Listed ds))

windows_of_lem :
    (P : ℕ → Type 0) (span : ℕ) (es : List ℕ)
    → Rising 0 es
    → All P es
    → All (IsWindow P span) (windows_of span es)
      × Apart 0 (windows_of span es)
      × All (λ d. Covered d (windows_of span es)) es
unfolding windows_of
windows_of_lem P span [] r h = (tt, tt, tt)
windows_of_lem P span (e ∷ es) (k, r) (p, h) = (
  group_days-All P span e e es (omega arith, omega arith, p, p) r h,
  group_days-Apart 0 span e e es k (omega arith) (omega arith) r,
  (
    group_days-first e span e e es (omega arith) (omega arith) r,
    group_days-Covered span e e es (omega arith) r,
  ),
)

-- Whatever the expiries are and in whatever order they come, the windows that the chain is asked for
-- span at most the days that one call may, each begins and ends at a listed expiry within the wanted
-- days, they ascend and no day lies in two of them, and every listed expiry within the wanted days
-- lies in one.
pub chain_windows_lem :
    (expiries : List ℕ) (today : ℕ) (dte_min dte_max : ℤ) (max_span : ℕ)
    → let ws = chain_windows expiries today dte_min dte_max max_span in
      let wanted = in_dte today dte_min dte_max in
      All (IsWindow (λ d. Listed expiries d × (wanted d ≡ true)) max_span) ws
      × Apart 0 ws
      × All (λ d. wanted d ≡ true → Covered d ws) expiries
unfolding chain_windows
chain_windows_lem expiries today dte_min dte_max max_span =
    let wanted = in_dte today dte_min dte_max in
    let P : ℕ → Type 0 = λ d. Listed expiries d × (wanted d ≡ true) in
    let kept : All P (keep wanted expiries) =
      keep-All (Listed expiries) P wanted expiries (All-Listed expiries) (λ d h t. (h, t)) in
    let es = sort_days (keep wanted expiries) in
    let (fit, apart, covered) =
      windows_of_lem P max_span es (sort_days-Rising (keep wanted expiries))
        (sort_days-All P _ kept) in
    (fit, apart, All-kept _ wanted expiries (All-sort_days _ _ covered))
