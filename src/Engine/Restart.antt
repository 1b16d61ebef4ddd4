-- ===== src/Engine/Restart.antt =====
-- autotrader/main.py, `TradeEngine._defer_entry` and `_restore_deferred_entries`: a deferred entry across a
-- restart of the process.
use autotrader_ai.Prelude.{
  ◌≡◌, refl, sym, ap, ◌∙◌, inl, inr, Bool, false, not, Option, none, some, List, [], ◌∷◌, ◌++◌,
  arith, if◌then◌else◌, Bool-cases, is_some, keep,
}
use autotrader_ai.Prelude.Text.{
  Text, text, text_eq, upper, strip_prefix, text_eq_refl, eq_of_text_eq,
}
use autotrader_ai.Float.{Float, fixed_float}
use autotrader_ai.Domain.{Signal, check_signal}
use autotrader_ai.Db.Tables.{Tables}
use autotrader_ai.Engine.World.{
  Fault, raise, ok, State, Action, ◌>>=◌, pure, gets, with_db, from_result,
}
use autotrader_ai.Engine.Binds.{bind_ok}
use autotrader_ai.Engine.Setup.{Setup}
use autotrader_ai.Rebalance.{sort_keys, insert_sorted}
use autotrader_ai.Db.Tables.{set_state}
use autotrader_ai.Db.Listing.{list_state}
use autotrader_ai.Signals.Json.{obj}
use autotrader_ai.Engine.Entry.{entry_fields, signal_of, signal_of-entry_fields, entry_day}
use autotrader_ai.Engine.Deferral.{
  deferred_key, set_deferred, today_text, defer_entry, restored_signal, restore_entry,
  restore_entries, restore_deferred_entries,
}

keep-append :
    {A : Type 0} (p : A → Bool) (xs ys : List A) → keep p (xs ++ ys) ≡ keep p xs ++ keep p ys
keep-append p [] ys = refl
keep-append p (x ∷ xs) ys = ground (arith, keep-append p xs ys)

keep-keep_none :
    {A : Type 0} (p q : A → Bool) (xs : List A) → keep p xs ≡ [] → keep p (keep q xs) ≡ []
keep-keep_none p q [] h = refl
keep-keep_none p q (x ∷ xs) h = ground (arith, keep-keep_none p q xs)

module _ {V : Type 0} where
  insert_sorted_some : (e : Text × V) (d : List (Text × V)) → insert_sorted e d ≡ [] → ⊥
  unfolding insert_sorted
  insert_sorted_some e [] h = ground arith
  insert_sorted_some e (x ∷ xs) h = ground arith

  sort_keys_none : (d : List (Text × V)) → sort_keys d ≡ [] → d ≡ []
  unfolding sort_keys
  sort_keys_none [] h = refl
  sort_keys_none (e ∷ d) h = absurd (insert_sorted_some e (sort_keys d) h)

module _ {W S : Type 0} ⦃f : Float W⦄ (c : Setup W S) where
  -- The only row under the prefix after an entry is deferred to a table without one.
  list-set :
      (signal : Signal W) (raw : Text) (t : Tables W)
      → list_state (text "deferred:") t ≡ []
      → list_state (text "deferred:") (set_state (deferred_key signal) raw t)
        ≡ (deferred_key signal, raw) ∷ []
  unfolding list_state set_state deferred_key upper strip_prefix sort_keys insert_sorted
  list-set signal raw t h =
      let under : Text × Text → Bool =
        λ e. is_some (strip_prefix (upper (text "deferred:")) (upper e.0)) in
      let q : Text × Text → Bool = λ e. not (text_eq e.0 (deferred_key signal)) in
      let none_left = keep-keep_none under q t.engine_state (sort_keys_none _ h) in
      let row : Text × Text = (deferred_key signal, raw) in
      ap sort_keys
        (keep-append under (keep q t.engine_state) (row ∷ []) ∙ ap (λ l. l ++ row ∷ []) none_left)

  restored :
      (today : Text) (s : Signal W) (st : State W S)
      → s.overlay ≡ none
      → check_signal s ≡ none
      → restored_signal c (entry_fields today s) st ≡ (ok s, st)
  unfolding restored_signal from_result pure
  restored today s st plain valid =
      let checked : Signal W → Action W S (Signal W) =
        λ s. elim (check_signal s) [ none ↦ pure s | some _ ↦ raise Fault.bad_value ] in
      bind_ok (from_result (signal_of (entry_fields today s))) checked st s st
        (ap (λ r. (r, st)) (signal_of-entry_fields today s plain))
      ∙ (rw valid refl)

  -- What becomes of a signal that is restored.
  abbrev queue : Text → Signal W → Action W S (Unit {0})
  queue today s = gets (λ st. st.deferred) >>= λ entries. set_deferred (entries ++ (today, s) ∷ [])

  restore_same_day :
      (today key raw : Text) (s : Signal W) (st : State W S)
      → c.world.loads raw ≡ some (obj (entry_fields today s))
      → s.overlay ≡ none
      → check_signal s ≡ none
      → restore_entry c today (key, raw) st
        ≡ (ok tt, record st { deferred = st.deferred ++ (today, s) ∷ [] })
  unfolding ◌>>=◌ gets set_deferred restore_entry
  restore_same_day today key raw s st load plain valid =
      rw (load, restore_entry)
        (rw (entry_day today today s) (
          rw (text_eq_refl today) (
            bind_ok (restored_signal c (entry_fields today s)) (queue today) st s st
              (restored today s st plain valid))))

  restore_other_day :
      (today day key raw : Text) (s : Signal W) (st : State W S)
      → c.world.loads raw ≡ some (obj (entry_fields day s))
      → text_eq day today ≡ false
      → (restore_entry c today (key, raw) st).0 ≡ ok tt
        × ((restore_entry c today (key, raw) st).1.deferred ≡ st.deferred)
  unfolding with_db restore_entry
  restore_other_day today day key raw s st load other =
      rw (load, restore_entry) (rw (entry_day today day s) (rw other (refl, refl)))

  -- The table with one deferred row, read on some day.
  restore_one :
      (today day key raw : Text) (s : Signal W) (st : State W S)
      → c.world.loads raw ≡ some (obj (entry_fields day s))
      → s.overlay ≡ none
      → check_signal s ≡ none
      → let r = restore_entries c today ((key, raw) ∷ []) st in
        (r.0 ≡ ok tt)
        × (r.1.deferred ≡ (if text_eq day today then st.deferred ++ (day, s) ∷ [] else st.deferred))
  unfolding restore_entries pure
  restore_one today day key raw s st load plain valid = elim (Bool-cases (text_eq day today)) [
    | inl same ↦
        let e : today ≡ day = sym (eq_of_text_eq day today same) in
        let load' : c.world.loads raw ≡ some (obj (entry_fields today s)) = rw e load in
        let step = restore_same_day today key raw s st load' plain valid in
        let run =
          bind_ok {B = Unit {0}} (restore_entry c today (key, raw)) (λ _. pure tt) st tt _ step in
        rw same (rw run (refl, ap (λ d. st.deferred ++ (d, s) ∷ []) e))
    | inr other ↦
        let step = restore_other_day today day key raw s st load other in
        let m = restore_entry c today (key, raw) in
        let whole : m st ≡ (ok tt, (m st).1) = ap (λ r. (r, (m st).1)) step.0 in
        let run = bind_ok {B = Unit {0}} m (λ _. pure tt) st tt _ whole in
        rw other (rw run (refl, step.1))
  ]

  -- A process that defers a valid entry without an overlay, and whose database held no other, loses
  -- nothing by a crash: the next process, on the same database and with whatever else in its state,
  -- queues that very entry, field by field, behind what it has when it starts on the same date, and
  -- queues nothing when it starts on another date. It is assumed that the JSON library reads back the
  -- object that the program gave it to write.
  pub deferred_survives_restart :
      (signal : Signal W) (st next : State W S) (t : Tables W)
      → st.db ≡ some t
      → list_state (text "deferred:") t ≡ []
      → signal.overlay ≡ none
      → check_signal signal ≡ none
      → c.world.loads (c.world.dumps (obj (entry_fields (today_text c st) signal)))
        ≡ some (obj (entry_fields (today_text c st) signal))
      → next.db ≡ (defer_entry c signal st).1.db
      → let r = restore_deferred_entries c next in
        (r.0 ≡ ok tt)
        × (r.1.deferred ≡ (
            if text_eq (today_text c st) (today_text c next)
            then next.deferred ++ (today_text c st, signal) ∷ []
            else next.deferred))
  unfolding restore_deferred_entries defer_entry ◌>>=◌ gets set_deferred with_db
  deferred_survives_restart signal st next t stored alone plain valid json kept =
      let day = today_text c st in
      let today = today_text c next in
      let raw = c.world.dumps (obj (entry_fields day signal)) in
      let t' = set_state (deferred_key signal) raw t in
      let written : Option (Tables W) → Option (Tables W) =
        λ db. elim db [ none ↦ none | some x ↦ some (set_state (deferred_key signal) raw x) ] in
      let after : next.db ≡ some t' = kept ∙ ap written stored in
      let rows = list-set signal raw t alone in
      let started : Option (Tables W) → Action W S (Unit {0}) = λ db. elim db [
        | none ↦ pure tt
        | some x ↦ restore_entries c today (list_state (text "deferred:") x)
      ] in
      let run : restore_deferred_entries c next
          ≡ restore_entries c today ((deferred_key signal, raw) ∷ []) next =
        ap (λ db. started db next) after ∙ ap (λ l. restore_entries c today l next) rows in
      let one = restore_one today day (deferred_key signal) raw signal next json plain valid in
      rw run one
