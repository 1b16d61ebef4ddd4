-- ===== src/Engine/Deferral.antt =====
-- autotrader/main.py, the entries that `TradeEngine` defers while the entry window is closed, and
-- `submit_external_signal`, which defers them.
use autotrader_ai.Prelude.{
  Bool, false, not, ◌&&◌, none, some, List, [], ◌∷◌, ◌++◌, if◌then◌else◌, is_some, keep,
}
use autotrader_ai.Prelude.Text.{Text, text, text_eq}
use autotrader_ai.Float.{Float, fixed_float}
use autotrader_ai.Engine.World.{
  Fault, ok, State, Action, ◌>>=◌, ◌>>◌, pure, raise, gets, with_db, from_result,
}
use autotrader_ai.Domain.{check_signal, AccountSnapshot, Signal, side_eq}
use autotrader_ai.Session.Gate.{entries_enabled}
use autotrader_ai.Db.Listing.{list_state}
use autotrader_ai.Db.Tables.{delete_state, set_state}
use autotrader_ai.Engine.Setup.{
  TickAction, no_quote, entry_closed, entry_deferred, Setup, side_text, read_account, get_quote,
}
use autotrader_ai.Signals.Json.{obj, Fields, get_field}
use autotrader_ai.Engine.Entry.{object_fields, is_today, entry_fields, signal_of}
use autotrader_ai.Engine.Route.{route_signal}

-- `f"deferred:{symbol}:{direction}"`
unfoldable pub deferred_key : {W : Type 0} → Signal W → Text
deferred_key signal = text "deferred:" ++ signal.symbol ++ text ":" ++ side_text signal.direction

module _ {W : Type 0} where
  -- another symbol or direction than the signal's?
  abbrev pub other_entry : Signal W → Text × Signal W → Bool
  other_entry signal e =
      not (text_eq e.1.symbol signal.symbol && side_eq e.1.direction signal.direction)

module _ {W S : Type 0} where
  unfoldable pub set_deferred : List (Text × Signal W) → Action W S (Unit {0})
  set_deferred entries st = (ok tt, record st { deferred = entries })

  unfoldable pub clear_cache : Action W S (Unit {0})
  clear_cache st = (ok tt, record st { snap_cache = none })

module _ {W S : Type 0} ⦃f : Float W⦄ (c : Setup W S) where
  unfoldable pub today_text : State W S → Text
  today_text st = c.world.isoformat (c.world.today st.outside)

  unfoldable pub defer_entry : Signal W → Action W S (Unit {0})
  defer_entry signal = do
    deferred_on ← gets today_text
    entries ← gets (λ st. st.deferred)
    set_deferred (keep (other_entry signal) entries ++ (deferred_on, signal) ∷ [])
    with_db
        (set_state (deferred_key signal) (c.world.dumps (obj (entry_fields deferred_on signal))))

  -- An entry that found the window closed is deferred, unless it is an overlay.
  unfoldable pub defer_closed : Signal W → TickAction → Action W S TickAction
  defer_closed signal entry_closed =
      if is_some signal.overlay
      then pure entry_closed
      else defer_entry signal >> pure entry_deferred
  defer_closed signal other = pure other

  -- `submit_external_signal`, from the quote on
  unfoldable pub route_external : Signal W → AccountSnapshot W → W → Action W S TickAction
  route_external signal snap price = route_signal c signal snap price >>= defer_closed signal

  unfoldable pub submit_external_signal : Signal W → Action W S TickAction
  submit_external_signal signal = do
    clear_cache
    snap ← read_account c
    quote ← get_quote c signal.symbol
    elim quote [ none ↦ pure no_quote | some price ↦ route_external signal snap price ]

  -- The loop of `flush_deferred_entries`.
  unfoldable pub replay_entries :
      Text → List (Text × Signal W) → List TickAction → Action W S (List TickAction)
  replay_entries today [] results = pure results
  replay_entries today (e ∷ es) results =
      if text_eq e.0 today
      then (do
        res ← submit_external_signal e.1
        with_db (delete_state (deferred_key e.1))
        replay_entries today es (results ++ res ∷ []))
      else (do with_db (delete_state (deferred_key e.1)); replay_entries today es results)

  unfoldable pub flush_deferred_entries : Action W S (List TickAction)
  flush_deferred_entries = do
    gate ← gets (λ st. st.gate)
    if elim gate [ none ↦ false | some g ↦ entries_enabled g ]
        then (do
          pending ← gets (λ st. st.deferred)
          set_deferred []
          today ← gets today_text
          replay_entries today pending [])
        else pure []

  -- `Signal(...)`, from the fields of the row, whose constructor may raise
  unfoldable pub restored_signal : Fields W → Action W S (Signal W)
  restored_signal d = do
    s ← from_result (signal_of d)
    elim (check_signal s) [ none ↦ pure s | some _ ↦ raise Fault.bad_value ]

  -- The body of the loop of `_restore_deferred_entries`.
  unfoldable pub restore_entry : Text → Text × Text → Action W S (Unit {0})
  restore_entry today (key, raw) = elim (c.world.loads raw) [
    | none ↦ with_db (delete_state key)
    | some j ↦ elim (object_fields j) [
      | none ↦ raise Fault.bad_value
      | some d ↦
          if is_today today (get_field (text "deferred_on") d)
          then (do
            s ← restored_signal d
            entries ← gets (λ st. st.deferred)
            set_deferred (entries ++ (today, s) ∷ []))
          else with_db (delete_state key)
    ]
  ]

  unfoldable pub restore_entries : Text → List (Text × Text) → Action W S (Unit {0})
  restore_entries today [] = pure tt
  restore_entries today (e ∷ es) = restore_entry today e >> restore_entries today es

  unfoldable pub restore_deferred_entries : Action W S (Unit {0})
  restore_deferred_entries = do
    db ← gets (λ st. st.db)
    today ← gets today_text
    elim db [ none ↦ pure tt | some t ↦ restore_entries today (list_state (text "deferred:") t) ]
