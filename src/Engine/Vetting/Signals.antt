-- ===== src/Engine/Vetting/Signals.antt =====
-- autotrader/main.py: external signals and deferred entries leave a sound log.
use autotrader_ai.Prelude.{refl, List, [], ◌∷◌}
use autotrader_ai.Prelude.Text.{Text, text_eq}
use autotrader_ai.Float.{Float, fixed_float}
use autotrader_ai.Domain.{Signal, check_signal}
use autotrader_ai.Config.{RiskConfig}
use autotrader_ai.Engine.World.{Fault}
use autotrader_ai.Engine.Vetting.Vetted.{Known, sound}
use autotrader_ai.Engine.Vetting.Keeps.{
  Keeps, keeps_rules, Keeps-Quiet, Keeps-pure, Keeps-bind, Keeps-elim, Keeps-gets, Keeps-with_db,
  Keeps-raise, Keeps-from_result,
}
use autotrader_ai.Engine.Vetting.Steady.{get_quote-Keeps}
use autotrader_ai.Engine.Setup.{TickAction, no_quote, entry_closed, Setup}
use autotrader_ai.Engine.Vetting.Leaves.{
  Leaves, leaves_rules, Leaves-pure, Leaves-bind, Leaves-then, Leaves-if, Leaves-elim, Leaves-read,
}
use autotrader_ai.Signals.Json.{Fields}
use autotrader_ai.Engine.Entry.{object_fields, signal_of}
use autotrader_ai.Engine.Deferral.{
  set_deferred, clear_cache, defer_entry, defer_closed, route_external, submit_external_signal,
  replay_entries, flush_deferred_entries, restored_signal, restore_entry, restore_entries,
  restore_deferred_entries,
}
use autotrader_ai.Engine.Vetting.Window.{route_signal-Leaves}

module _ {W S : Type 0} ⦃f : Float W⦄ {cfg : RiskConfig W} {k : Known W} where
  set_deferred-Keeps : (es : List (Text × Signal W)) → Keeps {S = S} cfg k (set_deferred es)
  unfolding set_deferred
  set_deferred-Keeps es = Keeps-Quiet (record { still = λ st. (refl, refl) })

  pub clear_cache-Keeps : Keeps {S = S} cfg k clear_cache
  unfolding clear_cache
  clear_cache-Keeps = Keeps-Quiet (record { still = λ st. (refl, refl) })

module _ {W S : Type 0} ⦃f : Float W⦄ (c : Setup W S) where
  defer_entry-Keeps : {k : Known W} (signal : Signal W) → Keeps c.cfg k (defer_entry c signal)
  unfolding defer_entry
  defer_entry-Keeps signal = search (keeps_rules, set_deferred-Keeps)

  defer_closed-Leaves :
      {k : Known W} (signal : Signal W) (a : TickAction) → Leaves c.cfg k (defer_closed c signal a)
  unfolding defer_closed
  defer_closed-Leaves signal entry_closed = search (leaves_rules, defer_entry-Keeps)
  defer_closed-Leaves signal a = Leaves-pure a

  pub submit_external_signal-Leaves :
      {k : Known W} (signal : Signal W) → Leaves c.cfg k (submit_external_signal c signal)
  unfolding submit_external_signal route_external
  submit_external_signal-Leaves signal = Leaves-bind _ _ clear_cache-Keeps (λ _.
      Leaves-read c _ (λ snap. Leaves-bind _ _ (get_quote-Keeps c signal.symbol) (λ quote.
        Leaves-elim quote _ _ (Leaves-pure no_quote) (λ price.
          Leaves-then _ _ (route_signal-Leaves c signal snap price) (defer_closed-Leaves signal)))))

  replay_entries-Leaves :
      (today : Text) (es : List (Text × Signal W)) (results : List TickAction)
      → Leaves c.cfg sound (replay_entries c today es results)
  unfolding replay_entries
  replay_entries-Leaves today [] results = Leaves-pure results
  replay_entries-Leaves today (e ∷ es) results =
      Leaves-if (text_eq e.0 today) _ _
        (λ _.
          Leaves-then _ _ (submit_external_signal-Leaves e.1)
            (λ res. Leaves-bind _ _ (Keeps-with_db _) (λ _. replay_entries-Leaves today es _)))
        (λ _. Leaves-bind _ _ (Keeps-with_db _) (λ _. replay_entries-Leaves today es results))

  pub flush_deferred_entries-Leaves : Leaves c.cfg sound (flush_deferred_entries c)
  unfolding flush_deferred_entries
  flush_deferred_entries-Leaves =
      search (leaves_rules, Keeps-gets, set_deferred-Keeps, replay_entries-Leaves) depth 9

  restored_signal-Keeps : {k : Known W} (d : Fields W) → Keeps c.cfg k (restored_signal c d)
  unfolding restored_signal
  restored_signal-Keeps d =
      Keeps-bind _ _ (Keeps-from_result (signal_of d))
        (λ s. Keeps-elim (check_signal s) _ _ (Keeps-pure s) (λ _. Keeps-raise Fault.bad_value))

  restore_entry-Keeps :
      {k : Known W} (today : Text) (e : Text × Text) → Keeps c.cfg k (restore_entry c today e)
  unfolding restore_entry
  restore_entry-Keeps today (key, raw) = Keeps-elim (c.world.loads raw) _ _ (Keeps-with_db _) (λ j.
      Keeps-elim (object_fields j) _ _ (Keeps-raise Fault.bad_value)
        (λ d. search (keeps_rules, restored_signal-Keeps, set_deferred-Keeps)))

  restore_entries-Keeps :
      {k : Known W} (today : Text) (es : List (Text × Text))
      → Keeps c.cfg k (restore_entries c today es)
  unfolding restore_entries
  restore_entries-Keeps today [] = Keeps-pure tt
  restore_entries-Keeps today (e ∷ es) =
      Keeps-bind _ _ (restore_entry-Keeps today e) (λ _. restore_entries-Keeps today es)

  pub restore_deferred_entries-Keeps : {k : Known W} → Keeps c.cfg k (restore_deferred_entries c)
  unfolding restore_deferred_entries
  restore_deferred_entries-Keeps = Keeps-bind _ _ (Keeps-gets _) (λ db.
      Keeps-bind _ _ (Keeps-gets _)
        (λ today. Keeps-elim db _ _ (Keeps-pure tt) (λ t. restore_entries-Keeps today _)))
