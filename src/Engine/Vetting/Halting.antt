-- ===== src/Engine/Vetting/Halting.antt =====
-- autotrader/main.py: the flattening of the account and the halt of the session leave a sound log.
use autotrader_ai.Prelude.{◌≡◌, refl, inl, inr, true, List, [], ◌∷◌, arith, Option-cases}
use autotrader_ai.Prelude.Text.{Text}
use autotrader_ai.Float.{Float, fixed_float}
use autotrader_ai.Domain.{AccountSnapshot, Position}
use autotrader_ai.Config.{RiskConfig}
use autotrader_ai.Risk.Core.{RiskAction}
use autotrader_ai.Session.Gate.{open_gate, close_gate, halt_gate}
use autotrader_ai.Engine.World.{Result, ok, State, Action, pure, ask, swallow}
use autotrader_ai.Engine.Audit.{IsAudited}
use autotrader_ai.Engine.Vetting.Vetted.{Known, sound, Holds, EndsIn, IsVetted, has_halted}
use autotrader_ai.Engine.Vetting.Keeps.{Keeps, Keeps-Quiet, Keeps-with_db}
use autotrader_ai.Engine.Vetting.Steady.{get_quote-Keeps}
use autotrader_ai.Engine.Setup.{Setup, gate_halted}
use autotrader_ai.Engine.Vetting.Leaves.{
  Leaves, leaves_rules, Leaves-pure, Leaves-bind, Leaves-then, Leaves-read, Leaves-any,
  Leaves-Keeps,
}
use autotrader_ai.Engine.Rebalancing.{flatten_position, flatten_all}
use autotrader_ai.Engine.LossCheck.{
  close_entries, open_entries, halt_session, liquidate, apply_risk_check,
}
use autotrader_ai.Engine.Vetting.Liquidation.{submit_rebalance_order-Leaves}

module _ {W S : Type 0} ⦃f : Float W⦄ {cfg : RiskConfig W} where
  -- A call of the gate that does not lift a halt.
  gate_call-Keeps :
      (m : Action W S (Unit {0}))
      → ((st : State W S) → (m st).1.log ≡ st.log)
      → ((st : State W S) → gate_halted st.gate ≡ true → gate_halted (m st).1.gate ≡ true)
      → ((st : State W S) → (m st).0 ≡ ok tt)
      → Keeps cfg sound m
  unfolding EndsIn Holds
  gate_call-Keeps m same halts fine = record {
    runs = record {
      at = λ st h. rw (fine st) (
          rw (same st)
            (record { audited = h.audited; vetted = h.vetted; gated = λ t. halts st (h.gated t) }));
    };
  }

  pub close_entries-Keeps : Keeps {S = S} cfg sound close_entries
  unfolding close_entries close_gate
  close_entries-Keeps =
      gate_call-Keeps close_entries (λ st. ground arith) (λ st h. ground arith) (λ st. ground arith)

  pub open_entries-Keeps : Keeps {S = S} cfg sound open_entries
  unfolding open_entries open_gate
  open_entries-Keeps =
      gate_call-Keeps open_entries (λ st. ground arith) (λ st h. ground arith) (λ st. ground arith)

  -- The line of a halt comes with a halted gate.
  halt_session-Keeps : Keeps {S = S} cfg sound halt_session
  unfolding halt_session halt_gate EndsIn Holds IsAudited IsVetted has_halted
  halt_session-Keeps = record {
    runs = record {
      at = λ st h. elim (Option-cases st.gate) [
        | inl e ↦ rw (e, halt_session) h
        | inr e ↦
            rw (e.1, halt_session)
              (record { audited = h.audited; vetted = h.vetted; gated = λ _. refl })
      ];
    };
  }

module _ {W S : Type 0} ⦃f : Float W⦄ (c : Setup W S) where
  flatten_position-Leaves :
      (id : Text) (p : Position W) → Leaves c.cfg sound (flatten_position c id p)
  unfolding flatten_position
  flatten_position-Leaves id p =
      search (leaves_rules, get_quote-Keeps, Leaves-then, submit_rebalance_order-Leaves)

  flatten_all-Leaves :
      (id : Text) (ps : List (Position W)) → Leaves c.cfg sound (flatten_all c id ps)
  unfolding flatten_all
  flatten_all-Leaves id [] = Leaves-pure tt
  flatten_all-Leaves id (p ∷ ps) =
      Leaves-then _ _ (flatten_position-Leaves id p) (λ _. flatten_all-Leaves id ps)

  swallow-Keeps : {k : Known W} (g : S → Result (Unit {0}) × S) → Keeps c.cfg k (swallow (ask g))
  unfolding swallow ask
  swallow-Keeps g = Keeps-Quiet (record { still = λ st. (refl, refl) })

  liquidate-Leaves :
      (day : Text) (snap : AccountSnapshot W) → Leaves c.cfg sound (liquidate c day snap)
  unfolding liquidate
  liquidate-Leaves day snap = Leaves-then _ _ (flatten_all-Leaves _ snap.positions) (λ _.
      Leaves-bind _ _ (swallow-Keeps _)
        (λ _. Leaves-bind _ _ halt_session-Keeps (λ _. Leaves-Keeps _ (Keeps-with_db _))))

  act_on_loss :
      (day : Text) (snap : AccountSnapshot W) (action : RiskAction)
      → Leaves {S = S} c.cfg sound (elim action [
        | RiskAction.ok ↦ pure tt
        | RiskAction.gate ↦ close_entries
        | RiskAction.halt ↦ liquidate c day snap
      ])
  act_on_loss day snap RiskAction.ok = Leaves-pure tt
  act_on_loss day snap RiskAction.gate = Leaves-Keeps _ close_entries-Keeps
  act_on_loss day snap RiskAction.halt = liquidate-Leaves day snap

  pub apply_risk_check-Leaves : (day : Text) → Leaves c.cfg sound (apply_risk_check c day)
  unfolding apply_risk_check
  apply_risk_check-Leaves day =
      Leaves-read c _
        (λ snap. Leaves-then _ _ (Leaves-any _ (act_on_loss day snap _)) (λ _. Leaves-pure _))
