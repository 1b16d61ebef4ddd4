-- ===== src/Engine/LossCheck.antt =====
-- autotrader/main.py, `TradeEngine.apply_risk_check` and `shutdown`: the loss check of the day, its two
-- tiers, and the halt of the session.
use autotrader_ai.Prelude.{none, some, ◌∷◌, ◌++◌}
use autotrader_ai.Prelude.Text.{Text, text}
use autotrader_ai.Float.{Float, fixed_float}
use autotrader_ai.Engine.World.{ok, halting, Action, ◌>>=◌, ◌>>◌, pure, ask, with_db, swallow}
use autotrader_ai.Domain.{AccountSnapshot}
use autotrader_ai.Risk.Core.{RiskAction, risk_check}
use autotrader_ai.Session.Gate.{open_gate, close_gate, halt_gate}
use autotrader_ai.Db.Tables.{record_halt}
use autotrader_ai.Engine.Setup.{Setup, read_account}
use autotrader_ai.Engine.Rebalancing.{flatten_all}

module _ {W S : Type 0} where
  -- `if self._gate is not None: self._gate.close()`
  unfoldable pub close_entries : Action W S (Unit {0})
  close_entries st = elim st.gate [
    | none ↦ (ok tt, st)
    | some g ↦ (ok tt, record st { gate = some (close_gate g) })
  ]

  unfoldable pub open_entries : Action W S (Unit {0})
  open_entries st = elim st.gate [
    | none ↦ (ok tt, st)
    | some g ↦ (ok tt, record st { gate = some (open_gate g) })
  ]

  -- `if self._gate is not None: self._gate.halt()`
  unfoldable pub halt_session : Action W S (Unit {0})
  halt_session st = elim st.gate [
    | none ↦ (ok tt, st)
    | some g ↦ (ok tt, record st { gate = some (halt_gate g); log = halting ∷ st.log })
  ]

module _ {W S : Type 0} ⦃f : Float W⦄ (c : Setup W S) where
  -- The hard tier: the SELLs come before the flag that would block them. The reason of the row is
  -- without the figure.
  unfoldable pub liquidate : Text → AccountSnapshot W → Action W S (Unit {0})
  liquidate day snap = do
    flatten_all c (text "halt-" ++ day) snap.positions
    swallow (ask c.world.cancel_all)
    halt_session
    with_db (λ t. (record_halt (text "daily loss halt") t).0)

  -- `day` is the date of the caller's clock
  unfoldable pub apply_risk_check : Text → Action W S RiskAction
  apply_risk_check day = do
    snap ← read_account c
    let action = risk_check snap c.cfg
    (elim action [
      | RiskAction.ok ↦ pure tt
      | RiskAction.gate ↦ close_entries
      | RiskAction.halt ↦ liquidate day snap
    ])
    pure action

  unfoldable pub shutdown : Action W S (Unit {0})
  shutdown = ask c.world.cancel_all
