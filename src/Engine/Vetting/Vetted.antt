-- ===== src/Engine/Vetting/Vetted.antt =====
-- What the log of an engine shows when it only places orders that its gate passed, and the rules by
-- which the engine's methods, autotrader/main.py, keep it so.
use autotrader_ai.Prelude.{◌≡◌, Bool, true, false, ◌&&◌, Option, none, some, List, [], ◌∷◌}
use autotrader_ai.Float.{Float, fixed_float}
use autotrader_ai.Domain.{OrderRequest, AccountSnapshot, is_opening}
use autotrader_ai.Config.{RiskConfig}
use autotrader_ai.Risk.Core.{evaluate, is_buy}
use autotrader_ai.Session.Gate.{EntryGate}
use autotrader_ai.Engine.World.{
  Result, ok, err, intent, placed, acked, account, cancelled, halting, Log, State, Action,
}
use autotrader_ai.Engine.Audit.{IsAudited}
use autotrader_ai.Engine.Setup.{gate_halted}

module _ {W : Type 0} where
  -- the account that was read last
  unfoldable pub last_account : Log W → Option (AccountSnapshot W)
  last_account [] = none
  last_account (account snap ∷ log) = some snap
  last_account (intent _ ∷ log) = last_account log
  last_account (placed _ ∷ log) = last_account log
  last_account (acked _ _ ∷ log) = last_account log
  last_account (cancelled _ ∷ log) = last_account log
  last_account (halting ∷ log) = last_account log

  unfoldable pub has_halted : Log W → Bool
  has_halted [] = false
  has_halted (halting ∷ log) = true
  has_halted (account _ ∷ log) = has_halted log
  has_halted (intent _ ∷ log) = has_halted log
  has_halted (placed _ ∷ log) = has_halted log
  has_halted (acked _ _ ∷ log) = has_halted log
  has_halted (cancelled _ ∷ log) = has_halted log

  -- an order that opens a position
  unfoldable pub is_entry : OrderRequest W → Bool
  is_entry req = is_buy req.side && is_opening req.position_effect

module _ {W : Type 0} ⦃f : Float W⦄ (cfg : RiskConfig W) where
  -- The gate passed the order, against the account that was read last, and an entry comes before any
  -- halt of the session.
  pub record Vetted (req : OrderRequest W) (log : Log W) : Type 0 where
    pub snap : AccountSnapshot W
    pub ref_price : Option W
    pub coverage_legs : List (OrderRequest W)
    pub latest : last_account log ≡ some snap
    pub approved : (evaluate req snap cfg ref_price coverage_legs).approved ≡ true
    pub before_halt : is_entry req ≡ true → has_halted log ≡ false

  unfoldable pub IsVetted : Log W → Type 0
  IsVetted [] = Unit
  IsVetted (placed req ∷ log) = Vetted req log × IsVetted log
  IsVetted (intent _ ∷ log) = IsVetted log
  IsVetted (acked _ _ ∷ log) = IsVetted log
  IsVetted (account _ ∷ log) = IsVetted log
  IsVetted (cancelled _ ∷ log) = IsVetted log
  IsVetted (halting ∷ log) = IsVetted log

  -- A session's log, with its gate halted once the log is.
  pub record Sound (log : Log W) (gate : Option EntryGate) : Type 0 where
    pub audited : IsAudited log
    pub vetted : IsVetted log
    pub gated : has_halted log ≡ true → gate_halted gate ≡ true

-- What is known between two actions: the log is sound, and besides, where `entries`, that the session
-- is not halted, and the account that was read last.
pub data Known (W : Type 0) : Type 0 where
  sound : Known W
  unhalted : (entries : Bool) → Known W
  judged : AccountSnapshot W → (entries : Bool) → Known W

module _ {W : Type 0} ⦃f : Float W⦄ (cfg : RiskConfig W) where
  unfoldable pub Holds : Known W → Log W → Option EntryGate → Type 0
  Holds sound log gate = Sound cfg log gate
  Holds (unhalted entries) log gate = Sound cfg log gate × (entries ≡ true → has_halted log ≡ false)
  Holds (judged snap entries) log gate =
      Sound cfg log gate
      × (last_account log ≡ some snap)
      × (entries ≡ true → has_halted log ≡ false)

  pub Holds-Sound :
      (k : Known W) {log : Log W} {gate : Option EntryGate} → Holds k log gate → Sound cfg log gate
  unfolding Holds
  Holds-Sound sound h = h
  Holds-Sound (unhalted entries) h = h.0
  Holds-Sound (judged snap entries) h = h.0

module _ {W S A : Type 0} ⦃f : Float W⦄ (cfg : RiskConfig W) where
  -- A method that ends well ends with what `q` says of its value; one that raises leaves a sound log.
  unfoldable pub EndsIn : (A → Known W) → Result A → State W S → Type 0
  EndsIn q (ok a) st = Holds cfg (q a) st.log st.gate
  EndsIn q (err e) st = Sound cfg st.log st.gate

  pub record Runs (p : Known W) (q : A → Known W) (m : Action W S A) : Type 0 where
    pub at : (st : State W S) → Holds cfg p st.log st.gate → EndsIn q (m st).0 (m st).1

module _ {W S A : Type 0} where
  -- `m` touches neither the log nor the gate.
  pub record Quiet (m : Action W S A) : Type 0 where
    pub still : (st : State W S) → ((m st).1.log ≡ st.log) × ((m st).1.gate ≡ st.gate)
