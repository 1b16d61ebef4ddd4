-- ===== src/Engine/Vetting/Keeps.antt =====
-- The actions of an engine, autotrader/main.py, that place no order and read no account: whatever is
-- known before them is known after them.
use autotrader_ai.Prelude.{◌≡◌, ◌∙◌, refl, Bool, true, false, Option, none, some, if◌then◌else◌}
use autotrader_ai.Float.{Float, fixed_float}
use autotrader_ai.Config.{RiskConfig}
use autotrader_ai.Session.Gate.{EntryGate}
use autotrader_ai.Db.Tables.{Tables}
use autotrader_ai.Engine.World.{
  Fault, Result, Log, State, Action, ◌>>=◌, pure, raise, gets, ask, tell, with_db, from_option,
  from_result,
}
use autotrader_ai.Engine.Audit.{IsAudited}
use autotrader_ai.Engine.Vetting.Vetted.{
  Sound, Known, sound, judged, unhalted, Holds, Runs, Quiet, IsVetted, has_halted, last_account,
}
use autotrader_ai.Engine.Vetting.Rules.{Runs-Quiet, Runs-pure, Runs-raise, Runs-bind}

module _ {W S : Type 0} ⦃f : Float W⦄ (cfg : RiskConfig W) (k : Known W) where
  -- `m` keeps what is known.
  pub record Keeps {A : Type 0} (m : Action W S A) : Type 0 where
    pub runs : Runs cfg k (λ _. k) m

module _ {W S : Type 0} ⦃f : Float W⦄ {cfg : RiskConfig W} {k : Known W} where
  pub Keeps-Quiet : {A : Type 0} {m : Action W S A} → Quiet m → Keeps cfg k m
  Keeps-Quiet q = record { runs = Runs-Quiet q }

  pub Keeps-pure : {A : Type 0} (a : A) → Keeps {S = S} cfg k (pure a)
  Keeps-pure a = record { runs = Runs-pure a (λ log gate h. h) }

  pub Keeps-raise : {A : Type 0} (e : Fault) → Keeps {S = S} cfg k (raise {A = A} e)
  Keeps-raise e = record { runs = Runs-raise e }

  pub Keeps-gets : {A : Type 0} (g : State W S → A) → Keeps cfg k (gets g)
  unfolding gets
  Keeps-gets g = Keeps-Quiet (record { still = λ st. (refl, refl) })

  pub Keeps-ask : {A : Type 0} (g : S → Result A × S) → Keeps {W = W} cfg k (ask g)
  unfolding ask
  Keeps-ask g = Keeps-Quiet (record { still = λ st. (refl, refl) })

  pub Keeps-tell : (g : S → S) → Keeps {W = W} cfg k (tell g)
  unfolding tell
  Keeps-tell g = Keeps-Quiet (record { still = λ st. (refl, refl) })

  pub Keeps-with_db : (g : Tables W → Tables W) → Keeps {S = S} cfg k (with_db g)
  unfolding with_db
  Keeps-with_db g = Keeps-Quiet (record { still = λ st. (refl, refl) })

  pub Keeps-from_option :
      {A : Type 0} (e : Fault) (o : Option A) → Keeps {S = S} cfg k (from_option e o)
  unfolding from_option
  Keeps-from_option e none = Keeps-raise e
  Keeps-from_option e (some a) = Keeps-pure a

  pub Keeps-from_result : {A : Type 0} (r : Result A) → Keeps {S = S} cfg k (from_result r)
  unfolding from_result
  Keeps-from_result r = Keeps-Quiet (record { still = λ st. (refl, refl) })

  pub Keeps-if :
      {A : Type 0} (b : Bool) (m n : Action W S A)
      → (b ≡ true → Keeps cfg k m)
      → (b ≡ false → Keeps cfg k n)
      → Keeps cfg k (if b then m else n)
  Keeps-if true m n km kn = km refl
  Keeps-if false m n km kn = kn refl

  pub Keeps-elim :
      {A B : Type 0} (o : Option A) (m : Action W S B) (g : A → Action W S B)
      → Keeps cfg k m
      → ((a : A) → Keeps cfg k (g a))
      → Keeps cfg k (elim o [ none ↦ m | some a ↦ g a ])
  Keeps-elim none m g km kg = km
  Keeps-elim (some a) m g km kg = kg a

  pub Keeps-bind :
      {A B : Type 0} (m : Action W S A) (g : A → Action W S B)
      → Keeps cfg k m
      → ((a : A) → Keeps cfg k (g a))
      → Keeps cfg k (m >>= g)
  Keeps-bind m g km kg = record { runs = Runs-bind km.runs (λ a. (kg a).runs) }

pub ruleset keeps_rules = (
  Keeps-pure, Keeps-raise, Keeps-gets, Keeps-ask, Keeps-tell, Keeps-with_db, Keeps-from_option,
  Keeps-from_result, Keeps-if, Keeps-bind,
)

module _ {W : Type 0} ⦃f : Float W⦄ (cfg : RiskConfig W) (log log' : Log W)
    (gate : Option EntryGate) where
  pub Sound-later :
      (IsAudited log → IsAudited log')
      → (IsVetted cfg log → IsVetted cfg log')
      → has_halted log' ≡ has_halted log
      → Sound cfg log gate
      → Sound cfg log' gate
  Sound-later audits vets halts s = record {
    audited = audits s.audited;
    vetted = vets s.vetted;
    gated = rw halts s.gated;
  }

  -- A log that grew by lines that say nothing of an account or a halt.
  pub Holds-later :
      (k : Known W)
      → (IsAudited log → IsAudited log')
      → (IsVetted cfg log → IsVetted cfg log')
      → last_account log' ≡ last_account log
      → has_halted log' ≡ has_halted log
      → Holds cfg k log gate
      → Holds cfg k log' gate
  unfolding Holds
  Holds-later sound audits vets reads halts h = Sound-later audits vets halts h
  Holds-later (unhalted b) audits vets reads halts h =
      (Sound-later audits vets halts h.0, rw halts h.1)
  Holds-later (judged snap b) audits vets reads halts h =
      (Sound-later audits vets halts h.0, reads ∙ h.1, rw halts h.2)
