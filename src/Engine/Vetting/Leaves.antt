-- ===== src/Engine/Vetting/Leaves.antt =====
-- Rules for the methods of an engine, autotrader/main.py, that end with a sound log whatever account
-- was judged on the way.
use autotrader_ai.Prelude.{
  ◌≡◌, refl, inl, inr, Bool, true, false, Option, none, some, if◌then◌else◌, Option-cases,
}
use autotrader_ai.Float.{Float, fixed_float}
use autotrader_ai.Domain.{OrderRequest, AccountSnapshot, check_order}
use autotrader_ai.Config.{RiskConfig}
use autotrader_ai.Engine.World.{Fault, Action, ◌>>=◌, pure, raise}
use autotrader_ai.Engine.Vetting.Vetted.{Known, sound, judged, Holds-Sound, EndsIn, Runs}
use autotrader_ai.Engine.Vetting.Rules.{Runs-raise, Runs-bind, Runs-stop, Runs-sound, Runs-forget}
use autotrader_ai.Engine.Vetting.Keeps.{Keeps}
use autotrader_ai.Engine.Vetting.Submitting.{read_account-Runs}
use autotrader_ai.Engine.Setup.{Setup, read_account, new_order}

module _ {W S : Type 0} ⦃f : Float W⦄ (cfg : RiskConfig W) (k : Known W) where
  -- From what is known, `m` ends with a sound log, or raises with one.
  pub record Leaves {A : Type 0} (m : Action W S A) : Type 0 where
    pub runs : Runs cfg k (λ _. sound) m

module _ {W S : Type 0} ⦃f : Float W⦄ {cfg : RiskConfig W} {k : Known W} where
  pub Leaves-Keeps : {A : Type 0} (m : Action W S A) → Keeps cfg k m → Leaves cfg k m
  Leaves-Keeps m km = record { runs = Runs-forget km.runs }

  -- A method that asks for no more than a sound log may start anywhere.
  pub Leaves-any : {A : Type 0} (m : Action W S A) → Leaves cfg sound m → Leaves cfg k m
  Leaves-any m lm = record { runs = Runs-sound lm.runs }

  pub Leaves-pure : {A : Type 0} (a : A) → Leaves {S = S} cfg k (pure a)
  Leaves-pure a = record { runs = Runs-stop a }

  pub Leaves-raise : {A : Type 0} (e : Fault) → Leaves {S = S} cfg k (raise {A = A} e)
  Leaves-raise e = record { runs = Runs-raise e }

  pub Leaves-if :
      {A : Type 0} (b : Bool) (m n : Action W S A)
      → (b ≡ true → Leaves cfg k m)
      → (b ≡ false → Leaves cfg k n)
      → Leaves cfg k (if b then m else n)
  Leaves-if true m n lm ln = lm refl
  Leaves-if false m n lm ln = ln refl

  pub Leaves-elim :
      {A B : Type 0} (o : Option A) (m : Action W S B) (g : A → Action W S B)
      → Leaves cfg k m
      → ((a : A) → Leaves cfg k (g a))
      → Leaves cfg k (elim o [ none ↦ m | some a ↦ g a ])
  Leaves-elim none m g lm lg = lm
  Leaves-elim (some a) m g lm lg = lg a

  pub Leaves-bind :
      {A B : Type 0} (m : Action W S A) (g : A → Action W S B)
      → Keeps cfg k m
      → ((a : A) → Leaves cfg k (g a))
      → Leaves cfg k (m >>= g)
  Leaves-bind m g km lg = record { runs = Runs-bind km.runs (λ a. (lg a).runs) }

  pub Leaves-then :
      {A B : Type 0} (m : Action W S A) (g : A → Action W S B)
      → Leaves cfg k m
      → ((a : A) → Leaves cfg sound (g a))
      → Leaves cfg k (m >>= g)
  Leaves-then m g lm lg = record { runs = Runs-bind lm.runs (λ a. (lg a).runs) }

module _ {W S : Type 0} ⦃f : Float W⦄ (c : Setup W S) {k : Known W} where
  pub Leaves-read :
      {A : Type 0} (g : AccountSnapshot W → Action W S A)
      → ((snap : AccountSnapshot W) → Leaves c.cfg (judged snap false) (g snap))
      → Leaves c.cfg k (read_account c >>= g)
  Leaves-read g lg = record { runs = Runs-bind (read_account-Runs c) (λ snap. (lg snap).runs) }

  pub Leaves-new_order :
      {A : Type 0} (req : OrderRequest W) (g : OrderRequest W → Action W S A)
      → Leaves c.cfg k (g req)
      → Leaves c.cfg k (new_order c req >>= g)
  unfolding ◌>>=◌ pure raise new_order EndsIn
  Leaves-new_order req g r = elim (Option-cases (check_order req)) [
    | inl e ↦ record { runs = record { at = λ st h. rw (e, new_order) (r.runs.at st h) } }
    | inr e ↦ record { runs = record { at = λ st h. rw (e.1, new_order) (Holds-Sound c.cfg k h) } }
  ]

pub ruleset leaves_rules = (Leaves-pure, Leaves-raise, Leaves-if, Leaves-bind)
