-- ===== src/Engine/Vetting/Rules.antt =====
-- Rules for the actions of an engine, autotrader/main.py: one for each way to build an action.
use autotrader_ai.Prelude.{◌≡◌, refl, Bool, true, false, Option, if◌then◌else◌, first}
use autotrader_ai.Float.{Float, fixed_float}
use mathlib.Core.Path.{subst}
use autotrader_ai.Config.{RiskConfig}
use autotrader_ai.Session.Gate.{EntryGate}
use autotrader_ai.Engine.World.{
  Fault, Result, ok, err, Log, State, Action, ◌>>=◌, pure, raise, gets,
}
use autotrader_ai.Engine.Binds.{after_bind}
use autotrader_ai.Engine.Vetting.Vetted.{
  Sound, Known, sound, Holds, Holds-Sound, EndsIn, Runs, Quiet,
}

module _ {W S A : Type 0} ⦃f : Float W⦄ (cfg : RiskConfig W) where
  pub ends_ok :
      (q : A → Known W) (r : Result A) (st : State W S) (a : A)
      → r ≡ ok a
      → EndsIn cfg q r st
      → Holds cfg (q a) st.log st.gate
  unfolding EndsIn
  ends_ok q r st a e h = subst (λ r. EndsIn cfg q r st) e h

  pub ends_err :
      (q : A → Known W) (r : Result A) (st : State W S) (e : Fault)
      → r ≡ err e
      → EndsIn cfg q r st
      → Sound cfg st.log st.gate
  unfolding EndsIn
  ends_err q r st e d h = subst (λ r. EndsIn cfg q r st) d h

  -- An end at which less is known.
  ends_later :
      (q q' : A → Known W) (r : Result A) (st : State W S)
      → ((a : A) (log : Log W) (gate : Option EntryGate)
          → Holds cfg (q a) log gate
          → Holds cfg (q' a) log gate)
      → EndsIn cfg q r st
      → EndsIn cfg q' r st
  unfolding EndsIn
  ends_later q q' (ok a) st g h = g a st.log st.gate h
  ends_later q q' (err e) st g h = h

  pub ends_still :
      (k : Known W) (r : Result A) (st : State W S)
      → Holds cfg k st.log st.gate
      → EndsIn cfg (λ _. k) r st
  unfolding EndsIn
  ends_still k (ok a) st h = h
  ends_still k (err e) st h = Holds-Sound cfg k h

module _ {W S A : Type 0} ⦃f : Float W⦄ {cfg : RiskConfig W} where
  pub Runs-Quiet : {p : Known W} {m : Action W S A} → Quiet m → Runs cfg p (λ _. p) m
  Runs-Quiet {p = p} {m = m} q = record {
    at = λ st h. let (l, g) = q.still st in ends_still cfg p (m st).0 (m st).1 (rw l (rw g h));
  }

  pub Runs-pure :
      {p : Known W} {q : A → Known W} (a : A)
      → ((log : Log W) (gate : Option EntryGate) → Holds cfg p log gate → Holds cfg (q a) log gate)
      → Runs {S = S} cfg p q (pure a)
  unfolding pure EndsIn
  Runs-pure a g = record { at = λ st h. g st.log st.gate h }

  -- The end of a method.
  pub Runs-stop : {p : Known W} (a : A) → Runs {S = S} cfg p (λ _. sound) (pure a)
  unfolding Holds
  Runs-stop {p = p} a = Runs-pure a (λ log gate h. Holds-Sound cfg p h)

  pub Runs-raise : {p : Known W} {q : A → Known W} (e : Fault) → Runs {S = S} cfg p q (raise e)
  unfolding raise EndsIn
  Runs-raise {p = p} e = record { at = λ st h. Holds-Sound cfg p h }

  pub Runs-if :
      {p : Known W} {q : A → Known W} (b : Bool) {m n : Action W S A}
      → (b ≡ true → Runs cfg p q m)
      → (b ≡ false → Runs cfg p q n)
      → Runs cfg p q (if b then m else n)
  Runs-if true m n = m refl
  Runs-if false m n = n refl

  -- Where nothing is asked of the account, any knowledge will do.
  pub Runs-sound :
      {p : Known W} {q : A → Known W} {m : Action W S A} → Runs cfg sound q m → Runs cfg p q m
  unfolding Holds
  Runs-sound {p = p} r = record { at = λ st h. r.at st (Holds-Sound cfg p h) }

  pub Runs-forget :
      {p : Known W} {q : A → Known W} {m : Action W S A}
      → Runs cfg p q m
      → Runs cfg p (λ _. sound) m
  unfolding Holds
  Runs-forget {q = q} {m = m} r = record {
    at = λ st h.
        ends_later cfg q _ (m st).0 (m st).1 (λ a log gate k. Holds-Sound cfg (q a) k) (r.at st h);
  }

module _ {W S A B : Type 0} ⦃f : Float W⦄ {cfg : RiskConfig W} where
  pub Runs-bind :
      {p : Known W} {q : A → Known W} {r : B → Known W} {m : Action W S A} {k : A → Action W S B}
      → Runs cfg p q m
      → ((a : A) → Runs cfg (q a) r (k a))
      → Runs cfg p r (m >>= k)
  unfolding EndsIn
  Runs-bind {q = q} {r = r} {m = m} {k = k} first rest = record {
    at = λ st h.
        let ends = first.at st h in
        after_bind (λ x. EndsIn cfg r x.0 x.1) m k st
          (λ e d. ends_err cfg q (m st).0 (m st).1 e d ends)
          (λ a d. (rest a).at (m st).1 (ends_ok cfg q (m st).0 (m st).1 a d ends));
  }

  -- A value of the state, of which only the later actions know.
  pub Runs-gets :
      {p : Known W} {q : B → Known W} (g : State W S → A) {k : A → Action W S B}
      → ((a : A) → Runs cfg p q (k a))
      → Runs cfg p q (gets g >>= k)
  unfolding gets ◌>>=◌
  Runs-gets g rest = record { at = λ st h. (rest (g st)).at st h }
