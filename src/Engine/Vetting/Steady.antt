-- ===== src/Engine/Vetting/Steady.antt =====
-- The helpers of the engine, autotrader/main.py, that place no order and read no account: whatever is
-- known before them is known after them.
use autotrader_ai.Prelude.{refl, inl, inr, false, Option, Option-cases, null}
use autotrader_ai.Prelude.Text.{Text}
use autotrader_ai.Float.{Float, fixed_float}
use autotrader_ai.Domain.{Side, OrderType, OrderRequest, OrderAck, check_order}
use autotrader_ai.Config.{RiskConfig}
use autotrader_ai.Engine.World.{Fault, err, State, Action, ◌>>=◌, pure, raise, caught, try_broker}
use autotrader_ai.Engine.Binds.{Result-cases}
use autotrader_ai.Engine.Audit.{IsAudited}
use autotrader_ai.Engine.Vetting.Vetted.{
  Known, Holds, Holds-Sound, EndsIn, IsVetted, has_halted, last_account,
}
use autotrader_ai.Engine.Vetting.Keeps.{
  Keeps, keeps_rules, Keeps-Quiet, Keeps-pure, Keeps-elim, Keeps-if, Keeps-raise, Holds-later,
}
use autotrader_ai.Engine.Setup.{
  Setup, get_quote, new_order, order_kind, cancel, order_working, cancel_for_escalation,
  record_order, next_signal_id,
}

module _ {W S : Type 0} ⦃f : Float W⦄ (cfg : RiskConfig W) where
  caught-Ends :
      (A : Type 0) (k : Known W) (e : Fault) (st : State W S)
      → Holds cfg k st.log st.gate
      → EndsIn cfg (λ _. k) (caught {A = A} (err e)) st
  unfolding EndsIn caught
  caught-Ends A k Fault.broker_error st h = h
  caught-Ends A k e st h = Holds-Sound cfg k h

module _ {W S : Type 0} ⦃f : Float W⦄ (c : Setup W S) {k : Known W} where
  pub cancel-Keeps : (id : Text) → Keeps c.cfg k (cancel c id)
  unfolding cancel EndsIn IsAudited IsVetted last_account has_halted
  cancel-Keeps id = record {
    runs = record {
      at = λ st h. elim (Result-cases (c.world.cancel_order id st.outside).0) [
        | inl e ↦ rw (e.1, cancel) (Holds-later c.cfg _ _ _ k (λ a. a) (λ v. v) refl refl h)
        | inr e ↦ rw (e.1, cancel) (Holds-Sound c.cfg k h)
      ];
    };
  }

  pub order_working-Keeps : (ack : OrderAck) → Keeps c.cfg k (order_working c ack)
  unfolding order_working
  order_working-Keeps ack = search keeps_rules

  pub try_cancel-Keeps : (id : Text) → Keeps c.cfg k (try_broker (cancel c id))
  unfolding try_broker cancel caught EndsIn IsAudited IsVetted last_account has_halted
  try_cancel-Keeps id = record {
    runs = record {
      at = λ st h. elim (Result-cases (c.world.cancel_order id st.outside).0) [
        | inl e ↦
            rw (e.1, try_broker, cancel) (Holds-later c.cfg _ _ _ k (λ a. a) (λ v. v) refl refl h)
        | inr e ↦ rw (e.1, try_broker, cancel) (caught-Ends c.cfg (Unit {0}) k e.0 _ h)
      ];
    };
  }

  pub cancel_for_escalation-Keeps : (ack : OrderAck) → Keeps c.cfg k (cancel_for_escalation c ack)
  unfolding cancel_for_escalation
  cancel_for_escalation-Keeps ack =
      Keeps-elim ack.broker_order_id _ _ (Keeps-pure false)
        (λ id. Keeps-if (null id) _ _ (λ _. Keeps-pure false) (λ _. try_cancel-Keeps id))

  pub get_quote-Keeps : (symbol : Text) → Keeps c.cfg k (get_quote c symbol)
  unfolding get_quote
  get_quote-Keeps symbol = search keeps_rules

  pub new_order-Keeps : (req : OrderRequest W) → Keeps c.cfg k (new_order c req)
  unfolding new_order
  new_order-Keeps req = elim (Option-cases (check_order req)) [
    | inl e ↦ rw (e, new_order) (Keeps-pure req)
    | inr e ↦ rw (e.1, new_order) (Keeps-raise Fault.bad_value)
  ]

  pub order_kind-Keeps : (side : Side) (px : W) → Keeps c.cfg k (order_kind c side px)
  unfolding order_kind
  order_kind-Keeps side px = search keeps_rules

  pub record_order-Keeps :
      (req : OrderRequest W) (kind : OrderType) (px : Option W) (ack : OrderAck)
      → Keeps c.cfg k (record_order c req kind px ack)
  unfolding record_order
  record_order-Keeps req kind px ack = search keeps_rules

  pub next_signal_id-Keeps : Keeps c.cfg k (next_signal_id c)
  unfolding next_signal_id
  next_signal_id-Keeps = Keeps-Quiet (record { still = λ st. (refl, refl) })

  -- The constructor gives the very order that it is given, or raises.
  pub Keeps-new_order :
      {B : Type 0} (req : OrderRequest W) (g : OrderRequest W → Action W S B)
      → Keeps c.cfg k (g req)
      → Keeps c.cfg k (new_order c req >>= g)
  unfolding ◌>>=◌ pure raise new_order EndsIn
  Keeps-new_order req g r = elim (Option-cases (check_order req)) [
    | inl e ↦ record { runs = record { at = λ st h. rw (e, new_order) (r.runs.at st h) } }
    | inr e ↦ record { runs = record { at = λ st h. rw (e.1, new_order) (Holds-Sound c.cfg k h) } }
  ]
