-- ===== src/Engine/Budget/Pegging.antt =====
-- autotrader/main.py, `TradeEngine._submit_with_escalation`: the next stage is placed only after a
-- cancellation that the broker took, and there are three stages.
use autotrader_ai.Prelude.{
  ℕ, suc, ◌+◌, ◌≤◌, ◌≡◌, refl, ap, ◌∙◌, inl, inr, Bool, true, false, not, Option, none, some, arith,
  if◌then◌else◌, Option-cases, or_default, null,
}
use autotrader_ai.Prelude.Text.{Text}
use autotrader_ai.Float.{Float, fixed_float}
use autotrader_ai.Domain.{is_limit, OrderRequest, OrderAck, AccountSnapshot}
use autotrader_ai.Engine.World.{
  Fault, Result, ok, err, Log, State, Action, ◌>>=◌, pure, raise, ask, tell, from_option, caught,
  try_broker,
}
use autotrader_ai.Engine.Router.{submit}
use autotrader_ai.Engine.Binds.{after_bind, Result-cases}
use autotrader_ai.Engine.Setup.{
  Setup, get_quote, cancel, order_working, cancel_for_escalation, passes,
}
use autotrader_ai.Engine.Escalation.{
  may_advance, exec_ref, fall_back, submit_peg, repeg, submit_with_escalation,
}
use autotrader_ai.Engine.Budget.Costs.{
  placings, cancels, Within, Spends, Spends-same, Spends-if, Spends-more, Spends-bind,
  Spends-new_order, submit-Spends,
}

module _ {W S : Type 0} where
  -- `m` places nothing, and answers true only where it cancelled an order.
  record Grants (m : Action W S Bool) : Type 0 where
    pub placed_same : (st : State W S) → placings (m st).1.log ≡ placings st.log
    pub cancelled_more : (st : State W S) → cancels st.log ≤ cancels (m st).1.log
    pub granted :
        (st : State W S) → (m st).0 ≡ ok true → cancels (m st).1.log ≡ suc (cancels st.log)

  Grants-pure : Grants (pure {W = W} {S = S} false)
  unfolding pure
  Grants-pure = record {
    placed_same = λ st. refl;
    cancelled_more = λ st. omega arith;
    granted = λ st e. absurd (ground arith);
  }

  Grants-if : (b : Bool) (x y : Action W S Bool) → Grants x → Grants y → Grants (if b then x else y)
  Grants-if true x y gx gy = gx
  Grants-if false x y gx gy = gy

  -- After an action that leaves the log alone.
  Grants-after :
      {A : Type 0} (m : Action W S A) (g : A → Action W S Bool)
      → ((st : State W S) → (m st).1.log ≡ st.log)
      → ((a : A) → Grants (g a))
      → Grants (m >>= g)
  Grants-after m g same gg = record {
    placed_same = λ st.
        after_bind (λ r. placings r.1.log ≡ placings st.log) m g st (λ e _. ap placings (same st))
          (λ a _. (gg a).placed_same (m st).1 ∙ ap placings (same st));
    cancelled_more = λ st.
        after_bind (λ r. cancels st.log ≤ cancels r.1.log) m g st
          (λ e _. rw (same st) (omega arith))
          (λ a _.
            let e = ap cancels (same st) in
            let later = (gg a).cancelled_more (m st).1 in omega arith);
    granted = λ st.
        after_bind (λ r. r.0 ≡ ok true → cancels r.1.log ≡ suc (cancels st.log)) m g st
          (λ e _ t. absurd (ground arith))
          (λ a _ t. (gg a).granted (m st).1 t ∙ ap (λ log. suc (cancels log)) (same st));
  }

module _ {W S : Type 0} ⦃f : Float W⦄ (c : Setup W S) where
  caught-true : (A : Type 0) (e : Fault) → caught {A = A} (err e) ≡ ok true → ⊥
  unfolding caught
  caught-true A Fault.broker_error t = ground arith
  caught-true A e t = ground arith

  cancel-Grants : (id : Text) → Grants (try_broker (cancel c id))
  unfolding try_broker cancel caught placings cancels
  cancel-Grants id = record {
    placed_same = λ st. elim (Result-cases (c.world.cancel_order id st.outside).0) [
      | inl e ↦ rw (e.1, try_broker, cancel) refl
      | inr e ↦ rw (e.1, try_broker, cancel) refl
    ];
    cancelled_more = λ st. elim (Result-cases (c.world.cancel_order id st.outside).0) [
      | inl e ↦ rw (e.1, try_broker, cancel) (omega arith)
      | inr e ↦ rw (e.1, try_broker, cancel) (omega arith)
    ];
    granted = λ st. elim (Result-cases (c.world.cancel_order id st.outside).0) [
      | inl e ↦ rw (e.1, try_broker, cancel) (λ t. refl)
      | inr e ↦ rw (e.1, try_broker, cancel) (λ t. absurd (caught-true (Unit {0}) e.0 t))
    ];
  }

  cancel_for_escalation-Grants : (ack : OrderAck) → Grants (cancel_for_escalation c ack)
  unfolding cancel_for_escalation
  cancel_for_escalation-Grants ack = elim (Option-cases ack.broker_order_id) [
    | inl e ↦ rw (e, cancel_for_escalation) Grants-pure
    | inr e ↦
        rw (e.1, cancel_for_escalation) (Grants-if (null e.0) _ _ Grants-pure (cancel-Grants e.0))
  ]

  working_log : (ack : OrderAck) (st : State W S) → (order_working c ack st).1.log ≡ st.log
  unfolding order_working ask pure
  working_log ack st =
      after_bind {B = Option Bool} (λ r. r.1.log ≡ st.log) (ask c.world.get_open_orders) _ st
        (λ _ _. refl) (λ _ _. refl)

  may_advance-Grants : (ack : OrderAck) → Grants (may_advance c ack)
  unfolding may_advance tell
  may_advance-Grants ack =
      Grants-after _ _ (λ st. refl)
        (λ _. Grants-after _ _ (working_log ack) (λ working.
          Grants-if (or_default working false) _ _ (cancel_for_escalation-Grants ack) Grants-pure))

  -- What may follow a stage that was granted costs one placing more than it is charged.
  advance-Spends :
      {A : Type 0} (n k : ℕ) (ack : OrderAck) (x y : Action W S A)
      → Spends (suc n) k x
      → Spends n k y
      → Spends n k (may_advance c ack >>= λ b. if b then x else y)
  advance-Spends n k ack x y cx cy = record {
    at = λ st.
        let g = may_advance-Grants ack in
        let m = may_advance c ack in
        let same = g.placed_same st in
        let more = g.cancelled_more st in
        after_bind (λ r. Within n k st.log r.1.log) m (λ b. if b then x else y) st
          (λ e _. (omega arith, omega arith)) (λ b t. branch st (m st).1.log b t);
  }
    where
      branch :
          (st : State W S) (log : Log W) (b : Bool)
          → (may_advance c ack st).0 ≡ ok b
          → Within n k st.log ((if b then x else y) (may_advance c ack st).1).1.log
      branch st log true t =
          let g = may_advance-Grants ack in
          let same = g.placed_same st in
          let one = g.granted st t in
          let (a, b) = cx.at (may_advance c ack st).1 in (omega arith, omega arith)
      branch st log false t =
          let g = may_advance-Grants ack in
          let same = g.placed_same st in
          let more = g.cancelled_more st in
          let (a, b) = cy.at (may_advance c ack st).1 in (omega arith, omega arith)

  quote-Spends : {A : Type 0} (g : S → Result A × S) → Spends {W = W} 0 0 (ask g)
  unfolding ask
  quote-Spends g = Spends-same _ (λ st. refl)

  option-Spends :
      {A : Type 0} (e : Fault) (o : Option A) → Spends {W = W} {S = S} 0 0 (from_option e o)
  unfolding from_option pure raise
  option-Spends e none = Spends-same _ (λ st. refl)
  option-Spends e (some a) = Spends-same _ (λ st. refl)

  pure-Spends : {A : Type 0} (a : A) → Spends {W = W} {S = S} 0 0 (pure a)
  unfolding pure
  pure-Spends a = Spends-same _ (λ st. refl)

  -- A stage that ends with its answer.
  last-Spends :
      (req : OrderRequest W)
      → Spends {A = OrderAck × OrderRequest W} 1 1 (submit c.world req >>= λ ack. pure (ack, req))
  last-Spends req = Spends-bind 1 1 0 0 _ _ (submit-Spends c.world req) (λ ack. pure-Spends _)

  module _ (req : OrderRequest W) (snap : AccountSnapshot W) where
    fall_back-Spends :
        (cur : W) (ack : OrderAck) (ack_req : OrderRequest W)
        → Spends 1 1 (fall_back c req snap cur ack ack_req)
    unfolding fall_back
    fall_back-Spends cur ack ack_req = Spends-new_order c _ _ (
        Spends-bind 0 0 1 1 _ _ (quote-Spends _) (λ touch.
          Spends-if (passes c _ snap (exec_ref req.side touch cur)) _ _ (last-Spends _)
            (Spends-more 1 1 (pure-Spends _) (omega arith) (omega arith))))

    submit_peg-Spends :
        (cur : W) (peg : OrderRequest W) → Spends 1 2 (submit_peg c req snap cur peg)
    unfolding submit_peg
    submit_peg-Spends cur peg = Spends-bind 1 1 0 1 _ _ (submit-Spends c.world peg) (λ ack.
        advance-Spends 0 1 ack _ _ (fall_back-Spends cur ack peg)
          (Spends-more 0 1 (pure-Spends _) (omega arith) (omega arith)))

    repeg-Spends : (ref_price : W) (ack : OrderAck) → Spends 1 2 (repeg c req snap ref_price ack)
    unfolding repeg get_quote
    repeg-Spends ref_price ack = Spends-bind 0 0 1 2 _ _ (quote-Spends _) (λ quote.
        Spends-bind 0 0 1 2 _ _ (option-Spends _ _) (λ px. Spends-new_order c _ _ (
          Spends-if (passes c _ snap _) _ _ (submit_peg-Spends _ _)
            (Spends-more 1 2 (fall_back-Spends _ ack req) (omega arith) (omega arith)))))

  escalation-Spends :
      (req : OrderRequest W) (snap : AccountSnapshot W) (px : W)
      → Spends 1 3 (submit_with_escalation c req snap px)
  unfolding submit_with_escalation
  escalation-Spends req snap px =
      Spends-if (not (is_limit req.order_type)) _ _
        (Spends-more 1 3 (last-Spends req) (omega arith) (omega arith))
        (Spends-bind 1 1 0 2 _ _ (submit-Spends c.world req) (λ ack.
          advance-Spends 0 2 ack _ _ (repeg-Spends req snap px ack)
            (Spends-more 0 2 (pure-Spends _) (omega arith) (omega arith))))

  -- However an escalation ends, by an answer or by an exception, it has placed at most one order more
  -- than the broker took cancellations in its course, and at most three orders.
  pub escalation_replaces :
      (req : OrderRequest W) (snap : AccountSnapshot W) (px : W) (st : State W S)
      → let log' = (submit_with_escalation c req snap px st).1.log in
        (placings log' + cancels st.log ≤ placings st.log + 1 + cancels log')
        × (placings log' ≤ placings st.log + 3)
  escalation_replaces req snap px st = (escalation-Spends req snap px).at st
