-- ===== src/Engine/Budget/Costs.antt =====
-- autotrader/main.py, `TradeEngine._submit_with_escalation`: how many orders an escalation places, against
-- the cancellations that the broker took.
use autotrader_ai.Prelude.{
  ℕ, suc, ◌+◌, ◌≤◌, ◌≡◌, refl, inl, inr, Bool, true, false, [], ◌∷◌, arith, if◌then◌else◌,
  Option-cases,
}
use autotrader_ai.Float.{Float, fixed_float}
use autotrader_ai.Domain.{OrderRequest, OrderAck, check_order}
use autotrader_ai.Rebalance.{get_key}
use autotrader_ai.Engine.World.{
  Outside, Event, intent, placed, acked, account, cancelled, halting, Log, State, Action, ◌>>=◌,
  pure, raise,
}
use autotrader_ai.Engine.Router.{audit, remember, place, answered, submit_new, submit}
use autotrader_ai.Engine.Binds.{after_bind}
use autotrader_ai.Engine.Audit.{audit-cases, place-log, submit-new, submit-seen}
use autotrader_ai.Engine.Setup.{Setup, new_order}

module _ {W : Type 0} where
  -- the orders that reached the broker
  unfoldable pub placings : Log W → ℕ
  placings [] = 0
  placings (placed _ ∷ log) = suc (placings log)
  placings (intent _ ∷ log) = placings log
  placings (acked _ _ ∷ log) = placings log
  placings (account _ ∷ log) = placings log
  placings (cancelled _ ∷ log) = placings log
  placings (halting ∷ log) = placings log

  unfoldable pub cancels : Log W → ℕ
  cancels [] = 0
  cancels (cancelled _ ∷ log) = suc (cancels log)
  cancels (placed _ ∷ log) = cancels log
  cancels (intent _ ∷ log) = cancels log
  cancels (acked _ _ ∷ log) = cancels log
  cancels (account _ ∷ log) = cancels log
  cancels (halting ∷ log) = cancels log

  -- From one log to a later one: at most `n` orders more than cancellations, and `k` orders in all.
  abbrev pub Within : ℕ → ℕ → Log W → Log W → Type 0
  Within n k log log' =
      (placings log' + cancels log ≤ placings log + n + cancels log')
      × (placings log' ≤ placings log + k)

module _ {W S A : Type 0} where
  pub record Spends (n k : ℕ) (m : Action W S A) : Type 0 where
    pub at : (st : State W S) → Within n k st.log (m st).1.log

  pub Spends-same :
      {n k : ℕ} (m : Action W S A) → ((st : State W S) → (m st).1.log ≡ st.log) → Spends n k m
  Spends-same m same = record { at = λ st. rw (same st) (omega arith, omega arith) }

  pub Spends-if :
      {n k : ℕ} (b : Bool) (x y : Action W S A)
      → Spends n k x
      → Spends n k y
      → Spends n k (if b then x else y)
  Spends-if true x y cx cy = cx
  Spends-if false x y cx cy = cy

  pub Spends-more :
      {n k : ℕ} (n' k' : ℕ) {m : Action W S A} → Spends n k m → n ≤ n' → k ≤ k' → Spends n' k' m
  Spends-more n' k' cm h l = record {
    at = λ st. let (a, b) = cm.at st in (omega arith, omega arith);
  }

module _ {W S A B : Type 0} where
  pub Spends-bind :
      (n k n' k' : ℕ) (m : Action W S A) (g : A → Action W S B)
      → Spends n k m
      → ((a : A) → Spends n' k' (g a))
      → Spends (n + n') (k + k') (m >>= g)
  Spends-bind n k n' k' m g cm cg = record {
    at = λ st.
        let (a, b) = cm.at st in
        after_bind (λ r. Within (n + n') (k + k') st.log r.1.log) m g st
          (λ e _. (omega arith, omega arith))
          (λ x _. let (a', b') = (cg x).at (m st).1 in (omega arith, omega arith));
  }

module _ {W S A : Type 0} where
  pub Spends-new_order :
      {n k : ℕ} ⦃f : Float W⦄ (c : Setup W S) (req : OrderRequest W)
      (g : OrderRequest W → Action W S A)
      → Spends n k (g req)
      → Spends n k (new_order c req >>= g)
  unfolding ◌>>=◌ pure raise new_order
  Spends-new_order c req g cg = elim (Option-cases (check_order req)) [
    | inl e ↦ record { at = λ st. rw (e, new_order) (cg.at st) }
    | inr e ↦ record { at = λ st. rw (e.1, new_order) (omega arith, omega arith) }
  ]

module _ {W S : Type 0} (o : Outside W S) where
  audit-Spends :
      (line : Event W) → ((log : Log W) → Within 0 0 log (line ∷ log)) → Spends 0 0 (audit o line)
  audit-Spends line h = record {
    at = λ st. elim (audit-cases o line st) [
      | inl d ↦ rw d.1 (h st.log)
      | inr d ↦ rw d.1 (omega arith, omega arith)
    ];
  }

  place-Spends : (req : OrderRequest W) → Spends 1 1 (place o req)
  unfolding placings cancels
  place-Spends req = record { at = λ st. rw (place-log o req st).0 (omega arith, omega arith) }

  answered-Spends : (req : OrderRequest W) (ack : OrderAck) → Spends 0 0 (answered o req ack)
  unfolding answered remember placings cancels
  answered-Spends req ack =
      Spends-bind 0 0 0 0 _ _ (audit-Spends _ (λ log. (omega arith, omega arith)))
        (λ _. Spends-same _ (λ st. refl))

  submit_new-Spends : (req : OrderRequest W) → Spends 1 1 (submit_new o req)
  unfolding submit_new placings cancels
  submit_new-Spends req =
      Spends-bind 0 0 1 1 _ _ (audit-Spends _ (λ log. (omega arith, omega arith)))
        (λ _. Spends-bind 1 1 0 0 _ _ (place-Spends req) (answered-Spends req))

  pub submit-Spends : (req : OrderRequest W) → Spends 1 1 (submit o req)
  submit-Spends req = record {
    at = λ st. elim (Option-cases (get_key req.client_order_id st.seen)) [
      | inl e ↦ rw (submit-new o req st e) ((submit_new-Spends req).at st)
      | inr e ↦ rw (submit-seen o req st e.0 e.1) (omega arith, omega arith)
    ];
  }
