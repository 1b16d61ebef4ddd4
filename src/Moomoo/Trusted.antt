-- ===== src/Moomoo/Trusted.antt =====
-- autotrader/moomoo_broker.py and autotrader/risk_core.py: the gate trusts no account whose positions
-- are unknown.
use autotrader_ai.Prelude.{
  ◌≡◌, refl, sym, ap, ◌∙◌, inl, inr, Bool, true, false, Option, some, List, ◌∷◌, arith, Bool-cases,
  Option-cases, if◌then◌else◌,
}
use mathlib.Core.Path.{subst}
use autotrader_ai.Float.{Float, fixed_float}
use autotrader_ai.Config.{RiskConfig}
use autotrader_ai.Domain.{OrderRequest, Position, AccountSnapshot}
use autotrader_ai.Risk.Core.{evaluate}
use autotrader_ai.Engine.World.{Fault, Result, ok, err}
use autotrader_ai.Engine.Binds.{Result-cases, ok-injective}
use autotrader_ai.Moomoo.World.{
  Meter, Sdk, Link, Ask, asked, ◌>>=◌, pure, raise, ask, note, attempt, acquire_token, called,
  metered, raising,
}
use autotrader_ai.Moomoo.Account.{
  get_positions, account_row, snapshot_of, with_positions, get_account,
}

approved_fresh :
    {W : Type 0} ⦃f : Float W⦄ (req : OrderRequest W) (snap : AccountSnapshot W)
    (cfg : RiskConfig W) (ref_price : Option W) (legs : List (OrderRequest W))
    → (evaluate req snap cfg ref_price legs).approved ≡ true
    → snap.stale ≡ false
unfolding evaluate
approved_fresh req snap cfg ref_price legs a = ground arith

module _ {W S A B : Type 0} where
  -- The two steps of a chain that answers.
  bind_answer :
      (m : Ask W S A) (k : A → Ask W S B) (l : Link W S) (b : B)
      → ((m >>= k) l).0 ≡ ok b
      → (a : A) × ((m l).0 ≡ ok a) × ((m >>= k) l ≡ k a (m l).1)
  unfolding ◌>>=◌
  bind_answer m k l b = elim (Result-cases (m l).0) [
    | inl e ↦ λ h. (e.0, e.1, rw (e.1, ◌>>=◌) refl)
    | inr e ↦ rw (e.1, ◌>>=◌) (λ h. absurd (ground arith))
  ]

  raising_answer :
      (k : A → Ask W S B) (r : Result A) (l : Link W S) (b : B)
      → (raising k r l).0 ≡ ok b
      → (a : A) × (raising k r l ≡ k a l)
  unfolding raising raise
  raising_answer k (ok a) l b h = (a, refl)
  raising_answer k (err e) l b h = absurd (ground arith)

called_lem :
    {W S A B : Type 0} (meter : Meter) (g : S → Result A × S) (k : Result A → Ask W S B)
    (l : Link W S)
    → called meter g k l
      ≡ k (g l.outside).0 (record l { outside = (g l.outside).1; log = asked meter ∷ l.log })
unfolding called note attempt ask ◌>>=◌
called_lem meter g k l = refl

module _ {W S R A B : Type 0} ⦃f : Float W⦄ (c : Sdk W S R) where
  metered_answer :
      (meter : Meter) (g : S → Result A × S) (e : Fault) (k : Result A → Ask W S B) (l : Link W S)
      (b : B)
      → (metered c meter g (raise e) k l).0 ≡ ok b
      → (r : Result A) × (l1 : Link W S) × (metered c meter g (raise e) k l ≡ k r l1)
  unfolding metered
  metered_answer meter g e k l b h =
      let step : Bool → Ask W S B = λ got. if got then called meter g k else raise e in
      let (got, h0, same) = bind_answer (acquire_token c meter) step l b h in
      let l1 = (acquire_token c meter l).1 in
      let answers : (step got l1).0 ≡ ok b = sym (ap (λ r. r.0) same) ∙ h in
      elim (Bool-cases got) [
        | inl t ↦ (_, _, same ∙ ap (λ got. step got l1) t ∙ called_lem meter g k l1)
        | inr t ↦
            let raised : (raise {A = B} e l1).0 ≡ ok b =
              subst (λ got. (step got l1).0 ≡ ok b) t answers in
            absurd (unfold raise in ground arith)
      ]

module _ {W S R : Type 0} ⦃f : Float W⦄ (c : Sdk W S R) where
  with_positions_answer :
      (row : R) (l : Link W S) (snap : AccountSnapshot W)
      → (with_positions c row l).0 ≡ ok snap
      → (ps : Option (List (Position W))) × (snap ≡ snapshot_of c row ps)
        × ((get_positions c l).0 ≡ ok ps)
        × ((with_positions c row l).1 ≡ (get_positions c l).1)
  unfolding with_positions pure
  with_positions_answer row l snap h =
      let build : Option (List (Position W)) → Ask W S (AccountSnapshot W) =
        λ ps. pure (snapshot_of c row ps) in
      let (ps, answered, same) = bind_answer (get_positions c) build l snap h in
      (ps, ok-injective (sym h ∙ ap (λ r. r.0) same), answered, ap (λ r. r.1) same)

  -- The account that was read, and what its call goes on with.
  account_read :
      (l : Link W S) (snap : AccountSnapshot W)
      → (get_account c l).0 ≡ ok snap
      → (row : R) × (l1 : Link W S) × (get_account c l ≡ with_positions c row l1)
  unfolding get_account
  account_read l snap h =
      let k : Option (List R) → Ask W S (AccountSnapshot W) =
        λ rows. account_row c rows >>= with_positions c in
      let (r, l1, same) =
        metered_answer c Meter.refresh_meter c.account_info Fault.broker_error (raising k) l snap
          h in
      let (rows, same1) = raising_answer k r l1 snap (sym (ap (λ r. r.0) same) ∙ h) in
      let answers : (k rows l1).0 ≡ ok snap = sym (ap (λ r. r.0) (same ∙ same1)) ∙ h in
      let (row, h2, same2) = bind_answer (account_row c rows) (with_positions c) l1 snap answers in
      (row, (account_row c rows l1).1, same ∙ same1 ∙ same2)

  -- A snapshot that the adapter answers is made of a row and of the answer of its query of the
  -- positions, which is the last thing that the call does.
  pub get_account_answer :
      (l : Link W S) (snap : AccountSnapshot W)
      → (get_account c l).0 ≡ ok snap
      → (row : R) × (ps : Option (List (Position W))) × (l1 : Link W S) × (snap
          ≡ snapshot_of c row ps)
        × (get_positions c l1 ≡ (ok ps, (get_account c l).1))
  get_account_answer l snap h =
      let (row, l1, same) = account_read l snap h in
      let answers : (with_positions c row l1).0 ≡ ok snap = sym (ap (λ r. r.0) same) ∙ h in
      let (ps, made, answered, ends) = with_positions_answer row l1 snap answers in
      let last : (get_positions c l1).1 ≡ (get_account c l).1 =
        sym ends ∙ sym (ap (λ r. r.1) same) in
      (row, ps, l1, made, λ i. (answered i, last i))

  -- The gate approves an order on a snapshot of the adapter only where the query of the positions
  -- that the call made last was answered, and with the very positions that the snapshot lists: an
  -- account whose positions are unknown is never taken for a flat one.
  pub approved_on_known_positions :
      (l : Link W S) (snap : AccountSnapshot W) (req : OrderRequest W) (cfg : RiskConfig W)
      (ref_price : Option W) (legs : List (OrderRequest W))
      → (get_account c l).0 ≡ ok snap
      → (evaluate req snap cfg ref_price legs).approved ≡ true
      → (snap.positions_loaded ≡ true)
        × (l1 : Link W S) × (get_positions c l1 ≡ (ok (some snap.positions), (get_account c l).1))
  unfolding snapshot_of
  approved_on_known_positions l snap req cfg ref_price legs h a =
      let (row, ps, l1, made, queried) = get_account_answer l snap h in
      let fresh : snap.stale ≡ false = approved_fresh req snap cfg ref_price legs a in
      elim (Option-cases ps) [
        | inl e ↦
            let unknown : snap.stale ≡ true = ap (λ r. r.stale) (made ∙ ap (snapshot_of c row) e) in
            absurd (ground arith)
        | inr e ↦
            let known : snap ≡ snapshot_of c row (some e.0) = made ∙ ap (snapshot_of c row) e.1 in
            let listed : e.0 ≡ snap.positions = sym (ap (λ r. r.positions) known) in
            (
              ap (λ r. r.positions_loaded) known,
              l1,
              queried ∙ ap (λ ps. (ok ps, (get_account c l).1)) (e.1 ∙ ap some listed),
            )
      ]
