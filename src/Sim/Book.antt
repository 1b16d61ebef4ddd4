-- ===== src/Sim/Book.antt =====
-- autotrader/sim_broker.py: what an order does to the book.
use autotrader_ai.Prelude.{
  suc, ◌≡◌, refl, sym, ap, ◌∙◌, ◌⊎◌, inl, inr, true, false, Option, none, some, List, [], ◌∷◌,
  arith, if◌then◌else◌, Bool-cases, Option-cases, is_some, length, length-append,
}
use autotrader_ai.Prelude.Int.{pos, ◌+ℤ◌, int_laws}
use autotrader_ai.Prelude.Text.{numbered, Text, text, text_eq, eq_of_text_eq}
use autotrader_ai.Float.{Float, fixed_float}
use mathlib.Core.Path.{subst}
use mathlib.Core.Option.{some-injective}
use autotrader_ai.Domain.{OrderType, OrderState, OrderRequest, OrderAck, Position}
use autotrader_ai.Rebalance.{set_key, get_key}
use autotrader_ai.Engine.Binds.{set_key-get_key}
use autotrader_ai.Sim.Broker.{
  Sim, fill_price, signed_qty, held, execute, rest_order, settle, place_order,
}

none-some : {A : Type 0} {x : A} → none ≡ some x → ⊥
none-some h = ground arith

get_key-other :
    {V : Type 0} (k s : Text) (v : V) (d : List (Text × V))
    → text_eq k s ≡ false
    → get_key s (set_key k v d) ≡ get_key s d
unfolding get_key set_key
get_key-other k s v [] h = rw h refl
get_key-other k s v (e ∷ d) h = elim (Bool-cases (text_eq e.0 k)) [
  | inl t ↦
      let other : text_eq e.0 s ≡ false = ap (λ x. text_eq x s) (eq_of_text_eq e.0 k t) ∙ h in
      rw t (rw h (rw other refl))
  | inr t ↦ rw t (rw (get_key-other k s v d h) refl)
]

module _ {W : Type 0} ⦃f : Float W⦄ (req : OrderRequest W) (b : Sim W) where
  -- The filled order moved the position of its symbol by its signed quantity and no other, and left
  -- one more fill and the same working orders.
  abbrev pub Executed : OrderAck → Sim W → Type 0
  Executed ack b' =
      (ack.state ≡ OrderState.filled)
      × ((s : Text)
          → held b'.positions s
            ≡ held b.positions s +ℤ (if text_eq req.symbol s then signed_qty req else pos 0))
      × (length b'.fills ≡ suc (length b.fills))
      × (b'.opened ≡ b.opened)

  -- The resting order is among the working ones, and cash, positions and fills are as before.
  abbrev pub Rests : OrderAck → Sim W → Type 0
  Rests ack b' =
      (ack.state ≡ OrderState.submitted)
      × (b'.cash ≡ b.cash)
      × (b'.positions ≡ b.positions)
      × (b'.fills ≡ b.fills)
      × (get_key (numbered (text "sim-") (suc b.seq)) b'.opened ≡ some ack)

  held-same :
      (d : List (Text × Position W)) (p : Position W)
      → held (set_key req.symbol p d) req.symbol ≡ p.qty
  unfolding held
  held-same d p = rw (set_key-get_key req.symbol p d, held) refl

  held-other :
      (d : List (Text × Position W)) (p : Position W) (s : Text)
      → text_eq req.symbol s ≡ false
      → held (set_key req.symbol p d) s ≡ held d s
  unfolding held
  held-other d p s h = rw (get_key-other req.symbol s p d h, held) refl

  held-set_key :
      (d : List (Text × Position W)) (p : Position W) (s : Text)
      → p.qty ≡ held d req.symbol +ℤ signed_qty req
      → held (set_key req.symbol p d) s
        ≡ held d s +ℤ (if text_eq req.symbol s then signed_qty req else pos 0)
  held-set_key d p s e = elim (Bool-cases (text_eq req.symbol s)) [
    | inl t ↦ rw t (
        subst (λ x. held (set_key req.symbol p d) x ≡ held d x +ℤ signed_qty req)
          (eq_of_text_eq req.symbol s t) (held-same d p ∙ e))
    | inr t ↦ rw t (held-other d p s t ∙ omega int_laws)
  ]

  abbrev raised : Sim W
  raised = record b { seq = suc b.seq }

  abbrev Settled : OrderAck × Sim W → Type 0
  Settled r = Executed r.0 r.1 ⊎ Rests r.0 r.1

  settle_lem : (p : Option W) → Settled (settle p req raised)
  unfolding settle execute rest_order
  settle_lem none = inr (refl, refl, refl, refl, set_key-get_key _ _ b.opened)
  settle_lem (some px) = inl (
    refl,
    λ s. held-set_key b.positions _ s refl,
    omega (arith, length-append b.fills (_ ∷ [])),
    refl,
  )

  settle-seen :
      (p : Option W)
      → get_key req.client_order_id (settle p req raised).1.acks_by_cid
        ≡ some (settle p req raised).0
  unfolding settle execute rest_order
  settle-seen none = set_key-get_key _ _ b.acks_by_cid
  settle-seen (some px) = set_key-get_key _ _ b.acks_by_cid

  place_order-new :
      (p : Option W)
      → get_key req.client_order_id b.acks_by_cid ≡ none
      → fill_price raised req ≡ some p
      → place_order req b ≡ some (settle p req raised)
  unfolding place_order
  place_order-new p new e = rw (new, place_order) (rw (e, place_order) refl)

  place_order-raises :
      get_key req.client_order_id b.acks_by_cid ≡ none
      → fill_price raised req ≡ none
      → place_order req b ≡ none
  unfolding place_order
  place_order-raises new e = rw (new, place_order) (rw (e, place_order) refl)

  fill_price-answers :
      (req.order_type ≡ OrderType.limit → is_some req.limit_price ≡ true)
      → is_some (fill_price raised req) ≡ true
  unfolding fill_price
  fill_price-answers h = ground arith

module _ {W : Type 0} ⦃f : Float W⦄ (req : OrderRequest W) (b : Sim W) where
  place_order-seen :
      (ack : OrderAck)
      → get_key req.client_order_id b.acks_by_cid ≡ some ack
      → place_order req b ≡ some (ack, b)
  unfolding place_order
  place_order-seen ack e = rw (e, place_order) refl

module _ {W : Type 0} ⦃f : Float W⦄ (req : OrderRequest W) (b : Sim W) where
  -- An order whose id is new is executed or rests: executed, it moves the position of its symbol by
  -- its signed quantity and no other, adds one fill and no working order; resting, it is a working
  -- order under its broker id, and cash, positions and fills stay.
  pub place_order_lem :
      (ack : OrderAck) (b' : Sim W)
      → get_key req.client_order_id b.acks_by_cid ≡ none
      → place_order req b ≡ some (ack, b')
      → Executed req b ack b' ⊎ Rests req b ack b'
  place_order_lem ack b' new h = elim (Option-cases (fill_price (raised req b) req)) [
    | inl e ↦ absurd (none-some (sym (place_order-raises req b new e) ∙ h))
    | inr (p, e) ↦
        subst (Settled req b) (some-injective _ _ (sym (place_order-new req b p new e) ∙ h))
          (settle_lem req b p)
  ]

  -- An order that was answered is answered the same once more, and changes nothing.
  pub place_order_once :
      (ack : OrderAck) (b' : Sim W)
      → place_order req b ≡ some (ack, b')
      → place_order req b' ≡ some (ack, b')
  place_order_once ack b' h = elim (Option-cases (get_key req.client_order_id b.acks_by_cid)) [
    | inr (a, e) ↦
        subst (λ r. place_order req r.1 ≡ some r)
          (some-injective _ _ (sym (place_order-seen req b a e) ∙ h)) (place_order-seen req b a e)
    | inl new ↦ elim (Option-cases (fill_price (raised req b) req)) [
      | inl e ↦ absurd (none-some (sym (place_order-raises req b new e) ∙ h))
      | inr (p, e) ↦
          subst (λ r. place_order req r.1 ≡ some r)
            (some-injective _ _ (sym (place_order-new req b p new e) ∙ h))
            (place_order-seen req (settle p req (raised req b)).1 _ (settle-seen req b p))
    ]
  ]

  -- Every order is answered that is no LIMIT or has a limit price.
  pub place_order_answers :
      (req.order_type ≡ OrderType.limit → is_some req.limit_price ≡ true)
      → is_some (place_order req b) ≡ true
  place_order_answers h = elim (Option-cases (get_key req.client_order_id b.acks_by_cid)) [
    | inr (a, e) ↦ rw (place_order-seen req b a e) refl
    | inl new ↦ elim (Option-cases (fill_price (raised req b) req)) [
      | inl e ↦ absurd (let k = fill_price-answers req b h in ground arith)
      | inr (p, e) ↦ rw (place_order-new req b p new e) refl
    ]
  ]
