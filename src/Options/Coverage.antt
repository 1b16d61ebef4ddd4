-- ===== src/Options/Coverage.antt =====
-- The gate of the orders at the legs of a planned spread.
use autotrader_ai.Prelude.{
  ℕ, ◌≡◌, refl, sym, ◌∙◌, ◌⊎◌, inl, inr, false, some, [], ◌∷◌, arith, Bool-cases,
}
use autotrader_ai.Prelude.Int.{ℤ, pos, ◌+ℤ◌, int_laws}
use autotrader_ai.Prelude.Text.{Text, contains, upper, text_eq_refl}
use autotrader_ai.Float.{Float, IsOrdered, fixed_float}
use autotrader_ai.Domain.{Side, OptionRight, PositionEffect, OverlayType, Signal, AccountSnapshot}
use autotrader_ai.Config.{RiskConfig}
use autotrader_ai.Risk.Core.{leg_cover, long_cover_contracts}
use autotrader_ai.Options.Chain.{to_contract}
use autotrader_ai.Options.Overlays.{LegSpec, registry, overlay_value}
use autotrader_ai.Options.Planner.{
  planned, OverlayLeg, OverlayPlan, Provider, spread_invalid, diagonal_invalid, validate_structure,
  plan_contracts, plan_overlay, build_overlay_plan,
}
use autotrader_ai.Options.Legs.{>>=-planned, ChainsOf, two_legs}

zero-+ℤ : (a : ℤ) → pos 0 +ℤ a ≡ a
zero-+ℤ a = omega int_laws

module _ {W : Type 0} ⦃f : Float W⦄ (laws : IsOrdered W) (lo sh : OverlayLeg W)
    (underlying : Text) where
  -- A short leg of either right, with a long leg that the check of the structure accepts.
  abbrev BoundedBy : Type 0
  BoundedBy =
      ((sh.quote.right ≡ OptionRight.put) × (spread_invalid lo.quote sh.quote ≡ false))
      ⊎ ((sh.quote.right ≡ OptionRight.call) × (diagonal_invalid lo.quote sh.quote ≡ false))

  leg_cover_of_pair :
      lo.quote.underlying ≡ underlying
      → sh.quote.underlying ≡ underlying
      → lo.quote.right ≡ sh.quote.right
      → lo.request.option ≡ some (to_contract lo.quote)
      → lo.request.side ≡ Side.buy
      → lo.request.position_effect ≡ PositionEffect.opening
      → BoundedBy
      → leg_cover (to_contract sh.quote) lo.request ≡ lo.request.qty
  unfolding leg_cover to_contract spread_invalid diagonal_invalid
  leg_cover_of_pair lu su rights o s e valid =
      ground (arith, laws.le_of_lt sh.quote.strike lo.quote.strike, text_eq_refl (upper underlying))

  -- The long leg of such a pair covers its short leg in full.
  cover_of_pair :
      lo.quote.underlying ≡ underlying
      → sh.quote.underlying ≡ underlying
      → lo.quote.right ≡ sh.quote.right
      → lo.request.option ≡ some (to_contract lo.quote)
      → lo.request.side ≡ Side.buy
      → lo.request.position_effect ≡ PositionEffect.opening
      → BoundedBy
      → long_cover_contracts (lo.request ∷ []) (to_contract sh.quote) ≡ lo.request.qty
  unfolding long_cover_contracts
  cover_of_pair lu su rights o s e valid =
      zero-+ℤ (leg_cover (to_contract sh.quote) lo.request)
      ∙ leg_cover_of_pair lu su rights o s e valid

  valid_pair :
      (overlay : OverlayType)
      → lo.request.side ≡ Side.buy
      → sh.request.side ≡ Side.sell
      → ((overlay ≡ OverlayType.bear_put_spread) × (sh.quote.right ≡ OptionRight.put))
        ⊎ ((overlay ≡ OverlayType.call_diagonal) × (sh.quote.right ≡ OptionRight.call))
      → validate_structure overlay (lo ∷ sh ∷ []) ≡ planned tt
      → BoundedBy
  unfolding validate_structure
  valid_pair overlay b s kind h = ground arith

module _ {W : Type 0} ⦃f : Float W⦄ (signal : Signal W) (snapshot : AccountSnapshot W)
    (provider : Provider W) (cfg : RiskConfig W) (signal_id : Text) (asof : ℕ) where
  -- A plan comes from its overlay's definition, for some count of contracts.
  pub built :
      (overlay : OverlayType) (plan : OverlayPlan W)
      → build_overlay_plan overlay signal snapshot provider cfg signal_id asof ≡ planned plan
      → (contracts : ℤ) × (plan_contracts (registry overlay) snapshot cfg (upper signal.symbol)
          ≡ planned contracts)
        × (plan_overlay provider cfg overlay
              (upper signal.symbol)
              signal_id
              asof
              contracts
              (registry overlay)
            ≡ planned plan)
  unfolding build_overlay_plan
  built overlay plan h = elim (Bool-cases (contains (overlay_value overlay) cfg.allowed_overlays)) [
    | inl allowed ↦
        >>=-planned (plan_contracts (registry overlay) snapshot cfg (upper signal.symbol)) _
          (rw allowed at h)
    | inr refused ↦ absurd (ground arith)
  ]

module _ {W : Type 0} ⦃f : Float W⦄ (laws : IsOrdered W) (signal : Signal W)
    (snapshot : AccountSnapshot W) (provider : Provider W) (cfg : RiskConfig W) (signal_id : Text)
    (asof : ℕ) where
  abbrev PairCovered : OverlayPlan W → Type 0
  PairCovered plan =
      (lo : OverlayLeg W) × (sh : OverlayLeg W) × (plan.legs ≡ lo ∷ sh ∷ [])
      × (lo.request.side ≡ Side.buy)
      × (sh.request.side ≡ Side.sell)
      × (sh.request.option ≡ some (to_contract sh.quote))
      × (sh.request.qty ≡ lo.request.qty)
      × (long_cover_contracts (lo.request ∷ []) (to_contract sh.quote) ≡ sh.request.qty)

  pair_covered :
      (overlay : OverlayType) (contracts : ℤ) (anchor short : LegSpec W) (plan : OverlayPlan W)
      → ChainsOf provider
      → (registry overlay).legs ≡ anchor ∷ short ∷ []
      → (registry {W = W} overlay).opens_stock ≡ false
      → anchor.side ≡ Side.buy
      → anchor.position_effect ≡ PositionEffect.opening
      → short.side ≡ Side.sell
      → anchor.ratio ≡ short.ratio
      → anchor.right ≡ short.right
      → ((overlay ≡ OverlayType.bear_put_spread) × (short.right ≡ OptionRight.put))
        ⊎ ((overlay ≡ OverlayType.call_diagonal) × (short.right ≡ OptionRight.call))
      → plan_overlay provider cfg overlay
          (upper signal.symbol)
          signal_id
          asof
          contracts
          (registry overlay)
        ≡ planned plan
      → PairCovered plan
  pair_covered overlay contracts anchor short plan chains legs no_stock b o s r rt kind h =
      let (lo, sh, both, l, t, valid) =
        two_legs provider cfg overlay (upper signal.symbol) signal_id asof contracts
          (registry overlay) anchor short plan chains no_stock legs h in
      let same_qty : sh.request.qty ≡ lo.request.qty = cc in
      let buys : lo.request.side ≡ Side.buy = cc in
      let sells : sh.request.side ≡ Side.sell = cc in
      let bounded =
        valid_pair laws lo sh (upper signal.symbol) overlay buys sells (ground arith) valid in
      let covers =
        cover_of_pair laws lo sh (upper signal.symbol) l.0 t.0 (cc) l.2 buys (cc) bounded in
      (lo, sh, both, buys, sells, t.2, same_qty, covers ∙ sym same_qty)

  -- Every spread or diagonal that the planner returns has two legs, the long one first, of the same
  -- number of contracts; and the gate of the orders counts the long leg as cover for all the
  -- contracts of the short one, where the chain of an underlying holds options on it alone
  -- and floats are ordered (`IsOrdered`).
  pub planned_pair_covered :
      (overlay : OverlayType) (plan : OverlayPlan W)
      → ChainsOf provider
      → (overlay ≡ OverlayType.bear_put_spread) ⊎ (overlay ≡ OverlayType.call_diagonal)
      → build_overlay_plan overlay signal snapshot provider cfg signal_id asof ≡ planned plan
      → (lo : OverlayLeg W) × (sh : OverlayLeg W) × (plan.legs ≡ lo ∷ sh ∷ [])
        × (lo.request.side ≡ Side.buy)
        × (sh.request.side ≡ Side.sell)
        × (sh.request.option ≡ some (to_contract sh.quote))
        × (sh.request.qty ≡ lo.request.qty)
        × (long_cover_contracts (lo.request ∷ []) (to_contract sh.quote) ≡ sh.request.qty)
  unfolding registry
  planned_pair_covered OverlayType.bear_put_spread plan chains kind h =
      let (contracts, _, p) =
        built signal snapshot provider cfg signal_id asof OverlayType.bear_put_spread plan h in
      pair_covered OverlayType.bear_put_spread contracts _ _ plan chains refl refl refl refl refl
        refl refl (inl (refl, refl)) p
  planned_pair_covered OverlayType.call_diagonal plan chains kind h =
      let (contracts, _, p) =
        built signal snapshot provider cfg signal_id asof OverlayType.call_diagonal plan h in
      pair_covered OverlayType.call_diagonal contracts _ _ plan chains refl refl refl refl refl refl
        refl (inr (refl, refl)) p
  planned_pair_covered _ plan chains kind h = absurd (ground arith)
