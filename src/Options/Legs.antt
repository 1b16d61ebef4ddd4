-- ===== src/Options/Legs.antt =====
-- The orders of a plan's legs, and the plan of an overlay with two of them.
use mathlib.Core.Path.{subst}
use autotrader_ai.Prelude.{
  ℕ, ◌≡◌, refl, ◌≢◌, ◌⊎◌, inl, inr, true, false, Option, none, some, List, [], ◌∷◌, ◌++◌, arith,
  if◌then◌else◌, Option-cases, All,
}
use autotrader_ai.Prelude.Int.{ℤ, ◌*ℤ◌}
use autotrader_ai.Prelude.Text.{Text}
use autotrader_ai.Float.{Float, fixed_float}
use autotrader_ai.Domain.{OptionRight, OverlayType}
use autotrader_ai.Config.{RiskConfig}
use autotrader_ai.Options.Chain.{
  OptionQuote, Wanted, qualifies, select_contract, select_contract-has, to_contract,
}
use autotrader_ai.Options.Overlays.{LegSpec, OverlayDef}
use autotrader_ai.Options.Planner.{
  Planned, planned, skipped, raised, ◌>>=◌, OverlayLeg, OverlayPlan, Provider, validate_structure,
  leg_kind, wanted_by, plan_leg, plan_rest, plan_legs, opening_stock, plan_overlay,
}

pub Planned-cases :
    {A : Type 0} (m : Planned A) → ((a : A) × (m ≡ planned a)) ⊎ ((a : A) → m ≢ planned a)
Planned-cases (planned a) = inl (a, refl)
Planned-cases (skipped r) = inr (λ a e. cc)
Planned-cases raised = inr (λ a e. cc)

pub >>=-planned :
    {A B : Type 0} (m : Planned A) (k : A → Planned B) {b : B}
    → (m >>= k) ≡ planned b
    → (a : A) × (m ≡ planned a) × (k a ≡ planned b)
>>=-planned (planned a) k h = (a, refl, h)
>>=-planned (skipped r) k h = cc
>>=-planned raised k h = cc

right_of_qualifies :
    {W : Type 0} ⦃f : Float W⦄ (w : Wanted W) (asof : ℕ) (q : OptionQuote W)
    → qualifies w asof q ≡ true
    → q.right ≡ w.right
unfolding qualifies
right_of_qualifies w asof q h = ground arith

-- The chain of an underlying holds options on it.
abbrev pub ChainsOf : {W : Type 0} → Provider W → Type 0
ChainsOf provider =
    (u : Text) (r : OptionRight) (lo hi : ℤ)
    → All (λ q. q.underlying ≡ u) (provider.get_option_chain u r lo hi)

module _ {W : Type 0} ⦃f : Float W⦄ (provider : Provider W) (cfg : RiskConfig W)
    (overlay : OverlayType) (underlying signal_id : Text) (asof : ℕ) (contracts : ℤ) where
  -- What a planned leg is: an order for the chosen quote, of the leg's side and size.
  abbrev pub IsLeg : LegSpec W → OverlayLeg W → Type 0
  IsLeg spec leg =
      (leg.quote.underlying ≡ underlying)
      × (leg.quote.right ≡ spec.right)
      × (leg.request.option ≡ some (to_contract leg.quote))
      × (leg.request.side ≡ spec.side)
      × (leg.request.qty ≡ contracts *ℤ spec.ratio)
      × (leg.request.position_effect ≡ spec.position_effect)

  plan_leg_lem :
      (i : ℕ) (spec : LegSpec W) (pin : Option ℕ) (leg : OverlayLeg W)
      → ChainsOf provider
      → plan_leg provider cfg overlay underlying signal_id asof contracts i spec pin ≡ planned leg
      → IsLeg spec leg
  unfolding plan_leg wanted_by
  plan_leg_lem i spec pin leg chains h =
      let w = wanted_by provider cfg overlay underlying signal_id asof contracts spec pin in
      let quotes = provider.get_option_chain underlying spec.right w.dte_min w.dte_max in
      elim (Option-cases (select_contract quotes w asof)) [
        | inl e ↦ absurd (ground arith)
        | inr (q, e) ↦
            let has =
              select_contract-has (λ r. r.underlying ≡ underlying) quotes w asof q
                (chains underlying spec.right w.dte_min w.dte_max) e in
            let (kind, hk, hl) =
              >>=-planned (leg_kind cfg spec.side q.premium) _ (rw (e, plan_leg) at h) in
            ground (arith, right_of_qualifies w asof q has.1)
      ]

  planned_pair :
      (deff : OverlayDef W) (anchor short : LegSpec W) (legs : List (OverlayLeg W))
      → ChainsOf provider
      → plan_legs provider cfg overlay underlying signal_id asof contracts deff
          (anchor ∷ short ∷ [])
        ≡ planned legs
      → (lo : OverlayLeg W) × (sh : OverlayLeg W) × (legs ≡ lo ∷ sh ∷ [])
        × IsLeg anchor lo
        × IsLeg short sh
  unfolding plan_legs plan_rest
  planned_pair deff anchor short legs chains h =
      let (lo, h4, k4) =
        >>=-planned
          (plan_leg provider cfg overlay underlying signal_id asof contracts 0 anchor none) _ h in
      let pin : Option ℕ = if deff.single_expiry then some lo.quote.expiry else none in
      let (rest, h5, k5) =
        >>=-planned
          (plan_rest provider cfg overlay underlying signal_id asof contracts 1 (short ∷ []) pin) _
          k4 in
      let (sh, h6, k6) =
        >>=-planned (plan_leg provider cfg overlay underlying signal_id asof contracts 1 short pin)
          _ h5 in
      (
        lo,
        sh,
        ground arith,
        plan_leg_lem 0 anchor none lo chains h4,
        plan_leg_lem 1 short pin sh chains h6,
      )

  -- The plan of an overlay with two option legs and no stock leg: both legs, and the check of them.
  pub two_legs :
      (deff : OverlayDef W) (anchor short : LegSpec W) (plan : OverlayPlan W)
      → ChainsOf provider
      → deff.opens_stock ≡ false
      → deff.legs ≡ anchor ∷ short ∷ []
      → plan_overlay provider cfg overlay underlying signal_id asof contracts deff ≡ planned plan
      → (lo : OverlayLeg W) × (sh : OverlayLeg W) × (plan.legs ≡ lo ∷ sh ∷ [])
        × IsLeg anchor lo
        × IsLeg short sh
        × (validate_structure overlay (lo ∷ sh ∷ []) ≡ planned tt)
  unfolding plan_overlay opening_stock
  two_legs deff anchor short plan chains no_stock two h =
      let (stock, h1, k1) =
        >>=-planned (opening_stock provider cfg overlay underlying signal_id asof contracts deff) _
          h in
      let (legs, h2, k2) =
        >>=-planned
          (plan_legs provider cfg overlay underlying signal_id asof contracts deff deff.legs) _
          k1 in
      let (u, h3, k3) = >>=-planned (validate_structure overlay (stock ++ legs)) _ k2 in
      let (lo, sh, both, l, s) = planned_pair deff anchor short legs chains (
        subst
          (λ ls.
            plan_legs provider cfg overlay underlying signal_id asof contracts deff ls
            ≡ planned legs)
          two h2) in
      let none_first : stock ≡ [] = ground (arith, h1, no_stock) in
      let all_legs : stock ++ legs ≡ lo ∷ sh ∷ [] = cc in
      (
        lo,
        sh,
        ground (arith, k3, all_legs),
        l,
        s,
        subst (λ ls. validate_structure overlay ls ≡ planned tt) all_legs h3,
      )
