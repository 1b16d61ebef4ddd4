-- ===== src/Trading/Sizing.antt =====
-- autotrader/sizing.py: the quantity of a BUY, from the risk that it may take. `none` is the exception
-- that `math.floor` raises at a NaN or an infinity.
use autotrader_ai.Prelude.{
  ◌≡◌, ◌⊎◌, inl, inr, Bool, true, false, not, ◌&&◌, ◌||◌, Option, none, some, arith, if◌then◌else◌,
  Bool-cases, Option-cases, or_default,
}
use autotrader_ai.Prelude.Int.{ℤ, pos, ◌+ℤ◌, ◌-ℤ◌, ◌≤ℤ◌, ◌<ℤ◌, leb_ℤ, min_ℤ, min_ℤ-le, int_laws}
use autotrader_ai.Float.{Float, fzero, fone, fmin, fmax, fixed_float}
use autotrader_ai.Domain.{finite_pos}
use autotrader_ai.Config.{RiskConfig}

pub data SizeReason : Type 0 where
  fixed_disabled bad_inputs no_stop_distance sized_zero sized : SizeReason

pub record SizeResult : Type 0 where
  pub qty : ℤ
  pub reason : SizeReason
  pub used_risk_sizing : Bool

abbrev pub size : ℤ → SizeReason → Bool → SizeResult
size q r u = record { qty = q; reason = r; used_risk_sizing = u }

infixl 5 ◌>>=◌
abbrev pub ◌>>=◌ : {A B : Type 0} → Option A → (A → Option B) → Option B
none >>= k = none
some a >>= k = k a

module _ {W : Type 0} ⦃f : Float W⦄ where
  -- `signal_stop is not None and math.isfinite(signal_stop) and 0 < signal_stop < entry_price`
  abbrev stop_below : Option W → W → Bool
  stop_below none entry_price = false
  stop_below (some s) entry_price = f.is_finite s && f.lt fzero s && f.lt s entry_price

  -- The distance to the stop, where there is one that can be used.
  unfoldable pub stop_distance : W → Option W → RiskConfig W → Option W
  stop_distance entry_price signal_stop cfg =
      let from_stop = f.sub entry_price (or_default signal_stop fzero) in
      let from_trail = f.mul entry_price (f.div cfg.trailing_stop_pct (f.lit 100 0)) in
      let usable = λ (d : W). if not (f.is_finite d) || f.le d fzero then none else some d in
      if stop_below signal_stop entry_price
      then usable from_stop
      else if f.lt fzero cfg.trailing_stop_pct
      then usable from_trail
      else none

  -- The share of the base quantity that a confidence earns.
  unfoldable pub size_factor : W → RiskConfig W → W
  size_factor confidence cfg =
      let span = f.sub fone cfg.min_confidence in
      let scaled = f.div (f.sub confidence cfg.min_confidence) span in
      let t = if f.le span (f.lit 1 9) then fone else fmax fzero (fmin fone scaled) in
      f.add cfg.confidence_size_floor
        (f.mul t (f.sub cfg.confidence_size_ceil cfg.confidence_size_floor))

  -- Steps 3 to 5: the base quantity, scaled, and clamped to the room under each cap.
  unfoldable pub risk_qty : W → W → W → W → RiskConfig W → ℤ → W → Option ℤ
  risk_qty equity entry_price stop_dist confidence cfg current_qty gross = do
    base ← f.floor (f.div (f.mul equity cfg.risk_per_trade_pct) stop_dist)
    scaled ← f.floor (f.mul (f.of_int base) (size_factor confidence cfg))
    by_notional ← f.floor (f.div cfg.max_order_notional entry_price)
    by_exposure ← f.floor (f.div (f.sub cfg.max_gross_exposure gross) entry_price)
    some
        (min_ℤ (min_ℤ (min_ℤ scaled (cfg.max_position_qty -ℤ current_qty)) by_notional) by_exposure)

  -- From step 3 on, where there is a stop distance.
  unfoldable pub size_from_risk : W → W → W → W → RiskConfig W → ℤ → W → Option SizeResult
  size_from_risk equity entry_price stop_dist confidence cfg current_qty gross =
      risk_qty equity entry_price stop_dist confidence cfg current_qty gross >>= λ qty.
      if leb_ℤ qty (pos 0)
      then some (size (pos 0) SizeReason.sized_zero true)
      else some (size qty SizeReason.sized true)

  unfoldable pub size_position : W → W → Option W → W → RiskConfig W → ℤ → W → ℤ → Option SizeResult
  size_position equity entry_price signal_stop confidence cfg current_qty gross fixed_qty =
      if f.le cfg.risk_per_trade_pct fzero
      then some (size fixed_qty SizeReason.fixed_disabled false)
      else if not (finite_pos equity) || not (finite_pos entry_price)
      then some (size (pos 0) SizeReason.bad_inputs true)
      else elim (stop_distance entry_price signal_stop cfg) [
        | none ↦ some (size fixed_qty SizeReason.no_stop_distance false)
        | some stop_dist ↦
            size_from_risk equity entry_price stop_dist confidence cfg current_qty gross
      ]

abbrev pub Within : ℤ → Option ℤ → Type 0
Within q none = ⊥
Within q (some n) = q ≤ℤ n

module _ {W : Type 0} ⦃f : Float W⦄ (equity entry_price : W) (signal_stop : Option W)
    (confidence : W) (cfg : RiskConfig W) (current_qty : ℤ) (gross : W) (fixed_qty : ℤ) where
  -- The room for the order under the notional cap and under the exposure cap, in shares.
  abbrev pub notional_room : Option ℤ
  notional_room = f.floor (f.div cfg.max_order_notional entry_price)

  abbrev pub exposure_room : Option ℤ
  exposure_room = f.floor (f.div (f.sub cfg.max_gross_exposure gross) entry_price)

  risk_qty-le :
      (stop_dist : W) (q : ℤ)
      → risk_qty equity entry_price stop_dist confidence cfg current_qty gross ≡ some q
      → (q ≤ℤ cfg.max_position_qty -ℤ current_qty) × Within q notional_room × Within q exposure_room
  unfolding risk_qty
  risk_qty-le d q h = grind (arith, min_ℤ-le)

  -- A quantity that fits every room.
  abbrev pub Fits : ℤ → Type 0
  Fits q =
      (pos 0 <ℤ q)
      × (current_qty +ℤ q ≤ℤ cfg.max_position_qty)
      × Within q notional_room
      × Within q exposure_room

  size_from_risk-Fits :
      (stop_dist : W) (r : SizeResult)
      → size_from_risk equity entry_price stop_dist confidence cfg current_qty gross ≡ some r
      → (r.qty ≡ pos 0) ⊎ Fits r.qty
  unfolding size_from_risk
  size_from_risk-Fits d r h =
      elim (Option-cases (risk_qty equity entry_price d confidence cfg current_qty gross)) [
        | inl e ↦ absurd (cc)
        | inr (q, e) ↦
            let (room, notional, exposure) = risk_qty-le d q e in
            elim (Bool-cases (leb_ℤ q (pos 0))) [
              | inl zeroed ↦ inl (ground arith)
              | inr positive ↦
                  let sized_q : r ≡ size q SizeReason.sized true = ground arith in
                  inr (rw sized_q (ground arith, omega int_laws, notional, exposure))
            ]
      ]

  -- A quantity that the sizer derives from risk is zero, which is not traded, or it is positive and
  -- fits the room that the position cap, the order cap and the exposure cap leave.
  pub size_position-Fits :
      (r : SizeResult)
      → size_position equity entry_price signal_stop confidence cfg current_qty gross fixed_qty
        ≡ some r
      → r.used_risk_sizing ≡ true
      → (r.qty ≡ pos 0) ⊎ Fits r.qty
  unfolding size_position
  size_position-Fits r h u = elim (Option-cases (stop_distance entry_price signal_stop cfg)) [
    | inl e ↦ inl (ground arith)
    | inr (d, e) ↦ ground (arith, size_from_risk-Fits d r)
  ]
