-- ===== src/Options/Overlays.antt =====
-- autotrader/options/overlays.py: the registry of overlays. The override of an exit rule is present
-- only where the source sets it; every overlay has an entry, so the planner finds one.
use autotrader_ai.Prelude.{ℕ, Bool, true, false, ◌&&◌, Option, none, some, List, [], ◌∷◌}
use autotrader_ai.Prelude.Int.{ℤ, pos, leb_ℤ}
use autotrader_ai.Prelude.Text.{Text, text}
use autotrader_ai.Float.{Float, fzero, fone, fixed_float}
use autotrader_ai.Domain.{Side, OptionRight, PositionEffect, OverlayType}

pub record LegSpec (W : Type 0) : Type 0 where
  pub right : OptionRight
  pub side : Side
  pub position_effect : PositionEffect
  pub ratio : ℤ
  pub target_delta : Option W
  pub dte_min : Option ℤ
  pub dte_max : Option ℤ
  pub prefer_longest : Bool

pub record ExitRule (W : Type 0) : Type 0 where
  pub dte_to_close : ℤ
  pub profit_target_pct : Option W
  pub close_on_reversal : Bool

pub record OverlayDef (W : Type 0) : Type 0 where
  pub requires_underlying : Bool
  pub legs : List (LegSpec W)
  pub single_expiry : Bool
  pub opens_stock : Bool
  pub dte_to_close : Option ℤ
  pub profit_target_pct : Option (Option W)

abbrev window_ok : Option ℤ → Option ℤ → Bool
window_ok (some lo) (some hi) = leb_ℤ lo hi
window_ok _ _ = true

abbrev from_zero : Option ℤ → Bool
from_zero none = true
from_zero (some n) = leb_ℤ (pos 0) n

module _ {W : Type 0} ⦃f : Float W⦄ where
  -- A leg with the defaults of the class.
  abbrev plain_leg : OptionRight → Side → LegSpec W
  plain_leg r s = record {
    right = r;
    side = s;
    position_effect = PositionEffect.opening;
    ratio = pos 1;
    target_delta = none;
    dte_min = none;
    dte_max = none;
    prefer_longest = false;
  }

  -- A leg that sets its delta, in hundredths, and its window of days.
  abbrev leg_at : OptionRight → Side → ℕ → ℕ → ℕ → LegSpec W
  leg_at r s delta lo hi = record (plain_leg r s) {
    target_delta = some (f.lit delta 2);
    dte_min = some (pos lo);
    dte_max = some (pos hi);
  }

  abbrev overlay_of : Bool → Bool → List (LegSpec W) → OverlayDef W
  overlay_of shares one_expiry legs = record {
    requires_underlying = shares;
    legs = legs;
    single_expiry = one_expiry;
    opens_stock = false;
    dte_to_close = none;
    profit_target_pct = none;
  }

  -- `REGISTRY`
  unfoldable pub registry : OverlayType → OverlayDef W
  registry OverlayType.covered_call =
      overlay_of true false (plain_leg OptionRight.call Side.sell ∷ [])
  registry OverlayType.protective_put =
      overlay_of true false (plain_leg OptionRight.put Side.buy ∷ [])
  registry OverlayType.collar =
      overlay_of true true
        (leg_at OptionRight.put Side.buy 30 30 45 ∷ leg_at OptionRight.call Side.sell 30 30 45 ∷ [])
  registry OverlayType.bear_put_spread =
      overlay_of false true
        (leg_at OptionRight.put Side.buy 45 30 45 ∷ leg_at OptionRight.put Side.sell 25 30 45 ∷ [])
  registry OverlayType.call_diagonal = overlay_of false false (
      leg_at OptionRight.call Side.buy 80 180 365 ∷ leg_at OptionRight.call Side.sell 30 30 45 ∷ [])
  registry OverlayType.leap =
      record (overlay_of false false
        (record (leg_at OptionRight.call Side.buy 80 180 730) { prefer_longest = true } ∷ [])) {
          dte_to_close = some (pos 120);
          profit_target_pct = some none;
        }

  delta_ok : Option W → Bool
  delta_ok none = true
  delta_ok (some d) = f.lt fzero d && f.le d fone

  -- `LegSpec.__post_init__`, as the answer whether the leg is accepted
  unfoldable pub leg_accepted : LegSpec W → Bool
  unfolding delta_ok
  leg_accepted l =
      leb_ℤ (pos 1) l.ratio
      && delta_ok l.target_delta
      && window_ok l.dte_min l.dte_max
      && from_zero l.dte_min
      && from_zero l.dte_max

-- `overlay.value`
abbrev pub overlay_value : OverlayType → Text
overlay_value OverlayType.covered_call = text "COVERED_CALL"
overlay_value OverlayType.protective_put = text "PROTECTIVE_PUT"
overlay_value OverlayType.collar = text "COLLAR"
overlay_value OverlayType.call_diagonal = text "CALL_DIAGONAL"
overlay_value OverlayType.bear_put_spread = text "BEAR_PUT_SPREAD"
overlay_value OverlayType.leap = text "LEAP"
