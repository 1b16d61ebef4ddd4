-- ===== src/Options/Planner.antt =====
-- autotrader/options/planner.py: an overlay signal as the orders of its legs. The chain and the quotes
-- of the broker are functions, and so is the digest in an order id. `raised` is the exception that
-- rounding a limit price raises.
use autotrader_ai.Prelude.{
  ℕ, suc, ◌+◌, Bool, true, not, ◌||◌, Option, none, some, List, [], ◌∷◌, ◌++◌, ltb, ◌==◌,
  if◌then◌else◌, or_default, keep,
}
use autotrader_ai.Prelude.Int.{ℤ, pos, ◌*ℤ◌, floordiv_ℕ, ltb_ℤ, min_ℤ}
use autotrader_ai.Prelude.Text.{Text, text, contains, upper}
use autotrader_ai.Float.{Float, fzero, fixed_float}
use autotrader_ai.Domain.{
  Side, side_eq, OrderType, OptionRight, PositionEffect, OverlayType, Signal, OrderRequest,
  AccountSnapshot, position_qty,
}
use autotrader_ai.Config.{RiskConfig}
use autotrader_ai.Trading.Pricing.{capped_limit_price}
use autotrader_ai.Options.Chain.{OptionQuote, Wanted, select_contract, to_contract}
use autotrader_ai.Options.Overlays.{LegSpec, ExitRule, OverlayDef, registry, overlay_value}

pub data SkipReason : Type 0 where
  overlay_disabled no_underlying no_contract invalid_structure : SkipReason

pub data Planned (A : Type 0) : Type 0 where
  planned : A → Planned A
  skipped : SkipReason → Planned A
  raised : Planned A

infixl 5 ◌>>=◌
abbrev pub ◌>>=◌ : {A B : Type 0} → Planned A → (A → Planned B) → Planned B
planned a >>= k = k a
skipped r >>= k = skipped r
raised >>= k = raised

pub record OverlayLeg (W : Type 0) : Type 0 where
  pub request : OrderRequest W
  pub quote : OptionQuote W

pub record OverlayPlan (W : Type 0) : Type 0 where
  pub overlay : OverlayType
  pub underlying : Text
  pub legs : List (OverlayLeg W)
  pub exit : ExitRule W
  pub correlation_id : Text

-- What the planner reads from the broker, and the hexadecimal digest of the joined parts of an id.
pub record Provider (W : Type 0) : Type 0 where
  pub get_quote : Text → Option W
  pub get_option_chain : Text → OptionRight → ℤ → ℤ → List (OptionQuote W)
  pub digest : Text → Side → ℤ → Text → Text

-- `OrderRouter.make_client_order_id`
unfoldable pub make_client_order_id : {W : Type 0} → Provider W → Text → Side → ℤ → Text → Text
make_client_order_id p symbol side qty signal_id = text "at-" ++ p.digest symbol side qty signal_id

module _ {W : Type 0} ⦃f : Float W⦄ where
  abbrev pub of_side : Side → List (OverlayLeg W) → List (OverlayLeg W)
  of_side s = keep (λ l. side_eq l.request.side s)

  -- A structure that would not bound the risk of its short leg. Where a side has no leg the source
  -- would raise; the registry gives each of these overlays both.
  unfoldable pub spread_invalid : OptionQuote W → OptionQuote W → Bool
  spread_invalid lo sh =
      not (lo.expiry == sh.expiry)
      || not (f.lt sh.strike lo.strike)
      || f.le (f.sub lo.premium sh.premium) fzero

  unfoldable pub diagonal_invalid : OptionQuote W → OptionQuote W → Bool
  diagonal_invalid lo sh = not (f.le lo.strike sh.strike) || not (ltb sh.expiry lo.expiry)

  check_pair :
      (OptionQuote W → OptionQuote W → Bool)
      → List (OverlayLeg W)
      → List (OverlayLeg W)
      → Planned (Unit {0})
  check_pair bad (lo ∷ _) (sh ∷ _) =
      if bad lo.quote sh.quote then skipped invalid_structure else planned tt
  check_pair bad _ _ = raised

  unfoldable pub validate_structure : OverlayType → List (OverlayLeg W) → Planned (Unit {0})
  unfolding check_pair
  validate_structure OverlayType.bear_put_spread legs =
      check_pair spread_invalid (of_side Side.buy legs) (of_side Side.sell legs)
  validate_structure OverlayType.call_diagonal legs =
      check_pair diagonal_invalid (of_side Side.buy legs) (of_side Side.sell legs)
  validate_structure _ legs = planned tt

  -- The number of contracts of a plan: held lots, or the configured count.
  unfoldable pub plan_contracts : OverlayDef W → AccountSnapshot W → RiskConfig W → Text → Planned ℤ
  plan_contracts deff snapshot cfg underlying =
      let covered =
        min_ℤ (floordiv_ℕ (position_qty snapshot underlying) 100) cfg.max_option_contracts in
      let uncovered = min_ℤ cfg.option_default_contracts cfg.max_option_contracts in
      if deff.requires_underlying
      then (if ltb_ℤ covered (pos 1) then skipped no_underlying else planned covered)
      else (if ltb_ℤ uncovered (pos 1) then skipped overlay_disabled else planned uncovered)

  -- The type and price of a leg's order.
  unfoldable pub leg_kind : RiskConfig W → Side → W → Planned (OrderType × Option W)
  leg_kind cfg side premium =
      if not cfg.limit_orders_enabled
      then planned (OrderType.market, none)
      else elim (capped_limit_price side premium cfg) [
        | none ↦ raised
        | some px ↦ planned (OrderType.limit, some px)
      ]

module _ {W : Type 0} ⦃f : Float W⦄ (provider : Provider W) (cfg : RiskConfig W)
    (overlay : OverlayType) (underlying signal_id : Text) (asof : ℕ) (contracts : ℤ) where
  -- the decimal of a leg's index, which is below ten
  abbrev index_text : ℕ → Text
  index_text i = (b'0' + i) ∷ []

  abbrev pub correlation : Text
  correlation = text "ov-" ++ signal_id ++ text "-" ++ overlay_value overlay

  -- The bounds that a leg sets, or those of the configuration.
  unfoldable pub wanted_by : LegSpec W → Option ℕ → Wanted W
  wanted_by spec pin = record {
    right = spec.right;
    target_delta = or_default spec.target_delta cfg.option_target_delta;
    dte_min = or_default spec.dte_min cfg.option_dte_min;
    dte_max = or_default spec.dte_max cfg.option_dte_max;
    pin_expiry = pin;
    prefer_longest = spec.prefer_longest;
  }

  -- The body of the loop over the legs: the i-th leg, at the expiry that it is pinned to.
  unfoldable pub plan_leg : ℕ → LegSpec W → Option ℕ → Planned (OverlayLeg W)
  plan_leg i spec pin =
      let w = wanted_by spec pin in
      let quotes = provider.get_option_chain underlying spec.right w.dte_min w.dte_max in
      elim (select_contract quotes w asof) [
        | none ↦ skipped no_contract
        | some q ↦ leg_kind cfg spec.side q.premium >>= λ kind.
            let qty = contracts *ℤ spec.ratio in
            planned (record {
              request = record {
                symbol = q.code;
                side = spec.side;
                qty = qty;
                order_type = kind.0;
                limit_price = kind.1;
                client_order_id =
                    make_client_order_id provider q.code spec.side qty
                      (signal_id ++ text "-" ++ overlay_value overlay ++ text "-" ++ index_text i);
                trail_percent = none;
                option = some (to_contract q);
                position_effect = spec.position_effect;
                correlation_id = some correlation;
              };
              quote = q;
            })
      ]

  -- The legs after the first; `pin` is the anchor's expiry where the overlay keeps one expiry.
  unfoldable pub plan_rest : ℕ → List (LegSpec W) → Option ℕ → Planned (List (OverlayLeg W))
  plan_rest i [] pin = planned []
  plan_rest i (spec ∷ specs) pin =
      plan_leg i spec pin >>= λ leg. plan_rest (suc i) specs pin >>= λ legs. planned (leg ∷ legs)

  -- The loop: the first leg is the anchor.
  unfoldable pub plan_legs : OverlayDef W → List (LegSpec W) → Planned (List (OverlayLeg W))
  plan_legs deff [] = planned []
  plan_legs deff (spec ∷ specs) = plan_leg 0 spec none >>= λ anchor.
      plan_rest 1 specs (if deff.single_expiry then some anchor.quote.expiry else none) >>= λ legs.
      planned (anchor ∷ legs)

  -- The BUY of shares that an overlay may open with.
  unfoldable pub stock_leg : W → OverlayLeg W
  stock_leg stock_px =
      let shares = contracts *ℤ pos 100 in
      record {
        request = record {
          symbol = underlying;
          side = Side.buy;
          qty = shares;
          order_type = OrderType.market;
          limit_price = none;
          client_order_id =
              make_client_order_id provider underlying Side.buy shares
                (signal_id ++ text "-" ++ overlay_value overlay ++ text "-stock");
          trail_percent = none;
          option = none;
          position_effect = PositionEffect.opening;
          correlation_id = some correlation;
        };
        quote = record {
          code = underlying;
          underlying = underlying;
          expiry = asof;
          strike = stock_px;
          right = OptionRight.call;
          delta = fzero;
          premium = stock_px;
        };
      }

  unfoldable pub opening_stock : OverlayDef W → Planned (List (OverlayLeg W))
  opening_stock deff =
      if not deff.opens_stock then planned [] else elim (provider.get_quote underlying) [
        | none ↦ skipped no_underlying
        | some px ↦ if f.le px fzero then skipped no_underlying else planned (stock_leg px ∷ [])
      ]

  unfoldable pub exit_rule : OverlayDef W → ExitRule W
  exit_rule deff = record {
    dte_to_close = or_default deff.dte_to_close cfg.option_dte_to_close;
    profit_target_pct = or_default deff.profit_target_pct (some cfg.option_profit_target_pct);
    close_on_reversal = true;
  }

  -- Everything after the count of contracts.
  unfoldable pub plan_overlay : OverlayDef W → Planned (OverlayPlan W)
  plan_overlay deff = opening_stock deff >>= λ stock. plan_legs deff deff.legs >>= λ option_legs.
      validate_structure overlay (stock ++ option_legs) >>= λ _. planned (record {
        overlay = overlay;
        underlying = underlying;
        legs = stock ++ option_legs;
        exit = exit_rule deff;
        correlation_id = correlation;
      })

module _ {W : Type 0} ⦃f : Float W⦄ where
  -- `build_overlay_plan`, for a signal whose overlay is set
  unfoldable pub build_overlay_plan :
      OverlayType
      → Signal W
      → AccountSnapshot W
      → Provider W
      → RiskConfig W
      → Text
      → ℕ
      → Planned (OverlayPlan W)
  build_overlay_plan overlay signal snapshot provider cfg signal_id asof =
      let underlying = upper signal.symbol in
      let deff = registry overlay in
      if not (contains (overlay_value overlay) cfg.allowed_overlays)
      then skipped overlay_disabled
      else (plan_contracts deff snapshot cfg underlying >>= λ contracts.
          plan_overlay provider cfg overlay underlying signal_id asof contracts deff)
