-- ===== src/Trading/Pricing.antt =====
-- autotrader/limit_pricing.py: the price of a capped marketable limit order. `none` is the exception
-- that rounding a NaN or an infinity raises.
use autotrader_ai.Prelude.{◌≡◌, true, Option, none, some, arith, if◌then◌else◌}
use autotrader_ai.Float.{Float, fzero, fone, fmax, fixed_float}
use autotrader_ai.Domain.{Side}
use autotrader_ai.Config.{RiskConfig}

module _ {W : Type 0} ⦃f : Float W⦄ where
  unfoldable pub tick_size : W → W
  tick_size price = if f.lt price fone then f.lit 1 4 else f.lit 1 2

  -- `price + cap` for a BUY, `price - cap` for a SELL
  unfoldable pub raw_limit : Side → W → RiskConfig W → W
  unfolding tick_size
  raw_limit side ref_price cfg =
      let cap_bps = f.mul (f.div cfg.order_cap_bps (f.lit 10_000 0)) ref_price in
      let margin = fmax cap_bps (f.mul cfg.order_cap_ticks (tick_size ref_price)) in
      elim side [ Side.buy ↦ f.add ref_price margin | Side.sell ↦ f.sub ref_price margin ]

  unfoldable pub capped_limit_price : Side → W → RiskConfig W → Option W
  unfolding raw_limit tick_size
  capped_limit_price side ref_price cfg =
      let tick = tick_size ref_price in
      elim (f.round (f.div (raw_limit side ref_price cfg) tick)) [
        | none ↦ none
        | some n ↦ let px = f.mul (f.of_int n) tick in some (if f.lt fzero px then px else tick)
      ]

  -- A limit price that is computed at all is positive, whatever the reference price and the caps,
  -- since the two ticks of the source are.
  pub capped_limit_price_positive :
      (side : Side) (ref_price : W) (cfg : RiskConfig W) {px : W}
      → f.lt fzero (f.lit 1 4) ≡ true
      → f.lt fzero (f.lit 1 2) ≡ true
      → capped_limit_price side ref_price cfg ≡ some px
      → f.lt fzero px ≡ true
  unfolding capped_limit_price tick_size
  capped_limit_price_positive side ref_price cfg small large h = ground arith
