-- ===== src/Trading/Strategies.antt =====
-- autotrader/strategies: the shared exit rule and the two stateless strategies. The outer option is
-- the exception of a division by a zero cost; a rationale is given without the figures it quotes.
use autotrader_ai.Prelude.{
  ◌≡◌, refl, ◌⊎◌, inl, inr, Bool, true, false, not, ◌&&◌, Option, none, some, arith, if◌then◌else◌,
  Bool-cases,
}
use autotrader_ai.Prelude.Int.{ℤ, pos, ◌<ℤ◌, ltb_ℤ, leb_ℤ, eqb_ℤ}
use autotrader_ai.Prelude.Text.{Text, text}
use autotrader_ai.Float.{Float, fzero, fone, fixed_float}
use autotrader_ai.Domain.{Side, Position, Signal}

-- `position.qty if position else 0`
abbrev pub held_qty : {W : Type 0} → Option (Position W) → ℤ
held_qty none = pos 0
held_qty (some p) = p.qty

module _ {W : Type 0} ⦃f : Float W⦄ where
  abbrev plain : Text → Side → W → Text → Signal W
  plain s d c why = record {
    symbol = s;
    direction = d;
    confidence = c;
    rationale = why;
    stop_price = none;
    overlay = none;
  }

  -- The return on the average cost, against the stop and the target.
  exit_on : Text → W → W → W → W → Option (Signal W)
  exit_on symbol change stop_loss_pct take_profit_pct confidence =
      if f.le change (f.neg stop_loss_pct)
      then some (plain symbol Side.sell confidence (text "stop-loss hit"))
      else if f.le take_profit_pct change
      then some (plain symbol Side.sell confidence (text "take-profit hit"))
      else none

  unfoldable pub manage_long_exit :
      Text → W → Option (Position W) → W → W → W → Option (Option (Signal W))
  unfolding exit_on
  manage_long_exit symbol price none stop_loss_pct take_profit_pct confidence = some none
  manage_long_exit symbol price (some p) stop_loss_pct take_profit_pct confidence =
      if leb_ℤ p.qty (pos 0)
      then some none
      else if f.eq p.avg_price fzero
      then none
      else some (
          exit_on symbol (f.div (f.sub price p.avg_price) p.avg_price) stop_loss_pct take_profit_pct
            confidence)

-- The parameters of both strategies; a threshold strategy has its entry price besides.
pub record StrategyParams (W : Type 0) : Type 0 where
  pub symbol : Text
  pub stop_loss_pct : W
  pub take_profit_pct : W
  pub confidence : W

pub data ParamsError : Type 0 where
  no_stop no_target bad_confidence : ParamsError

module _ {W : Type 0} ⦃f : Float W⦄ where
  -- `__post_init__` of either class
  unfoldable pub check_params : StrategyParams W → Option ParamsError
  check_params p =
      if f.le p.stop_loss_pct fzero
      then some no_stop
      else if f.le p.take_profit_pct fzero
      then some no_target
      else if not (f.le fzero p.confidence && f.le p.confidence fone)
      then some bad_confidence
      else none

  -- Exit while a long is held; while flat, enter if the entry test passes.
  abbrev evaluate_with :
      StrategyParams W → Bool → Text → W → Option (Position W) → Option (Option (Signal W))
  evaluate_with p enter why price position =
      if ltb_ℤ (pos 0) (held_qty position)
      then manage_long_exit p.symbol price position p.stop_loss_pct p.take_profit_pct p.confidence
      else if eqb_ℤ (held_qty position) (pos 0) && enter
      then some (some (plain p.symbol Side.buy p.confidence why))
      else some none

  abbrev above : W → Option W → Bool
  above price none = false
  above price (some high) = f.lt high price

  -- `BreakoutStrategy.evaluate`
  unfoldable pub breakout :
      StrategyParams W → W → Option (Position W) → Option W → Option (Option (Signal W))
  breakout p price position ref_high =
      evaluate_with p (above price ref_high) (text "breakout") price position

  -- `ThresholdStrategy.evaluate`, which ignores the reference
  unfoldable pub threshold :
      StrategyParams W → W → W → Option (Position W) → Option W → Option (Option (Signal W))
  threshold p entry_price price position ref_high =
      evaluate_with p (f.le entry_price price) (text "price at entry") price position

  exit_is_sell :
      (symbol : Text) (change sl tp c : W) (s : Signal W)
      → exit_on symbol change sl tp c ≡ some s
      → s.direction ≡ Side.sell
  unfolding exit_on
  exit_is_sell symbol change sl tp c s h = ground arith

  manage_is_sell :
      (symbol : Text) (price : W) (position : Option (Position W)) (sl tp c : W) (s : Signal W)
      → manage_long_exit symbol price position sl tp c ≡ some (some s)
      → (s.direction ≡ Side.sell) × (pos 0 <ℤ held_qty position)
  unfolding manage_long_exit
  manage_is_sell symbol price none sl tp c s h = ground arith
  manage_is_sell symbol price (some p) sl tp c s h =
      ground (arith, exit_is_sell symbol (f.div (f.sub price p.avg_price) p.avg_price) sl tp c s)

  -- The breakout strategy buys only while flat and only above a reference high that it was given:
  -- with no reference it never enters. It sells only while a long is held.
  pub breakout_signals :
      (p : StrategyParams W) (price : W) (position : Option (Position W)) (ref_high : Option W)
      (s : Signal W)
      → breakout p price position ref_high ≡ some (some s)
      → ((s.direction ≡ Side.buy)
          × (held_qty position ≡ pos 0)
          × ((high : W) × (ref_high ≡ some high) × (f.lt high price ≡ true)))
        ⊎ ((s.direction ≡ Side.sell) × (pos 0 <ℤ held_qty position))
  unfolding breakout
  breakout_signals p price position ref_high s h =
      elim (Bool-cases (ltb_ℤ (pos 0) (held_qty position))) [
        | inl long ↦ inr (
            manage_is_sell p.symbol price position p.stop_loss_pct p.take_profit_pct p.confidence s
              (rw (long, breakout) at h))
        | inr flat ↦ inl (entered ref_high flat h)
      ]
    where
      entered :
          (r : Option W)
          → ltb_ℤ (pos 0) (held_qty position) ≡ false
          → breakout p price position r ≡ some (some s)
          → (s.direction ≡ Side.buy)
            × (held_qty position ≡ pos 0)
            × ((high : W) × (r ≡ some high) × (f.lt high price ≡ true))
      entered none flat e = absurd (ground arith)
      entered (some high) flat e = (ground arith, ground arith, (high, refl, ground arith))

  -- While a long is held the two strategies ask for the same exit.
  pub strategies_exit_alike :
      (p : StrategyParams W) (entry_price price : W) (position : Option (Position W))
      (ref_high other : Option W)
      → pos 0 <ℤ held_qty position
      → breakout p price position ref_high ≡ threshold p entry_price price position other
  unfolding breakout threshold
  strategies_exit_alike p entry_price price position ref_high other h = ground arith
