-- ===== src/Risk/Options.antt =====
-- What the approval of an option leg promises: cover for what is sold, a budget for what is bought.
use autotrader_ai.Prelude.{
  ℕ, ◌+◌, ◌*◌, ◌<◌, ◌≡◌, true, false, not, ◌&&◌, Option, some, List, [], arith, if◌then◌else◌,
  or_default,
}
use autotrader_ai.Prelude.Int.{ℤ, pos, negsuc, ◌+ℤ◌, ◌≤ℤ◌, floordiv_ℕ, leb_ℤ, int_laws}
use autotrader_ai.Prelude.Text.{text_eq, contains, upper}
use autotrader_ai.Float.{Float, IsOrdered, fzero, fixed_float}
use autotrader_ai.Domain.{
  Side, PositionEffect, OptionRight, OptionContract, OrderRequest, AccountSnapshot, position_qty,
  short_option_contracts,
}
use autotrader_ai.Config.{RiskConfig}
use autotrader_ai.Risk.Core.{
  paper, is_call, unusable, limit_or, breached, evaluate_option_leg, evaluate, available_cover,
  long_cover_contracts,
}

module _ {W : Type 0} ⦃f : Float W⦄ (opt : OptionContract W) (req : OrderRequest W)
    (snap : AccountSnapshot W) (cfg : RiskConfig W) (ref : Option W)
    (legs : List (OrderRequest W)) where
  evaluate_leg :
      req.option ≡ some opt
      → (evaluate req snap cfg ref legs).approved ≡ true
      → (text_eq cfg.trading_env paper ≡ true)
        × (snap.stale ≡ false)
        × ((evaluate_option_leg opt req snap cfg ref legs).approved ≡ true)
  unfolding evaluate
  evaluate_leg = ground arith

  within_available :
      req.side ≡ Side.sell
      → req.position_effect ≡ PositionEffect.opening
      → (evaluate_option_leg opt req snap cfg ref legs).approved ≡ true
      → req.qty ≤ℤ available_cover req opt snap legs
  unfolding evaluate_option_leg
  within_available s o a = ground arith

  -- A short option leg that the gate lets open is covered: together with the short contracts that
  -- are open already it is within what the held shares cover, which cover calls alone, plus what
  -- the long legs of the plan cover.
  pub approved_short_covered :
      req.option ≡ some opt
      → req.side ≡ Side.sell
      → req.position_effect ≡ PositionEffect.opening
      → (evaluate req snap cfg ref legs).approved ≡ true
      → let underlying = upper opt.underlying in
        let shares : ℤ =
          if is_call opt.right
          then floordiv_ℕ (position_qty snap underlying) opt.multiplier
          else pos 0 in
        req.qty +ℤ pos (short_option_contracts snap underlying opt.right)
        ≤ℤ shares +ℤ long_cover_contracts legs opt
  unfolding available_cover
  approved_short_covered h s o a =
      let fits = within_available s o (evaluate_leg h a).2 in omega int_laws

  -- A CLOSE of an option position is approved exactly when the account is on paper, the snapshot
  -- fresh, the underlying allowed, the premium usable and the count within the contract cap: the
  -- day's loss, the cover and the premium budget have no say in it.
  pub close_approved_iff :
      req.option ≡ some opt
      → req.position_effect ≡ PositionEffect.closing
      → (evaluate req snap cfg ref legs).approved ≡ (
          text_eq cfg.trading_env paper
          && not snap.stale
          && contains (upper opt.underlying) cfg.allowed_symbols
          && not (unusable (limit_or req ref))
          && leb_ℤ req.qty cfg.max_option_contracts)
  unfolding evaluate evaluate_option_leg
  close_approved_iff h c = ground arith

  -- An option leg that the gate lets open on the long side costs no more than its share of the
  -- account, where both are numbers, and is not opened on a day whose loss is past its limit. Floats are
  -- ordered (`IsOrdered`).
  pub approved_debit_budget :
      (laws : IsOrdered W)
      → let gross =
          f.mul
            (f.mul (f.of_int req.qty) (or_default (limit_or req ref) fzero))
            (f.of_int (pos opt.multiplier)) in
        let budget = f.mul snap.total_assets cfg.option_max_risk_pct in
        f.le budget budget ≡ true
        → req.option ≡ some opt
        → req.side ≡ Side.buy
        → req.position_effect ≡ PositionEffect.opening
        → (evaluate req snap cfg ref legs).approved ≡ true
        → (f.le gross budget ≡ true) × (breached snap.day_pnl cfg.daily_loss_limit ≡ false)
  unfolding evaluate_option_leg
  approved_debit_budget laws num h b o a =
      let gross =
        f.mul (f.mul (f.of_int req.qty) (or_default (limit_or req ref) fzero))
          (f.of_int (pos opt.multiplier)) in
      let leg = (evaluate_leg h a).2 in
      ground (
        arith,
        laws.finite_num gross,
        laws.lt-eq-not-le (f.mul snap.total_assets cfg.option_max_risk_pct) gross num,
      )

-- Floor division undone: whole lots of `m` that fit in `h`.
lots_le : (k m : ℕ) (h : ℤ) → pos k ≤ℤ floordiv_ℕ h m → 0 < m → pos (k * m) ≤ℤ h
lots_le k m (pos n) p q = grind arith
lots_le k m (negsuc n) p q = grind arith

module _ {W : Type 0} ⦃f : Float W⦄ (opt : OptionContract W) (req : OrderRequest W)
    (snap : AccountSnapshot W) (cfg : RiskConfig W) (ref : Option W) where
  -- A short call that the gate lets open with no long leg beside it is covered share for share:
  -- the account holds the shares of all the contracts short after it.
  pub approved_call_has_shares :
      (q : ℕ)
      → req.qty ≡ pos q
      → 0 < opt.multiplier
      → req.option ≡ some opt
      → opt.right ≡ OptionRight.call
      → req.side ≡ Side.sell
      → req.position_effect ≡ PositionEffect.opening
      → (evaluate req snap cfg ref []).approved ≡ true
      → pos ((q + short_option_contracts snap (upper opt.underlying) opt.right) * opt.multiplier)
        ≤ℤ position_qty snap (upper opt.underlying)
  unfolding long_cover_contracts
  approved_call_has_shares q e m h c s o a =
      let fits = approved_short_covered opt req snap cfg ref [] h s o a in
      lots_le (q + short_option_contracts snap (upper opt.underlying) opt.right) opt.multiplier
        (position_qty snap (upper opt.underlying)) (grind int_laws) m
