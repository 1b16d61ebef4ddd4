-- ===== src/Engine/Vetting/Ticks.antt =====
-- autotrader/main.py, `TradeEngine.tick`: it leaves a sound log. The cached account feeds the strategy
-- only; what is routed is judged against the account read anew.
use autotrader_ai.Prelude.{refl, none, some}
use autotrader_ai.Prelude.Int.{ℤ, pos, leb_ℤ}
use autotrader_ai.Prelude.Text.{Text}
use autotrader_ai.Float.{Float, fixed_float}
use autotrader_ai.Domain.{AccountSnapshot, Signal}
use autotrader_ai.Config.{RiskConfig}
use autotrader_ai.Engine.Vetting.Vetted.{Known, sound}
use autotrader_ai.Engine.Vetting.Keeps.{
  Keeps, keeps_rules, Keeps-Quiet, Keeps-pure, Keeps-bind, Keeps-elim, Keeps-gets, Keeps-ask,
}
use autotrader_ai.Engine.Vetting.Steady.{get_quote-Keeps}
use autotrader_ai.Engine.Setup.{no_quote, no_signal, Setup}
use autotrader_ai.Engine.Vetting.Leaves.{
  Leaves, leaves_rules, Leaves-pure, Leaves-bind, Leaves-then, Leaves-if, Leaves-elim, Leaves-read,
}
use autotrader_ai.Engine.Tick.{
  remember_high, set_cache, fetch_high, high, account_for_tick, ask_strategy, act_on, run_strategy,
  tick, cached_high,
}
use autotrader_ai.Engine.Vetting.Window.{route_signal-Leaves}
use autotrader_ai.Engine.Vetting.Signals.{clear_cache-Keeps}

module _ {W S : Type 0} ⦃f : Float W⦄ {cfg : RiskConfig W} {k : Known W} where
  set_cache-Keeps :
      (snap : AccountSnapshot W) (left : ℤ) → Keeps {S = S} cfg k (set_cache snap left)
  unfolding set_cache
  set_cache-Keeps snap left = Keeps-Quiet (record { still = λ st. (refl, refl) })

  remember_high-Keeps :
      (day symbol : Text) (h : W) → Keeps {S = S} cfg k (remember_high day symbol h)
  unfolding remember_high
  remember_high-Keeps day symbol h = Keeps-Quiet (record { still = λ st. (refl, refl) })

module _ {W S : Type 0} ⦃f : Float W⦄ (c : Setup W S) where
  fetch_high-Keeps : {k : Known W} (day symbol : Text) → Keeps c.cfg k (fetch_high c day symbol)
  unfolding fetch_high
  fetch_high-Keeps day symbol =
      Keeps-bind _ _ (Keeps-ask _)
        (λ h. Keeps-elim h _ _ (Keeps-pure none) (λ x. search (keeps_rules, remember_high-Keeps)))

  high-Keeps : {k : Known W} (symbol : Text) → Keeps c.cfg k (high c symbol)
  unfolding high
  high-Keeps symbol = Keeps-bind _ _ (Keeps-gets _) (λ day. Keeps-bind _ _ (Keeps-gets _) (λ highs.
      Keeps-elim (cached_high day symbol highs) _ _ (fetch_high-Keeps day symbol)
        (λ x. Keeps-pure (some x))))

  account_for_tick-Leaves : Leaves c.cfg sound (account_for_tick c)
  unfolding account_for_tick
  account_for_tick-Leaves = Leaves-bind _ _ (Keeps-gets _) (λ cache.
      Leaves-bind _ _ (Keeps-gets _) (λ left.
        let fetch = Leaves-read c _ (λ snap. search (leaves_rules, set_cache-Keeps)) in
        Leaves-if (leb_ℤ left (pos 0)) _ _ (λ _. fetch)
          (λ _. Leaves-elim cache _ _ fetch (λ snap. search (leaves_rules, set_cache-Keeps)))))

  ask_strategy-Keeps :
      {k : Known W} (snap : AccountSnapshot W) (price : W)
      → Keeps c.cfg k (ask_strategy c snap price)
  unfolding ask_strategy
  ask_strategy-Keeps snap price = search (keeps_rules, high-Keeps)

  act_on-Leaves :
      {k : Known W} (signal : Signal W) (price : W) → Leaves c.cfg k (act_on c signal price)
  unfolding act_on
  act_on-Leaves signal price =
      Leaves-bind _ _ clear_cache-Keeps
        (λ _. Leaves-read c _ (λ snap. route_signal-Leaves c signal snap price))

  run_strategy-Leaves : Leaves c.cfg sound (run_strategy c)
  unfolding run_strategy
  run_strategy-Leaves = Leaves-then _ _ account_for_tick-Leaves (λ snap.
      Leaves-bind _ _ (get_quote-Keeps c c.strategy_symbol) (λ quote.
        Leaves-elim quote _ _ (Leaves-pure no_quote) (λ price.
          Leaves-bind _ _ (ask_strategy-Keeps snap price) (λ signal.
            Leaves-elim signal _ _ (Leaves-pure no_signal) (λ s. act_on-Leaves s price)))))

  pub tick-Leaves : Leaves c.cfg sound (tick c)
  unfolding tick
  tick-Leaves = search (leaves_rules, Keeps-gets, run_strategy-Leaves)
