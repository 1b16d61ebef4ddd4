-- ===== src/Engine/Tick.antt =====
-- autotrader/main.py, `TradeEngine.tick`, and autotrader/breakout_reference.py, whose cached high the
-- strategy gets.
use autotrader_ai.Prelude.{not, ◌&&◌, Option, none, some, List, [], ◌∷◌, if◌then◌else◌}
use autotrader_ai.Prelude.Int.{ℤ, pos, ◌-ℤ◌, leb_ℤ, max_ℤ}
use autotrader_ai.Prelude.Text.{Text, text_eq}
use autotrader_ai.Float.{Float, fixed_float}
use autotrader_ai.Engine.World.{Fault, ok, Action, ◌>>=◌, ◌>>◌, pure, gets, ask, from_option}
use autotrader_ai.Domain.{AccountSnapshot, Signal}
use autotrader_ai.Engine.Setup.{
  TickAction, halted, strategy_disabled, no_quote, no_signal, Setup, gate_halted, position_of,
  read_account, get_quote,
}
use autotrader_ai.Engine.Route.{route_signal}
use autotrader_ai.Engine.Deferral.{today_text, clear_cache}

-- `self._cache[key]`, if the key is there
unfoldable pub cached_high : {W : Type 0} → Text → Text → List ((Text × Text) × W) → Option W
cached_high day symbol [] = none
cached_high day symbol (e ∷ es) =
    if text_eq e.0.0 day && text_eq e.0.1 symbol then some e.1 else cached_high day symbol es

module _ {W S : Type 0} where
  unfoldable pub remember_high : Text → Text → W → Action W S (Unit {0})
  remember_high day symbol h st = (ok tt, record st { highs = ((day, symbol), h) ∷ st.highs })

  unfoldable pub set_cache : AccountSnapshot W → ℤ → Action W S (Unit {0})
  set_cache snap left st = (ok tt, record st { snap_cache = some snap; snap_cache_left = left })

module _ {W S : Type 0} ⦃f : Float W⦄ (c : Setup W S) where
  -- The request of a high that is not in the cache; an absent one is not cached.
  unfoldable pub fetch_high : Text → Text → Action W S (Option W)
  fetch_high day symbol = do
    h ← ask (c.world.recent_high symbol (max_ℤ (pos 1) c.lookback))
    elim h [ none ↦ pure none | some x ↦ remember_high day symbol x >> pure (some x) ]

  -- `BreakoutReference.high`
  unfoldable pub high : Text → Action W S (Option W)
  high symbol = do
    day ← gets (today_text c)
    highs ← gets (λ st. st.highs)
    elim (cached_high day symbol highs) [ some x ↦ pure (some x) | none ↦ fetch_high day symbol ]

  -- `_account_for_tick`
  unfoldable pub account_for_tick : Action W S (AccountSnapshot W)
  account_for_tick = do
    cache ← gets (λ st. st.snap_cache)
    left ← gets (λ st. st.snap_cache_left)
    let fetch = (do
      snap ← read_account c
      set_cache snap (max_ℤ (pos 1) c.snapshot_cache_ticks -ℤ pos 1)
      pure snap)
    if leb_ℤ left (pos 0)
        then fetch
        else elim cache [ none ↦ fetch | some snap ↦ set_cache snap (left -ℤ pos 1) >> pure snap ]

  -- What the strategy says of the symbol at its price.
  unfoldable pub ask_strategy : AccountSnapshot W → W → Action W S (Option (Signal W))
  ask_strategy snap price = do
    ref_high ← if c.has_reference then high c.strategy_symbol else pure none
    from_option Fault.bad_value (c.strategy price (position_of c.strategy_symbol snap) ref_high)

  -- From the signal on: the cache is dropped and the account read anew.
  unfoldable pub act_on : Signal W → W → Action W S TickAction
  act_on signal price = do clear_cache; snap ← read_account c; route_signal c signal snap price

  unfoldable pub run_strategy : Action W S TickAction
  run_strategy = do
    snap ← account_for_tick
    quote ← get_quote c c.strategy_symbol
    elim quote [
      | none ↦ pure no_quote
      | some price ↦ ask_strategy snap price >>= λ signal. elim signal [
        | none ↦ pure no_signal
        | some s ↦ act_on s price
      ]
    ]

  unfoldable pub tick : Action W S TickAction
  tick = do
    stops ← gets (λ st. gate_halted st.gate)
    if stops
        then pure halted
        else if not c.strategy_enabled
        then pure strategy_disabled
        else run_strategy
