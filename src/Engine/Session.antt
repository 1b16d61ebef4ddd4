-- ===== src/Engine/Session.antt =====
-- autotrader/main.py: a session as the calls that its runner makes of the engine and its gate, in any
-- order, and what holds of every order that it places.
use autotrader_ai.Prelude.{◌≡◌, true, Option, none, some, List, [], ◌∷◌, ◌++◌, arith}
use autotrader_ai.Prelude.Int.{ℤ, pos, ◌≤ℤ◌}
use autotrader_ai.Prelude.Text.{Text, contains, upper}
use autotrader_ai.Float.{Float, fixed_float}
use mathlib.Core.Path.{subst}
use autotrader_ai.Domain.{OrderRequest, AccountSnapshot, Signal}
use autotrader_ai.Config.{RiskConfig}
use autotrader_ai.Session.Gate.{EntryGate}
use autotrader_ai.Rebalance.{RebalanceTrade}
use autotrader_ai.Engine.World.{
  Result, ok, err, intent, placed, acked, account, cancelled, halting, Log, State, Action, ◌>>◌,
  pure,
}
use autotrader_ai.Engine.Audit.{IsAudited}
use autotrader_ai.Engine.Vetting.Vetted.{
  Sound, sound, Holds, EndsIn, Vetted, IsVetted, has_halted, last_account,
}
use autotrader_ai.Engine.Vetting.Keeps.{Keeps-ask}
use autotrader_ai.Engine.Setup.{Setup}
use autotrader_ai.Engine.Vetting.Leaves.{Leaves, leaves_rules, Leaves-then, Leaves-Keeps}
use autotrader_ai.Risk.Core.{paper, resulting_qty}
use autotrader_ai.Risk.Equity.{approved_long_only}
use autotrader_ai.Engine.Trailing.{attach_trailing_stop, consolidate_stop}
use autotrader_ai.Engine.Deferral.{
  submit_external_signal, flush_deferred_entries, restore_deferred_entries,
}
use autotrader_ai.Engine.Tick.{tick}
use autotrader_ai.Engine.Rebalancing.{rebalance, submit_rebalance_order}
use autotrader_ai.Engine.LossCheck.{close_entries, open_entries, apply_risk_check, shutdown}
use autotrader_ai.Engine.Vetting.Orders.{attach_trailing_stop-Leaves, consolidate_stop-Leaves}
use autotrader_ai.Engine.Vetting.Signals.{
  submit_external_signal-Leaves, flush_deferred_entries-Leaves, restore_deferred_entries-Keeps,
}
use autotrader_ai.Engine.Vetting.Ticks.{tick-Leaves}
use autotrader_ai.Engine.Vetting.Liquidation.{rebalance-Leaves, submit_rebalance_order-Leaves}
use autotrader_ai.Engine.Vetting.Halting.{
  close_entries-Keeps, open_entries-Keeps, apply_risk_check-Leaves,
}

-- The public methods of the engine, with its construction, and the calls of the gate between them.
pub data Call (W : Type 0) : Type 0 where
  constructed ticked flushed rebalancing opened closed shut : Call W
  signalled : Signal W → Call W
  checked : (day : Text) → Call W
  stop_attached : (symbol : Text) → ℤ → W → (tag : Text) → Call W
  stop_resized : (symbol : Text) → ℤ → W → (round_id : Text) → Call W
  traded : RebalanceTrade → W → (round_id : Text) → Call W

module _ {W S : Type 0} ⦃f : Float W⦄ (c : Setup W S) where
  unfoldable pub run_call : Call W → Action W S (Unit {0})
  run_call constructed = restore_deferred_entries c
  run_call ticked = tick c >> pure tt
  run_call flushed = flush_deferred_entries c >> pure tt
  run_call rebalancing = rebalance c >> pure tt
  run_call opened = open_entries
  run_call closed = close_entries
  run_call shut = shutdown c
  run_call (signalled signal) = submit_external_signal c signal >> pure tt
  run_call (checked day) = apply_risk_check c day >> pure tt
  run_call (stop_attached symbol qty px tag) = attach_trailing_stop c symbol qty px tag >> pure tt
  run_call (stop_resized symbol qty px round_id) = consolidate_stop c symbol qty px round_id
  run_call (traded trade px round_id) = submit_rebalance_order c trade px round_id >> pure tt

  -- One call after the other. A call that raises ends where it raised, and the session goes on.
  unfoldable pub serve : List (Call W) → State W S → State W S
  serve [] st = st
  serve (call ∷ calls) st = serve calls (run_call call st).1

  run_call-Leaves : (call : Call W) → Leaves c.cfg sound (run_call call)
  unfolding run_call shutdown
  run_call-Leaves constructed = Leaves-Keeps _ (restore_deferred_entries-Keeps c)
  run_call-Leaves ticked = search (leaves_rules, Leaves-then, tick-Leaves)
  run_call-Leaves flushed = search (leaves_rules, Leaves-then, flush_deferred_entries-Leaves)
  run_call-Leaves rebalancing = search (leaves_rules, Leaves-then, rebalance-Leaves)
  run_call-Leaves opened = Leaves-Keeps _ open_entries-Keeps
  run_call-Leaves closed = Leaves-Keeps _ close_entries-Keeps
  run_call-Leaves shut = Leaves-Keeps _ (Keeps-ask _)
  run_call-Leaves (signalled signal) =
      search (leaves_rules, Leaves-then, submit_external_signal-Leaves)
  run_call-Leaves (checked day) = search (leaves_rules, Leaves-then, apply_risk_check-Leaves)
  run_call-Leaves (stop_attached symbol qty px tag) =
      search (leaves_rules, Leaves-then, attach_trailing_stop-Leaves)
  run_call-Leaves (stop_resized symbol qty px round_id) =
      consolidate_stop-Leaves c symbol qty px round_id
  run_call-Leaves (traded trade px round_id) =
      search (leaves_rules, Leaves-then, submit_rebalance_order-Leaves)

  -- Whatever a method answers, it leaves a sound log.
  ends_sound :
      (r : Result (Unit {0})) (st : State W S)
      → EndsIn c.cfg (λ _. sound) r st
      → Sound c.cfg st.log st.gate
  unfolding EndsIn Holds
  ends_sound (ok a) st h = h
  ends_sound (err e) st h = h

  -- Every sequence of calls of the engine, whatever the broker, the disk and the clock answer and
  -- wherever a call raises, keeps the log sound: each order that reached the broker comes directly
  -- after its line of intent in the audit file, was approved by the gate against the account that
  -- was read last before it, and, if it opens a position by a BUY, comes before any halt of the
  -- session; and once the session was halted its gate stays halted.
  pub serve-Sound :
      (calls : List (Call W)) (st : State W S)
      → Sound c.cfg st.log st.gate
      → Sound c.cfg (serve calls st).log (serve calls st).gate
  unfolding serve Holds
  serve-Sound [] st h = h
  serve-Sound (call ∷ calls) st h =
      serve-Sound calls (run_call call st).1
        (ends_sound (run_call call st).0 _ ((run_call-Leaves call).runs.at st h))

module _ {W : Type 0} ⦃f : Float W⦄ (cfg : RiskConfig W) where
  IsVetted-placed :
      (later before : Log W) (req : OrderRequest W)
      → IsVetted cfg (later ++ placed req ∷ before)
      → Vetted cfg req before
  unfolding IsVetted
  IsVetted-placed [] before req v = v.0
  IsVetted-placed (placed _ ∷ later) before req v = IsVetted-placed later before req v.1
  IsVetted-placed (intent _ ∷ later) before req v = IsVetted-placed later before req v
  IsVetted-placed (acked _ _ ∷ later) before req v = IsVetted-placed later before req v
  IsVetted-placed (account _ ∷ later) before req v = IsVetted-placed later before req v
  IsVetted-placed (cancelled _ ∷ later) before req v = IsVetted-placed later before req v
  IsVetted-placed (halting ∷ later) before req v = IsVetted-placed later before req v

  pub Sound-fresh : (gate : Option EntryGate) → Sound cfg [] gate
  unfolding IsAudited IsVetted has_halted
  Sound-fresh gate = record { audited = tt; vetted = tt; gated = λ h. absurd (ground arith) }

module _ {W S : Type 0} ⦃f : Float W⦄ (c : Setup W S) where
  -- Every order on shares that a session places from its start on, by whatever sequence of calls, is
  -- for a paper account and an allowed symbol and leads from the position in the account read last
  -- to one from 0 up to the position cap. Each order is judged by itself against that account, with
  -- the orders that were placed since it was read not counted.
  pub placed_long_only :
      (calls : List (Call W)) (st : State W S) (later before : Log W) (req : OrderRequest W)
      → st.log ≡ []
      → (serve c calls st).log ≡ later ++ placed req ∷ before
      → req.option ≡ none
      → (c.cfg.trading_env ≡ paper)
        × (contains (upper req.symbol) c.cfg.allowed_symbols ≡ true)
        × ((snap : AccountSnapshot W) × (last_account before ≡ some snap)
            × (pos 0 ≤ℤ resulting_qty req snap)
            × (resulting_qty req snap ≤ℤ c.cfg.max_position_qty))
  placed_long_only calls st later before req start e shares =
      let s : Sound c.cfg st.log st.gate = rw start (Sound-fresh c.cfg st.gate) in
      let vetted : IsVetted c.cfg (later ++ placed req ∷ before) =
        subst (IsVetted c.cfg) e (serve-Sound c calls st s).vetted in
      let v = IsVetted-placed c.cfg later before req vetted in
      let (env, fresh, allowed, priced, low, high) =
        approved_long_only req v.snap c.cfg v.ref_price v.coverage_legs shares v.approved in
      (env, allowed, (v.snap, v.latest, low, high))
