-- ===== src/Stops/Reconcile.antt =====
-- autotrader/stops.py, `StopManager.reconcile` as an action on the engine's world: the sweep of orphans,
-- and the stops that are attached to the longs without one.
use autotrader_ai.Prelude.{
  ℕ, suc, ◌+◌, Bool, false, not, ◌&&◌, ◌||◌, Option, none, some, List, [], ◌∷◌, ◌++◌, foldl,
  if◌then◌else◌, keep,
}
use autotrader_ai.Prelude.Int.{ℤ, pos, ltb_ℤ}
use autotrader_ai.Prelude.Text.{Text, text, contains}
use autotrader_ai.Float.{Float, fzero, fixed_float}
use autotrader_ai.Domain.{OrderAck, AccountSnapshot, Position}
use autotrader_ai.Db.Tables.{Tables, get_open_trailing_stop, mark_order_cancelled}
use autotrader_ai.Rebalance.{set_key}
use autotrader_ai.Engine.World.{
  Fault, Action, ◌>>=◌, ◌>>◌, pure, gets, ask, tell, with_db, from_option, try_broker,
}
use autotrader_ai.Engine.Setup.{Setup, read_account, get_quote, cancel}
use autotrader_ai.Domain.{is_option_symbol}
use autotrader_ai.Rebalance.{sort_keys}
use autotrader_ai.Stops.Orphans.{orphan_ids, held_longs, protects}
use autotrader_ai.Engine.Trailing.{attach_trailing_stop}

-- `StopReconcileResult`
pub record Tally : Type 0 where
  pub attached : ℕ
  pub attach_failed : ℕ
  pub orphans_cancelled : ℕ
  pub already_protected : ℕ
  pub skipped_no_quote : ℕ

abbrev pub swept : ℕ → Tally
swept n = record {
  attached = 0;
  attach_failed = 0;
  orphans_cancelled = n;
  already_protected = 0;
  skipped_no_quote = 0;
}

-- The quantities of the longs in shares; the last position of a symbol counts.
unfoldable pub held_qtys : {W : Type 0} → AccountSnapshot W → List (Text × ℤ)
held_qtys snap =
    foldl (λ d (p : Position _). set_key p.symbol p.qty d) []
      (keep (λ (p : Position _). ltb_ℤ (pos 0) p.qty && not (is_option_symbol p.symbol))
        snap.positions)

module _ {W S : Type 0} where
  -- The tables, which the manager is always given.
  unfoldable pub stored : Action W S (Tables W)
  stored = gets (λ st. st.db) >>= from_option Fault.missing_key

-- `alert` is the message on a long without a stop, which is posted; a failure of it is caught.
module _ {W S : Type 0} ⦃f : Float W⦄ (c : Setup W S) (alert : Text → S → S) where
  -- The body of the first loop: 1 where the order was cancelled.
  unfoldable pub sweep_order : List Text → Text → Action W S ℕ
  sweep_order longs boid = do
    t ← stored
    if protects longs t boid then pure 0 else (do
      gone ← try_broker (cancel c boid)
      if gone then with_db (mark_order_cancelled boid) >> pure 1 else pure 0)

  unfoldable pub sweep_orders : List Text → List Text → ℕ → Action W S ℕ
  sweep_orders longs [] n = pure n
  sweep_orders longs (b ∷ bs) n = do k ← sweep_order longs b; sweep_orders longs bs (n + k)

  -- The body of the second loop, for a long that no working stop protects.
  unfoldable pub reattach : Text → Text → ℤ → Tally → Action W S Tally
  reattach day symbol qty r = do
    quote ← get_quote c symbol
    elim quote [
      | none ↦ tell (alert symbol) >> pure (record r { skipped_no_quote = suc r.skipped_no_quote })
      | some price ↦ attach_trailing_stop c symbol qty price (text "reattach-" ++ day) >>= λ done.
          if done
          then pure (record r { attached = suc r.attached })
          else (tell (alert symbol) >> pure (record r { attach_failed = suc r.attach_failed }))
    ]

  -- `existing is not None and existing in surviving`
  unfoldable pub protected_by : List Text → Text → Tables W → Bool
  protected_by surviving symbol t = elim (get_open_trailing_stop symbol t) [
    | none ↦ false
    | some id ↦ contains id surviving
  ]

  unfoldable pub attach_stops : Text → List Text → List (Text × ℤ) → Tally → Action W S Tally
  attach_stops day surviving [] r = pure r
  attach_stops day surviving (e ∷ es) r = do
    t ← stored
    r' ←
        if protected_by surviving e.0 t
        then pure (record r { already_protected = suc r.already_protected })
        else reattach day e.0 e.1 r
    attach_stops day surviving es r'

  -- From a fresh account on.
  unfoldable pub reconcile_held : Text → List OrderAck → AccountSnapshot W → Action W S Tally
  reconcile_held day open_orders snap = do
    let ids = orphan_ids open_orders
    n ← sweep_orders (held_longs snap) ids 0
    if f.le c.cfg.trailing_stop_pct fzero
        then pure (swept n)
        else attach_stops day ids (sort_keys (held_qtys snap)) (swept n)

  unfoldable pub reconcile_known : Text → List OrderAck → Action W S (Option Tally)
  reconcile_known day open_orders = do
    snap ← read_account c
    if not snap.positions_loaded || snap.stale
        then pure none
        else (do r ← reconcile_held day open_orders snap; pure (some r))

  -- `day` is the date in ISO form
  unfoldable pub reconcile : Text → Action W S (Option Tally)
  reconcile day = do
    orders ← ask c.world.get_open_orders
    elim orders [ none ↦ pure none | some acks ↦ reconcile_known day acks ]
