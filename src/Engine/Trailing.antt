-- ===== src/Engine/Trailing.antt =====
-- autotrader/main.py, the trailing stops of `TradeEngine`: the stop after an entry, and its resizing.
use autotrader_ai.Prelude.{Bool, true, false, none, some, ◌++◌, if◌then◌else◌}
use autotrader_ai.Prelude.Int.{ℤ, pos, leb_ℤ}
use autotrader_ai.Prelude.Text.{Text, text}
use autotrader_ai.Float.{Float, fzero, fixed_float}
use autotrader_ai.Engine.World.{Action, ◌>>=◌, ◌>>◌, pure, gets, with_db}
use autotrader_ai.Engine.Router.{client_order_id, submit}
use autotrader_ai.Domain.{Side, OrderType, PositionEffect, OrderRequest}
use autotrader_ai.Db.Tables.{Tables, get_open_trailing_stop, mark_order_cancelled}
use autotrader_ai.Engine.Setup.{Setup, read_account, new_order, cancel, record_order, passes}

module _ {W S : Type 0} ⦃f : Float W⦄ (c : Setup W S) where
  -- A resting SELL that trails the price, under the id that a tag gives.
  unfoldable pub new_stop : Text → ℤ → Text → Action W S (OrderRequest W)
  new_stop symbol qty tag = new_order c (record {
    symbol = symbol;
    side = Side.sell;
    qty = qty;
    order_type = OrderType.trailing_stop;
    limit_price = none;
    client_order_id = client_order_id c.world symbol Side.sell qty (tag ++ text "-stop");
    trail_percent = some c.cfg.trailing_stop_pct;
    option = none;
    position_effect = PositionEffect.opening;
    correlation_id = none;
  })

  -- `_attach_trailing_stop`: was the stop placed?
  unfoldable pub attach_trailing_stop : Text → ℤ → W → Text → Action W S Bool
  attach_trailing_stop symbol qty ref_price tag = do
    snap ← read_account c
    req ← new_stop symbol qty tag
    if passes c req snap ref_price
        then (do
          ack ← submit c.world req
          record_order c req req.order_type req.limit_price ack
          pure true)
        else pure false

  -- the working stop of a symbol, cancelled at the broker and in the table
  unfoldable pub cancel_stop : Text → Tables W → Action W S (Unit {0})
  cancel_stop symbol t = elim (get_open_trailing_stop symbol t) [
    | none ↦ pure tt
    | some id ↦ cancel c id >> with_db (mark_order_cancelled id)
  ]

  -- `consolidate_stop`, on a database that is there
  unfoldable pub resize_stop : Text → ℤ → W → Text → Tables W → Action W S (Unit {0})
  resize_stop symbol new_total_qty ref_price round_id t =
      cancel_stop symbol t
      >> (if leb_ℤ new_total_qty (pos 0)
          then pure tt
          else attach_trailing_stop symbol new_total_qty ref_price round_id >> pure tt)

  unfoldable pub consolidate_stop : Text → ℤ → W → Text → Action W S (Unit {0})
  consolidate_stop symbol new_total_qty ref_price round_id = do
    db ← gets (λ st. st.db)
    if f.le c.cfg.trailing_stop_pct fzero then pure tt else elim db [
      | none ↦ pure tt
      | some t ↦ resize_stop symbol new_total_qty ref_price round_id t
    ]
