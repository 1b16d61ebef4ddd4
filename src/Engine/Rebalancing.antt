-- ===== src/Engine/Rebalancing.antt =====
-- autotrader/main.py, the rebalance of `TradeEngine`, its intraday loss check and its shutdown.
use autotrader_ai.Prelude.{
  not, ◌&&◌, none, some, List, [], ◌∷◌, ◌++◌, if◌then◌else◌, or_default, is_some,
}
use autotrader_ai.Prelude.Int.{pos, leb_ℤ}
use autotrader_ai.Prelude.Text.{Text, text, strip_prefix}
use autotrader_ai.Float.{Float, truthy, fixed_float}
use autotrader_ai.Engine.World.{
  Fault, Action, ◌>>=◌, ◌>>◌, pure, gets, with_db, from_option, from_result,
}
use autotrader_ai.Engine.Router.{client_order_id}
use autotrader_ai.Domain.{Side, OrderRequest, OrderAck, Position, AccountSnapshot}
use autotrader_ai.Risk.Core.{is_buy}
use autotrader_ai.Rebalance.{
  get_key, set_key, TradeAction, trim, topup, RebalanceTrade, compute_plan,
}
use autotrader_ai.Db.Targets.{Targets, latest_target_weights}
use autotrader_ai.Db.Tables.{DriverRow, record_driver}
use autotrader_ai.Engine.Setup.{
  TickAction, halted, entry_closed, rejected_by_risk, order_placed, Setup, gate_halted, gate_closed,
  outcome, read_account, get_quote, new_order, order_kind, record_order, passes,
}
use autotrader_ai.Engine.Escalation.{submit_with_escalation}
use autotrader_ai.Engine.Trailing.{consolidate_stop}
use autotrader_ai.Engine.Route.{plain_order}

pub data RebalanceAnswer : Type 0 where
  rebalance_disabled halted_session no_targets stale_targets rebalanced : RebalanceAnswer

-- `{"TRIM": "overweight → trim", "TOPUP": "underweight → top-up"}`
unfoldable pub driver_reason : TradeAction → Text
driver_reason trim = text "overweight → trim"
driver_reason topup = text "underweight → top-up"

-- The row that explains a trade without a signal.
unfoldable pub driver_row : RebalanceTrade → Text → DriverRow
driver_row trade round_id = record {
  symbol = trade.symbol;
  side = trade.side;
  kind =
      if is_some (strip_prefix (text "halt") round_id)
      then text "liquidation"
      else text "rebalance";
  detail = round_id ++ text " · " ++ driver_reason trade.action;
}

module _ {W S : Type 0} ⦃f : Float W⦄ (c : Setup W S) where
  -- The row that explains a trade that was placed.
  unfoldable pub explain_trade : RebalanceTrade → Text → TickAction → Action W S TickAction
  explain_trade trade round_id order_placed =
      with_db (record_driver (driver_row trade round_id)) >> pure order_placed
  explain_trade trade round_id failed = pure failed

  -- What follows the answer of a rebalance order.
  unfoldable pub settle_trade :
      RebalanceTrade → Text → OrderRequest W → OrderAck × OrderRequest W → Action W S TickAction
  settle_trade trade round_id req (ack, term) =
      record_order c req term.order_type term.limit_price ack
      >> explain_trade trade round_id (outcome ack.state)

  -- From the account on.
  unfoldable pub enter_trade : RebalanceTrade → W → Text → AccountSnapshot W → Action W S TickAction
  enter_trade trade ref_price round_id snap = do
    kind ← order_kind c trade.side ref_price
    let id = client_order_id c.world trade.symbol trade.side trade.qty (round_id ++ text "-rbal")
    req ← new_order c (plain_order trade.symbol trade.side trade.qty kind.0 kind.1 id)
    if passes c req snap ref_price
        then submit_with_escalation c req snap ref_price >>= settle_trade trade round_id req
        else pure rejected_by_risk

  unfoldable pub submit_rebalance_order : RebalanceTrade → W → Text → Action W S TickAction
  submit_rebalance_order trade ref_price round_id = do
    gate ← gets (λ st. st.gate)
    if gate_halted gate
        then pure halted
        else if is_buy trade.side && gate_closed gate
        then pure entry_closed
        else read_account c >>= enter_trade trade ref_price round_id

  -- The quotes of the symbols that have one.
  unfoldable pub quotes_of : List (Text × W) → List (Text × W) → Action W S (List (Text × W))
  quotes_of [] prices = pure prices
  quotes_of (e ∷ es) prices = do
    quote ← get_quote c e.0
    quotes_of es (elim quote [ none ↦ prices | some px ↦ set_key e.0 px prices ])

  -- A trade that was placed resizes the stop of its symbol.
  unfoldable pub follow_trade : RebalanceTrade → W → Text → TickAction → Action W S (Unit {0})
  follow_trade trade price round_id order_placed =
      consolidate_stop c trade.symbol trade.new_total_qty price round_id
  follow_trade trade price round_id _ = pure tt

  -- The body of the loop over the trades of a plan.
  unfoldable pub rebalance_trade : List (Text × W) → Text → RebalanceTrade → Action W S (Unit {0})
  rebalance_trade prices round_id trade = do
    price ← from_option Fault.missing_key (get_key trade.symbol prices)
    res ← submit_rebalance_order trade price round_id
    follow_trade trade price round_id res

  unfoldable pub rebalance_trades :
      List (Text × W) → Text → List RebalanceTrade → Action W S (Unit {0})
  rebalance_trades prices round_id [] = pure tt
  rebalance_trades prices round_id (t ∷ ts) =
      rebalance_trade prices round_id t >> rebalance_trades prices round_id ts

  -- With targets that are fresh.
  unfoldable pub rebalance_to : Targets W → Action W S RebalanceAnswer
  rebalance_to targets = do
    snap ← read_account c
    prices ← quotes_of targets.scores []
    plan ← from_option Fault.not_finite (compute_plan snap targets.scores prices c.cfg)
    rebalance_trades prices (text "rbal-" ++ targets.as_of) plan.trades
    pure rebalanced

  unfoldable pub check_targets : Targets W → Action W S RebalanceAnswer
  check_targets targets = do
    outside ← gets (λ st. st.outside)
    stale ← from_result (c.world.older_than outside targets.stamp c.cfg.target_staleness_hours)
    if stale then pure stale_targets else rebalance_to targets

  unfoldable pub rebalance : Action W S RebalanceAnswer
  rebalance = do
    gate ← gets (λ st. st.gate)
    db ← gets (λ st. st.db)
    weights ← gets (λ st. st.weights)
    if not c.cfg.rebalance_enabled
        then pure rebalance_disabled
        else if gate_halted gate
        then pure halted_session
        else if not (is_some db)
        then pure no_targets
        else elim (latest_target_weights weights) [
          | none ↦ pure no_targets
          | some targets ↦ check_targets targets
        ]

  -- The body of the loop of `_flatten_all`.
  unfoldable pub flatten_position : Text → Position W → Action W S (Unit {0})
  flatten_position round_id p =
      let trade : RebalanceTrade = record {
        symbol = p.symbol;
        side = Side.sell;
        qty = p.qty;
        action = trim;
        new_total_qty = pos 0;
      } in
      if leb_ℤ p.qty (pos 0) then pure tt else (do
        quote ← get_quote c p.symbol
        let price = if truthy quote then or_default quote p.avg_price else p.avg_price
        submit_rebalance_order trade price round_id
        pure tt)

  unfoldable pub flatten_all : Text → List (Position W) → Action W S (Unit {0})
  flatten_all round_id [] = pure tt
  flatten_all round_id (p ∷ ps) = flatten_position round_id p >> flatten_all round_id ps
