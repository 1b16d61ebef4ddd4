-- ===== src/Sim/Tests.antt =====
-- Runs of the broker in memory: a market order, a limit order that rests, a repeated one.
use autotrader_ai.Prelude.{◌≡◌, refl, ◌⊎◌, true, false, some, [], ◌∷◌}
use autotrader_ai.Prelude.Int.{pos, ◌+ℤ◌, ◌-ℤ◌, ◌*ℤ◌}
use autotrader_ai.Prelude.Text.{numbered, digits, text, text_eq}
use autotrader_ai.Float.{Fixed, fixed_float}
use autotrader_ai.Domain.{Side, OrderType, OrderState, OrderRequest, OrderAck}
use autotrader_ai.Rebalance.{set_key, get_key}
use autotrader_ai.Sim.Broker.{
  Sim, touch, market_fill_price, limit_is_marketable, fill_price, held, execute, rest_order, settle,
  place_order, ack_of,
}
use autotrader_ai.Sim.Book.{Executed, Rests, place_order_lem}
use autotrader_ai.Fixtures.{amount, aapl, market_order}

abbrev empty_book : Sim Fixed
empty_book = record {
  quotes = (aapl, amount 100) ∷ [];
  cash = amount 10_000;
  positions = [];
  opened = [];
  fills = [];
  acks_by_cid = [];
  auto_fill = true;
  seq = 0;
  spread_bps = amount 0;
  slippage_bps = amount 0;
  chains = [];
  fail_open_orders = false;
  fail_reconcile_fills = false;
  recent_highs = [];
}

-- A BUY of ten below the market.
abbrev low_bid : OrderRequest Fixed
low_bid = record (market_order aapl Side.buy (pos 10)) {
  order_type = OrderType.limit;
  limit_price = some (amount 90);
}

abbrev resting_ack : OrderAck
resting_ack = ack_of low_bid (text "sim-1") OrderState.submitted

abbrev after_bid : Sim Fixed
after_bid = record empty_book {
  seq = 1;
  opened = (text "sim-1", resting_ack) ∷ [];
  acks_by_cid = (text "at-1", resting_ack) ∷ [];
}

bid_rests : place_order low_bid empty_book ≡ some (resting_ack, after_bid)
unfolding place_order settle rest_order execute fill_price limit_is_marketable market_fill_price
    touch numbered digits held get_key set_key text_eq ◌+ℤ◌ ◌-ℤ◌ ◌*ℤ◌
bid_rests = refl

market_fills :
    place_order (market_order aapl Side.buy (pos 10)) empty_book
    ≡ some (
      ack_of low_bid (text "sim-1") OrderState.filled,
      record empty_book {
        seq = 1;
        cash = amount 9000;
        positions = (aapl, record { symbol = aapl; qty = pos 10; avg_price = amount 100 }) ∷ [];
        fills =
            record {
              fill_id = text "fill-1";
              symbol = aapl;
              side = Side.buy;
              qty = amount 10;
              price = amount 100;
              ts = text "t1";
            }
            ∷ [];
        acks_by_cid = (text "at-1", ack_of low_bid (text "sim-1") OrderState.filled) ∷ [];
      },
    )
unfolding bid_rests
market_fills = refl

place_order_lem_example :
    Executed low_bid empty_book resting_ack after_bid
    ⊎ Rests low_bid empty_book resting_ack after_bid
unfolding bid_rests
place_order_lem_example = place_order_lem low_bid empty_book resting_ack after_bid refl bid_rests
