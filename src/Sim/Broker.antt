-- ===== src/Sim/Broker.antt =====
-- autotrader/sim_broker.py: the broker in memory. The flags that inject failures and the option chains are
-- part of the state; a dict is a list of keys and values in insertion order.
use autotrader_ai.Prelude.{
  ℕ, suc, Bool, true, false, not, Option, none, some, List, [], ◌∷◌, ◌++◌, map, if◌then◌else◌,
  or_default, keep,
}
use autotrader_ai.Prelude.Int.{ℤ, pos, ◌+ℤ◌, neg_ℤ}
use autotrader_ai.Prelude.Text.{numbered, Text, text, text_eq}
use autotrader_ai.Float.{Float, fixed_float}
use autotrader_ai.Domain.{
  Side, OrderType, OptionRight, OrderState, OrderRequest, OrderAck, Fill, Position, AccountSnapshot,
}
use autotrader_ai.Options.Chain.{OptionQuote}
use autotrader_ai.Rebalance.{set_key, get_key}

pub record Sim (W : Type 0) : Type 0 where
  pub quotes : List (Text × W)
  pub cash : W
  pub positions : List (Text × Position W)
  pub opened : List (Text × OrderAck)
  pub fills : List (Fill W)
  pub acks_by_cid : List (Text × OrderAck)
  pub auto_fill : Bool
  pub seq : ℕ
  pub spread_bps : W
  pub slippage_bps : W
  pub chains : List ((Text × OptionRight) × List (OptionQuote W))
  pub fail_open_orders : Bool
  pub fail_reconcile_fills : Bool
  pub recent_highs : List (Text × W)

-- `d.pop(k, None)`
unfoldable pub drop_key : {V : Type 0} → Text → List (Text × V) → List (Text × V)
drop_key {V = V} k d = keep (λ (e : Text × V). not (text_eq e.0 k)) d

module _ {W : Type 0} ⦃f : Float W⦄ where
  -- the bid and the ask
  unfoldable pub touch : Sim W → Text → W × W
  touch b symbol =
      let ref = or_default (get_key symbol b.quotes) (f.lit 0 0) in
      let half = f.mul ref (f.div b.spread_bps (f.lit 10_000 0)) in (f.sub ref half, f.add ref half)

  unfoldable pub market_fill_price : Sim W → Text → Side → W
  market_fill_price b symbol side =
      let (bid, ask) = touch b symbol in
      let slip = f.div b.slippage_bps (f.lit 10_000 0) in
      elim side [
        | Side.buy ↦ f.mul ask (f.add (f.of_int (pos 1)) slip)
        | Side.sell ↦ f.mul bid (f.sub (f.of_int (pos 1)) slip)
      ]

  unfoldable pub limit_is_marketable : Sim W → Text → Side → W → Bool
  limit_is_marketable b symbol side limit_price =
      let (bid, ask) = touch b symbol in
      elim side [ Side.buy ↦ f.le ask limit_price | Side.sell ↦ f.le limit_price bid ]

  unfoldable pub get_touch : Sim W → Text → Option (W × W)
  get_touch b symbol = elim (get_key symbol b.quotes) [
    | none ↦ none
    | some _ ↦ some (touch b symbol)
  ]

  -- Whether and at what price an order fills at once: the outer option is the exception of comparing
  -- a limit price that is missing, and none inside it is an order that rests.
  unfoldable pub fill_price : Sim W → OrderRequest W → Option (Option W)
  fill_price b req = elim req.order_type [
    | OrderType.trailing_stop ↦ some none
    | OrderType.limit ↦ if not b.auto_fill then some none else elim req.limit_price [
      | none ↦ none
      | some px ↦ some (if limit_is_marketable b req.symbol req.side px then some px else none)
    ]
    | OrderType.market ↦
        some (if b.auto_fill then some (market_fill_price b req.symbol req.side) else none)
  ]

  abbrev pub signed_qty : OrderRequest W → ℤ
  signed_qty req = elim req.side [ Side.buy ↦ req.qty | Side.sell ↦ neg_ℤ req.qty ]

  -- The shares of a symbol in the book.
  unfoldable pub held : List (Text × Position W) → Text → ℤ
  held d s = elim (get_key s d) [ none ↦ pos 0 | some p ↦ p.qty ]

  abbrev pub ack_of : OrderRequest W → Text → OrderState → OrderAck
  ack_of req boid state = record {
    client_order_id = req.client_order_id;
    broker_order_id = some boid;
    state = state;
  }

  -- The filled branch, and the resting one, on the state whose counter is already raised.
  unfoldable pub execute : OrderRequest W → W → Sim W → OrderAck × Sim W
  execute req price b =
      let ack = ack_of req (numbered (text "sim-") b.seq) OrderState.filled in
      let position : Position W = record {
        symbol = req.symbol;
        qty = held b.positions req.symbol +ℤ signed_qty req;
        avg_price = price;
      } in
      let fill : Fill W = record {
        fill_id = numbered (text "fill-") b.seq;
        symbol = req.symbol;
        side = req.side;
        qty = f.of_int req.qty;
        price = price;
        ts = numbered (text "t") b.seq;
      } in
      (
        ack,
        record b {
          cash = f.sub b.cash (f.mul (f.of_int (signed_qty req)) price);
          positions = set_key req.symbol position b.positions;
          fills = b.fills ++ fill ∷ [];
          acks_by_cid = set_key req.client_order_id ack b.acks_by_cid;
        },
      )

  unfoldable pub rest_order : OrderRequest W → Sim W → OrderAck × Sim W
  rest_order req b =
      let boid = numbered (text "sim-") b.seq in
      let ack = ack_of req boid OrderState.submitted in
      (
        ack,
        record b {
          opened = set_key boid ack b.opened;
          acks_by_cid = set_key req.client_order_id ack b.acks_by_cid;
        },
      )

  unfoldable pub settle : Option W → OrderRequest W → Sim W → OrderAck × Sim W
  settle none req b = rest_order req b
  settle (some price) req b = execute req price b

  unfoldable pub place_order : OrderRequest W → Sim W → Option (OrderAck × Sim W)
  place_order req b = elim (get_key req.client_order_id b.acks_by_cid) [
    | some ack ↦ some (ack, b)
    | none ↦
        let b' = record b { seq = suc b.seq } in
        elim (fill_price b' req) [ none ↦ none | some p ↦ some (settle p req b') ]
  ]

  unfoldable pub cancel_order : Text → Sim W → Sim W
  cancel_order boid b = record b { opened = drop_key boid b.opened }

  unfoldable pub cancel_all : Sim W → Sim W
  cancel_all b = record b { opened = [] }

  unfoldable pub get_account : Sim W → AccountSnapshot W
  get_account b = record {
    cash = b.cash;
    total_assets = b.cash;
    day_pnl = f.lit 0 0;
    stale = false;
    positions_loaded = true;
    unrealized_pnl = f.lit 0 0;
    positions = map (λ (e : Text × Position W). e.1) b.positions;
  }

  unfoldable pub get_open_orders : Sim W → Option (List OrderAck)
  get_open_orders b =
      if b.fail_open_orders then none else some (map (λ (e : Text × OrderAck). e.1) b.opened)

  unfoldable pub reconcile_fills : Sim W → Option (List (Fill W))
  reconcile_fills b = if b.fail_reconcile_fills then none else some b.fills
