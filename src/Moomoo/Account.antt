-- ===== src/Moomoo/Account.antt =====
-- autotrader/moomoo_broker.py, lines 328 to 460: the account, the positions and the fills.
use autotrader_ai.Prelude.{
  Bool, true, false, ◌&&◌, ◌||◌, Option, none, some, List, [], ◌∷◌, ◌++◌, if◌then◌else◌, null, map,
}
use autotrader_ai.Prelude.Text.{Text, text, text_eq, upper}
use autotrader_ai.Float.{Float, fzero, fixed_float}
use autotrader_ai.Domain.{Side, Fill, Position, AccountSnapshot}
use autotrader_ai.Engine.World.{Fault}
use autotrader_ai.Moomoo.World.{Meter, Sdk, Ask, ◌>>=◌, pure, raise, metered, raising}

-- `if since: kwargs["begin_time"] = since`
unfoldable pub begin_time : Option Text → Option Text
begin_time none = none
begin_time (some since) = if null since then none else some since

module _ {W S R : Type 0} ⦃f : Float W⦄ (c : Sdk W S R) where
  unfoldable pub position_row : R → Position W
  position_row row = record {
    symbol = c.text_at row (text "code" ∷ []);
    qty = c.int_at row (text "qty" ∷ []);
    avg_price = c.float_at row (text "cost_price" ∷ text "nominal_price" ∷ []);
  }

  -- `none` where the query failed.
  unfoldable pub get_positions : Ask W S (Option (List (Position W)))
  get_positions =
      metered c Meter.refresh_meter c.position_list (pure none)
        (raising λ rows. pure (elim rows [ none ↦ none | some rs ↦ some (map position_row rs) ]))

  unfoldable pub snapshot_of : R → Option (List (Position W)) → AccountSnapshot W
  snapshot_of row positions =
      let total = c.float_at row (text "total_assets" ∷ []) in
      record {
        cash = c.float_at row (text "cash" ∷ text "avl_withdrawal_cash" ∷ []);
        total_assets = total;
        day_pnl = c.float_at row (text "realized_pl" ∷ text "today_pnl_value" ∷ []);
        stale = elim positions [ none ↦ true | some ps ↦ f.eq total fzero && null ps ];
        positions_loaded = elim positions [ none ↦ false | some ps ↦ true ];
        unrealized_pnl = c.float_at row (text "unrealized_pl" ∷ []);
        positions = elim positions [ none ↦ [] | some ps ↦ ps ];
      }

  -- The figures of the account are in the first row; without one `iloc[0]` raises.
  unfoldable pub account_row : Option (List R) → Ask W S R
  account_row none = raise Fault.broker_error
  account_row (some []) = raise Fault.broker_fault
  account_row (some (row ∷ rows)) = pure row

  unfoldable pub with_positions : R → Ask W S (AccountSnapshot W)
  with_positions row = do positions ← get_positions; pure (snapshot_of row positions)

  unfoldable pub get_account : Ask W S (AccountSnapshot W)
  get_account =
      metered c Meter.refresh_meter c.account_info (raise Fault.broker_error)
        (raising λ rows. account_row rows >>= with_positions)

  -- The side of a row: BUY unless it says otherwise.
  unfoldable pub side_at : R → Side
  unfolding text_eq
  side_at row =
      if text_eq (upper (c.enum_at row (text "trd_side" ∷ []) (text "BUY"))) (text "BUY")
      then Side.buy
      else Side.sell

  unfoldable pub deal_row : R → Fill W
  unfolding side_at
  deal_row row = record {
    fill_id = c.text_at row (text "deal_id" ∷ []);
    symbol = c.text_at row (text "code" ∷ []);
    side = side_at row;
    qty = c.float_at row (text "qty" ∷ []);
    price = c.float_at row (text "price" ∷ []);
    ts = c.text_at row (text "create_time" ∷ []);
  }

  -- The fill of an order on paper, or nothing.
  unfoldable pub order_fill : R → List (Fill W)
  unfolding side_at
  order_fill row =
      let dealt_qty = c.float_at row (text "dealt_qty" ∷ []) in
      let order_id = c.text_at row (text "order_id" ∷ text "orderID" ∷ []) in
      if f.le dealt_qty fzero || null order_id
      then []
      else (record {
        fill_id = text "paper-" ++ order_id;
        symbol = c.text_at row (text "code" ∷ []);
        side = side_at row;
        qty = dealt_qty;
        price = c.float_at row (text "dealt_avg_price" ∷ []);
        ts = c.text_at row (text "updated_time" ∷ text "create_time" ∷ []);
      })
        ∷ []

  unfoldable pub order_fills : List R → List (Fill W)
  unfolding order_fill
  order_fills [] = []
  order_fills (row ∷ rows) = order_fill row ++ order_fills rows

  unfoldable pub fills_from_orders : Ask W S (Option (List (Fill W)))
  fills_from_orders =
      metered c Meter.refresh_meter c.order_list (pure none)
        (raising λ rows. pure (elim rows [ none ↦ none | some rs ↦ some (order_fills rs) ]))

  -- `format_enum(self._env()).upper() == "SIMULATE"`
  unfoldable pub is_paper : Bool
  unfolding text_eq
  is_paper = text_eq (upper c.env_name) (text "SIMULATE")

  unfoldable pub reconcile_fills : Option Text → Ask W S (Option (List (Fill W)))
  unfolding is_paper begin_time
  reconcile_fills since =
      if is_paper
      then fills_from_orders
      else metered c Meter.refresh_meter (c.deal_list (begin_time since)) (pure none)
          (raising λ rows. pure (elim rows [ none ↦ none | some rs ↦ some (map deal_row rs) ]))
