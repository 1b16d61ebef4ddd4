-- ===== src/Engine/Tests.antt =====
-- A broker that takes every order and one that fails, a disk that is full, and runs of the router.
use autotrader_ai.Prelude.{
  ℕ, ◌-◌, ◌≡◌, refl, Bool, true, false, none, some, [], ◌∷◌, ◌++◌, ltb, if◌then◌else◌,
}
use autotrader_ai.Prelude.Int.{pos}
use autotrader_ai.Prelude.Text.{text, text_eq}
use autotrader_ai.Float.{Fixed, fixed_float}
use autotrader_ai.Domain.{Side, OrderState, OrderRequest, OrderAck}
use autotrader_ai.Rebalance.{get_key, set_key}
use autotrader_ai.Engine.World.{Fault, ok, err, Outside, intent, placed, acked, State, ◌>>=◌}
use autotrader_ai.Engine.Router.{audit, remember, place, answered, submit_new, submit}
use autotrader_ai.Engine.Audit.{
  IsAudited, submit-IsAudited, submit_idempotent, unwritten_ack_forgotten,
}
use autotrader_ai.Session.Gate.{new_gate}
use autotrader_ai.Fixtures.{aapl, amount, account_after, market_order}

-- The state of the outside counts the writes that the disk still takes. The account holds 200 shares,
-- the quote is 100, orders do not rest.
abbrev pub outside : Bool → Outside Fixed ℕ
outside up = record {
  place_order = λ req s. (
    if up
        then ok (record {
          client_order_id = req.client_order_id;
          broker_order_id = some (text "b1");
          state = OrderState.submitted;
        })
        else err Fault.broker_fault,
    s,
  );
  append_audit = λ s. (ltb 0 s, s - 1);
  digest = λ symbol side qty id. symbol ++ id;
  get_account = λ s. (ok (account_after (pos 0)), s);
  get_quote = λ symbol s. (ok (some (amount 100)), s);
  get_touch = λ symbol s. (ok none, s);
  get_open_orders = λ s. (ok (some []), s);
  recent_high = λ symbol n s. (ok none, s);
  cancel_order = λ id s. (ok tt, s);
  cancel_all = λ s. (ok tt, s);
  chain_provider = λ s. record {
    get_quote = λ symbol. some (amount 100);
    get_option_chain = λ symbol right low high. [];
    digest = λ symbol side qty id. symbol ++ id;
  };
  sleep = λ pause s. s;
  alert = λ symbol overlay legs s. s;
  today = λ s. 100;
  isoformat = λ day. text "2026-07-01";
  older_than = λ s stamp hours. ok false;
  dumps = λ j. text "row";
  loads = λ raw. none;
}

abbrev pub fresh : ℕ → State Fixed ℕ
fresh n = record {
  outside = n;
  log = [];
  seen = [];
  db = none;
  weights = [];
  gate = some (new_gate true);
  signal_seq = 0;
  deferred = [];
  snap_cache = none;
  snap_cache_left = pos 0;
  highs = [];
}

abbrev buy_10 : OrderRequest Fixed
buy_10 = market_order aapl Side.buy (pos 10)

abbrev taken : OrderAck
taken = record {
  client_order_id = text "at-1";
  broker_order_id = some (text "b1");
  state = OrderState.submitted;
}

-- Everything a run of the router computes with.
router_runs :
    (submit (outside true) buy_10 (fresh 5)).1.log
    ≡ acked (text "at-1") OrderState.submitted ∷ placed buy_10 ∷ intent (text "at-1") ∷ []
unfolding ◌>>=◌ submit submit_new answered audit place remember get_key set_key text_eq IsAudited
router_runs = refl

full_disk_places_nothing :
    submit (outside true) buy_10 (fresh 0) ≡ (err Fault.audit_failed, fresh 0)
unfolding router_runs
full_disk_places_nothing = refl

lost_order_is_unknown :
    (submit (outside false) buy_10 (fresh 5)).0
    ≡ ok (record taken { broker_order_id = none; state = OrderState.unknown })
unfolding router_runs
lost_order_is_unknown = refl

-- With room on the disk for the first line only, a retry places the order a second time.
placed_twice :
    let st = (submit (outside true) buy_10 (fresh 1)).1 in
    (submit (outside true) buy_10 (record st { outside = 2 })).1.log
    ≡ acked (text "at-1") OrderState.submitted
      ∷ placed buy_10
      ∷ intent (text "at-1")
      ∷ placed buy_10
      ∷ intent (text "at-1")
      ∷ []
unfolding router_runs
placed_twice = refl

submit-IsAudited_example : IsAudited (submit (outside true) buy_10 (fresh 5)).1.log
submit-IsAudited_example = submit-IsAudited (outside true) buy_10 (fresh 5) (unfold IsAudited in tt)

submit_idempotent_example :
    submit (outside true) buy_10 (submit (outside true) buy_10 (fresh 5)).1
    ≡ (ok taken, (submit (outside true) buy_10 (fresh 5)).1)
unfolding router_runs
submit_idempotent_example = submit_idempotent (outside true) buy_10 (fresh 5) taken refl

unwritten_ack_forgotten_example :
    let (r, st') = submit (outside true) buy_10 (fresh 1) in
    (r ≡ err Fault.audit_failed)
    × (st'.log ≡ placed buy_10 ∷ intent (text "at-1") ∷ [])
    × (st'.seen ≡ [])
unfolding router_runs
unwritten_ack_forgotten_example =
    unwritten_ack_forgotten (outside true) buy_10 (fresh 1) refl refl refl
