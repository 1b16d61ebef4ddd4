-- ===== src/Moomoo/World.antt =====
-- autotrader/moomoo_broker.py: the SDK and its helpers as parameters, and the state of the adapter.
-- An answer is a row, or rows; `none` where the SDK's return code is not RET_OK. A call may raise.
-- `log` lists the tokens that were taken, the metered calls, and the cancellations that were asked
-- for, the newest first.
use autotrader_ai.Prelude.{ℕ, Bool, true, false, Option, List, ◌∷◌, if◌then◌else◌, or_default}
use autotrader_ai.Prelude.Int.{ℤ}
use autotrader_ai.Prelude.Text.{Text}
use autotrader_ai.Float.{Float, fixed_float}
use autotrader_ai.Domain.{Side, OptionRight}
use autotrader_ai.Engine.World.{Fault, Result, ok, err}
use autotrader_ai.Moomoo.Limiter.{Bucket, Timer, acquire}

-- `_order_rl` and `_refresh_rl`
pub data Meter : Type 0 where
  order_meter refresh_meter : Meter

pub data OrderKind (W : Type 0) : Type 0 where
  market : OrderKind W
  trailing : W → OrderKind W
  normal : W → OrderKind W

-- The keyword arguments of `place_order`.
pub record Ticket (W : Type 0) : Type 0 where
  pub qty : ℤ
  pub code : Text
  pub side : Side
  pub remark : Text
  pub kind : OrderKind W

-- The SDK's contexts for orders and quotes, and the vendored readers of a row: a column under the
-- first of its names that the row has, as text, as an enumeration's name, as a number.
pub record Sdk (W S R : Type 0) : Type 0 where
  pub timer : Timer W S
  pub env_name : Text
  pub place_order : Ticket W → S → Result (Option R) × S
  pub cancel_order : Text → S → Result Bool × S
  pub order_list : S → Result (Option (List R)) × S
  pub account_info : S → Result (Option (List R)) × S
  pub position_list : S → Result (Option (List R)) × S
  pub deal_list : Option Text → S → Result (Option (List R)) × S
  pub market_snapshot : List Text → S → Result (Option (List R)) × S
  pub day_bars : Text → (start end_day max_count : ℕ) → S → Result (Option (List R)) × S
  pub expirations : Text → S → Result (Option (List R)) × S
  pub option_chain : Text → OptionRight → (start end_day : ℕ) → S → Result (Option (List R)) × S
  pub today : S → ℕ
  pub isoformat : ℕ → Text
  -- `strptime` of the format %Y-%m-%d
  pub parse_day : Text → Option ℕ
  pub text_at : R → List Text → Text
  pub enum_at : R → List Text → Text → Text
  pub float_at : R → List Text → W
  pub int_at : R → List Text → ℤ
  -- how many polls of the limiter fit before its deadline
  pub polls : ℕ

pub data Event : Type 0 where
  spent : Meter → Event
  asked : Meter → Event
  cancelling : Text → Event

pub record Link (W S : Type 0) : Type 0 where
  pub outside : S
  pub orders : Bucket W
  pub refreshes : Bucket W
  pub log : List Event

abbrev pub Ask : Type 0 → Type 0 → Type 0 → Type 0
Ask W S A = Link W S → Result A × Link W S

-- The line of the log for a token that was taken.
unfoldable pub log_token : Meter → Bool → List Event → List Event
log_token m true log = spent m ∷ log
log_token m false log = log

module _ {W S : Type 0} where
  infixl 5 ◌>>=◌ ◌>>◌
  unfoldable pub ◌>>=◌ : {A B : Type 0} → Ask W S A → (A → Ask W S B) → Ask W S B
  ◌>>=◌ m k l = let (r, l') = m l in elim r [ ok a ↦ k a l' | err e ↦ (err e, l') ]

  abbrev pub ◌>>◌ : {A B : Type 0} → Ask W S A → Ask W S B → Ask W S B
  m >> k = m >>= λ _. k

  unfoldable pub pure : {A : Type 0} → A → Ask W S A
  pure a l = (ok a, l)

  unfoldable pub raise : {A : Type 0} → Fault → Ask W S A
  raise e l = (err e, l)

  -- A call that no limiter guards.
  unfoldable pub ask : {A : Type 0} → (S → Result A × S) → Ask W S A
  ask g l = let (r, s) = g l.outside in (r, record l { outside = s })

  unfoldable pub note : Event → Ask W S (Unit {0})
  note e l = (ok tt, record l { log = e ∷ l.log })

  -- `try: m`: what it answered or raised.
  unfoldable pub attempt : {A : Type 0} → Ask W S A → Ask W S (Result A)
  attempt m l = let (r, l') = m l in (ok r, l')

  unfoldable pub bucket_of : Meter → Link W S → Bucket W
  bucket_of Meter.order_meter l = l.orders
  bucket_of Meter.refresh_meter l = l.refreshes

  unfoldable pub with_bucket : Meter → Bucket W → Link W S → Link W S
  with_bucket Meter.order_meter b l = record l { orders = b }
  with_bucket Meter.refresh_meter b l = record l { refreshes = b }

  -- A metered call, made with a token; `k` reads what it answered or raised.
  unfoldable pub called :
      {A B : Type 0} → Meter → (S → Result A × S) → (Result A → Ask W S B) → Ask W S B
  called m g k = note (asked m) >> attempt (ask g) >>= k

module _ {W S R : Type 0} ⦃f : Float W⦄ (c : Sdk W S R) where
  -- `limiter.acquire(timeout=60.0)`
  unfoldable pub acquire_token : Meter → Ask W S Bool
  unfolding bucket_of with_bucket log_token
  acquire_token m l =
      let (answer, b, s) = acquire c.timer c.polls (f.lit 60 0) (bucket_of m l) l.outside in
      let got = or_default answer false in
      (ok got, record (with_bucket m b l) { outside = s; log = log_token m got l.log })

  -- `if not limiter.acquire(): <refused>`, then the call.
  unfoldable pub metered :
      {A B : Type 0}
      → Meter
      → (S → Result A × S)
      → (refused : Ask W S B) → (k : Result A → Ask W S B) → Ask W S B
  unfolding called
  metered m g refused k = do got ← acquire_token m; if got then called m g k else refused

-- What was raised is raised on.
unfoldable pub raising : {W S A B : Type 0} → (A → Ask W S B) → Result A → Ask W S B
raising k (ok a) = k a
raising k (err e) = raise e
