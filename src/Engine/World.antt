-- ===== src/Engine/World.antt =====
-- The world that the engine and its router act on, and their state. The broker, the audit file and the
-- clock are functions on a state of the outside; each call may answer with a fault, which Python raises.
-- `log` lists what the theorems speak of, the newest first: the lines of the audit file, the orders
-- that reached the broker, the accounts that were read, the cancellations that the broker took, and
-- the halt of the session. The database does not fail; the state keeps its tables.
use autotrader_ai.Prelude.{ℕ, Bool, true, false, Option, none, some, List}
use autotrader_ai.Prelude.Int.{ℤ}
use autotrader_ai.Prelude.Text.{Text}
use autotrader_ai.Float.{fixed_float}
use autotrader_ai.Domain.{
  Side, OrderState, OrderRequest, OrderAck, AccountSnapshot, Signal, OverlayType,
}
use autotrader_ai.Signals.Json.{Json}
use autotrader_ai.Options.Planner.{Provider}
use autotrader_ai.Session.Gate.{EntryGate}
use autotrader_ai.Db.Tables.{Tables}
use autotrader_ai.Db.Targets.{WeightRow}

-- The `RuntimeError` of a failed audit write, a `BrokerError`, any other exception of the broker, the
-- `ValueError` of a constructor or a parser or a division by zero, a float that cannot be rounded, a missing key.
pub data Fault : Type 0 where
  audit_failed broker_error broker_fault bad_value not_finite missing_key : Fault

pub data Result (A : Type 0) : Type 0 where
  ok : A → Result A
  err : Fault → Result A

-- What the engine is given: a broker, a disk, a digest, a clock and the JSON library. The planner of
-- overlays sees the broker as it stands when it is called.
pub record Outside (W S : Type 0) : Type 0 where
  pub place_order : OrderRequest W → S → Result OrderAck × S
  pub append_audit : S → Bool × S
  pub digest : Text → Side → ℤ → Text → Text
  pub get_account : S → Result (AccountSnapshot W) × S
  pub get_quote : Text → S → Result (Option W) × S
  pub get_touch : Text → S → Result (Option (W × W)) × S
  pub get_open_orders : S → Result (Option (List OrderAck)) × S
  pub recent_high : Text → ℤ → S → Result (Option W) × S
  pub cancel_order : Text → S → Result (Unit {0}) × S
  pub cancel_all : S → Result (Unit {0}) × S
  pub chain_provider : S → Provider W
  pub sleep : W → S → S
  -- the figures of the message on an unhedged stock, which is posted
  pub alert : Text → OverlayType → List (Text × Option OrderState) → S → S
  pub today : S → ℕ
  pub isoformat : ℕ → Text
  -- is the time stamp more than so many hours old?
  pub older_than : S → Text → W → Result Bool
  -- `json.dumps`, and `json.loads`, none where the text is no JSON
  pub dumps : Json W → Text
  pub loads : Text → Option (Json W)

pub data Event (W : Type 0) : Type 0 where
  intent : Text → Event W
  placed : OrderRequest W → Event W
  acked : Text → OrderState → Event W
  account : AccountSnapshot W → Event W
  cancelled : Text → Event W
  halting : Event W

abbrev pub Log : Type 0 → Type 0
Log W = List (Event W)

-- The attributes of the engine and its router that change. `highs` is the cache of the reference.
pub record State (W S : Type 0) : Type 0 where
  pub outside : S
  pub log : Log W
  pub seen : List (Text × OrderAck)
  pub db : Option (Tables W)
  pub weights : List (WeightRow W)
  pub gate : Option EntryGate
  pub signal_seq : ℕ
  pub deferred : List (Text × Signal W)
  pub snap_cache : Option (AccountSnapshot W)
  pub snap_cache_left : ℤ
  pub highs : List ((Text × Text) × W)

-- A method call: the state comes back after a fault too.
abbrev pub Action : Type 0 → Type 0 → Type 0 → Type 0
Action W S A = State W S → Result A × State W S

-- The result of a `try` that catches `BrokerError`.
unfoldable pub caught : {A : Type 0} → Result A → Result Bool
caught (ok a) = ok true
caught (err Fault.broker_error) = ok false
caught (err e) = err e

module _ {W S : Type 0} where
  infixl 5 ◌>>=◌ ◌>>◌
  unfoldable pub ◌>>=◌ : {A B : Type 0} → Action W S A → (A → Action W S B) → Action W S B
  ◌>>=◌ m k st = let (r, st') = m st in elim r [ ok a ↦ k a st' | err e ↦ (err e, st') ]

  abbrev pub ◌>>◌ : {A B : Type 0} → Action W S A → Action W S B → Action W S B
  m >> k = m >>= λ _. k

  unfoldable pub pure : {A : Type 0} → A → Action W S A
  pure a st = (ok a, st)

  unfoldable pub raise : {A : Type 0} → Fault → Action W S A
  raise e st = (err e, st)

  -- A value of the state.
  unfoldable pub gets : {A : Type 0} → (State W S → A) → Action W S A
  gets g st = (ok (g st), st)

  -- A call of the outside that the log does not show.
  unfoldable pub ask : {A : Type 0} → (S → Result A × S) → Action W S A
  ask g st = let (r, s) = g st.outside in (r, record st { outside = s })

  -- A call that cannot fail and answers nothing.
  unfoldable pub tell : (S → S) → Action W S (Unit {0})
  tell g st = (ok tt, record st { outside = g st.outside })

  -- `if self._db: self._db.method(...)`
  unfoldable pub with_db : (Tables W → Tables W) → Action W S (Unit {0})
  with_db g st = (ok tt, record st { db = elim st.db [ none ↦ none | some t ↦ some (g t) ] })

  unfoldable pub from_option : {A : Type 0} → Fault → Option A → Action W S A
  from_option e none = raise e
  from_option e (some a) = pure a

  unfoldable pub from_result : {A : Type 0} → Result A → Action W S A
  from_result r st = (r, st)

  -- `try: m` with `except BrokerError`: did it pass?
  unfoldable pub try_broker : {A : Type 0} → Action W S A → Action W S Bool
  unfolding caught
  try_broker m st = let (r, st') = m st in (caught r, st')

  -- `try: m` with `except Exception`
  unfoldable pub swallow : {A : Type 0} → Action W S A → Action W S (Unit {0})
  swallow m st = (ok tt, (m st).1)
