-- ===== src/Domain/Orders.antt =====
-- autotrader/domain.py, lines 14 to 127: the enumerations, and option contracts, signals and orders with
-- the checks of their constructors. A field that the source restricts to a few literals is an
-- enumeration, so the checks of those literals hold by typing. A date is its ordinal day number.
use autotrader_ai.Prelude.{
  ℕ, Bool, true, false, not, ◌&&◌, Option, none, some, ◌==◌, if◌then◌else◌, is_some, null,
}
use autotrader_ai.Prelude.Int.{ℤ, pos, leb_ℤ}
use autotrader_ai.Prelude.Text.{Text}
use autotrader_ai.Float.{Float, fzero, fone, fixed_float}

pub data Side : Type 0 where
  buy sell : Side

pub data OrderType : Type 0 where
  market limit trailing_stop : OrderType

pub data OptionRight : Type 0 where
  call put : OptionRight

-- "OPEN" and "CLOSE"
pub data PositionEffect : Type 0 where
  opening closing : PositionEffect

pub data OverlayType : Type 0 where
  covered_call protective_put collar call_diagonal bear_put_spread leap : OverlayType

pub data OrderState : Type 0 where
  pending submitted partial filled cancelled rejected unknown : OrderState

unfoldable pub is_success : OrderState → Bool
is_success OrderState.filled = true
is_success _ = false

abbrev pub side_eq : Side → Side → Bool
side_eq Side.buy Side.buy = true
side_eq Side.sell Side.sell = true
side_eq _ _ = false

abbrev pub right_eq : OptionRight → OptionRight → Bool
right_eq OptionRight.call OptionRight.call = true
right_eq OptionRight.put OptionRight.put = true
right_eq _ _ = false

abbrev pub is_limit : OrderType → Bool
is_limit OrderType.limit = true
is_limit _ = false

abbrev pub is_opening : PositionEffect → Bool
is_opening PositionEffect.opening = true
is_opening PositionEffect.closing = false

abbrev pub is_filled : OrderState → Bool
is_filled OrderState.filled = true
is_filled _ = false

pub record OptionContract (W : Type 0) : Type 0 where
  pub underlying : Text
  pub expiry : ℕ
  pub strike : W
  pub right : OptionRight
  pub code : Text
  pub multiplier : ℕ

pub record Signal (W : Type 0) : Type 0 where
  pub symbol : Text
  pub direction : Side
  pub confidence : W
  pub rationale : Text
  pub stop_price : Option W
  pub overlay : Option OverlayType

pub record OrderRequest (W : Type 0) : Type 0 where
  pub symbol : Text
  pub side : Side
  pub qty : ℤ
  pub order_type : OrderType
  pub limit_price : Option W
  pub client_order_id : Text
  pub trail_percent : Option W
  pub option : Option (OptionContract W)
  pub position_effect : PositionEffect
  pub correlation_id : Option Text

-- The mapping `raw`, which only diagnostics read, is left out.
pub record OrderAck : Type 0 where
  pub client_order_id : Text
  pub broker_order_id : Option Text
  pub state : OrderState

-- The `ValueError`s of the constructors.
pub data ValueError : Type 0 where
  no_underlying no_code bad_strike bad_multiplier : ValueError
  bad_confidence bad_stop_price : ValueError
  bad_qty no_limit_price no_trail_percent extra_limit_price : ValueError

module _ {W : Type 0} ⦃f : Float W⦄ where
  -- `math.isfinite(x) and x > 0`
  abbrev pub finite_pos : W → Bool
  finite_pos x = f.is_finite x && f.lt fzero x

  -- Each constructor's `__post_init__`: the first check that fails, if one does.
  unfoldable pub check_contract : OptionContract W → Option ValueError
  check_contract c =
      if null c.underlying
      then some no_underlying
      else if null c.code
      then some no_code
      else if not (finite_pos c.strike)
      then some bad_strike
      else if c.multiplier == 0
      then some bad_multiplier
      else none

  unfoldable pub check_signal : Signal W → Option ValueError
  check_signal s =
      if not (f.le fzero s.confidence && f.le s.confidence fone)
      then some bad_confidence
      else elim s.stop_price [
        | none ↦ none
        | some p ↦ if not (finite_pos p) then some bad_stop_price else none
      ]

  -- the checks of a trailing stop, on its percentage and its limit price
  check_trail : Option W → Option W → Option ValueError
  check_trail none lpx = some no_trail_percent
  check_trail (some t) lpx =
      if f.le t fzero
      then some no_trail_percent
      else if is_some lpx
      then some extra_limit_price
      else none

  unfoldable pub check_order : OrderRequest W → Option ValueError
  unfolding check_trail
  check_order r = if leb_ℤ r.qty (pos 0) then some bad_qty else elim r.order_type [
    | OrderType.market ↦ none
    | OrderType.limit ↦ if is_some r.limit_price then none else some no_limit_price
    | OrderType.trailing_stop ↦ check_trail r.trail_percent r.limit_price
  ]
