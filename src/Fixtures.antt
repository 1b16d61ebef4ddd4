-- ===== src/Fixtures.antt =====
-- Values at which the tests and the examples run: a configuration, an account, orders.
use autotrader_ai.Prelude.{ℕ, true, false, none, some, [], ◌∷◌}
use autotrader_ai.Prelude.Int.{ℤ, pos, negsuc, ◌*ℤ◌}
use autotrader_ai.Prelude.Text.{Text, text}
use autotrader_ai.Float.{Fixed, fixed_float}
use autotrader_ai.Domain.{
  Side, OrderType, PositionEffect, OptionRight, OptionContract, OrderRequest, Position,
  AccountSnapshot,
}
use autotrader_ai.Config.{RiskConfig}

-- An amount of whole units.
abbrev pub amount : ℕ → Fixed
amount n = fixed_float.lit n 0

abbrev pub aapl : Text
aapl = text "US.AAPL"

abbrev pub msft : Text
msft = text "US.MSFT"

abbrev pub sample_cfg : RiskConfig Fixed
sample_cfg = record {
  trading_env = text "PAPER";
  min_confidence = fixed_float.lit 6 1;
  max_order_notional = amount 2000;
  max_position_qty = pos 250;
  daily_loss_limit = amount 500;
  max_gross_exposure = amount 50_000;
  allowed_symbols = aapl ∷ msft ∷ [];
  trailing_stop_pct = amount 5;
  risk_per_trade_pct = fixed_float.lit 1 2;
  confidence_size_floor = fixed_float.lit 5 1;
  confidence_size_ceil = amount 1;
  rebalance_enabled = true;
  rebalance_band_pct = amount 5;
  rebalance_min_notional = amount 200;
  rebalance_cash_buffer_pct = amount 10;
  target_staleness_hours = amount 24;
  daily_loss_halt = amount 1000;
  allowed_overlays = text "COVERED_CALL" ∷ text "COLLAR" ∷ text "BEAR_PUT_SPREAD" ∷ [];
  max_option_contracts = pos 5;
  max_option_premium_per_trade = amount 0;
  option_target_delta = fixed_float.lit 30 2;
  option_dte_min = pos 30;
  option_dte_max = pos 45;
  option_dte_to_close = pos 7;
  option_profit_target_pct = fixed_float.lit 5 1;
  option_default_contracts = pos 1;
  option_max_risk_pct = fixed_float.lit 2 2;
  limit_orders_enabled = false;
  order_cap_bps = amount 0;
  order_cap_ticks = amount 0;
  escalation_dwell_seconds = amount 20;
  market_holidays = [];
}

abbrev pub holding : Text → ℤ → ℕ → Position Fixed
holding s q p = record { symbol = s; qty = q; avg_price = amount p }

-- An account with 200 shares of one symbol and one short call on them, after a day's loss.
abbrev pub account_after : ℤ → AccountSnapshot Fixed
account_after pnl = record {
  cash = amount 30_000;
  total_assets = amount 50_000;
  day_pnl = some (pnl *ℤ pos 10_000);
  stale = false;
  positions_loaded = true;
  unrealized_pnl = amount 0;
  positions = holding aapl (pos 200) 90 ∷ holding (text "US.AAPL260717C210000") (negsuc 0) 3 ∷ [];
}

abbrev pub market_order : Text → Side → ℤ → OrderRequest Fixed
market_order s d q = record {
  symbol = s;
  side = d;
  qty = q;
  order_type = OrderType.market;
  limit_price = none;
  client_order_id = text "at-1";
  trail_percent = none;
  option = none;
  position_effect = PositionEffect.opening;
  correlation_id = none;
}

abbrev pub contract_on : Text → OptionRight → ℕ → ℕ → OptionContract Fixed
contract_on u r k e = record {
  underlying = u;
  expiry = e;
  strike = amount k;
  right = r;
  code = text "US.AAPL260918C220000";
  multiplier = 100;
}

abbrev pub leg_order : OptionContract Fixed → Side → PositionEffect → ℤ → OrderRequest Fixed
leg_order c d e q = record {
  symbol = c.code;
  side = d;
  qty = q;
  order_type = OrderType.market;
  limit_price = none;
  client_order_id = text "at-2";
  trail_percent = none;
  option = some c;
  position_effect = e;
  correlation_id = none;
}
