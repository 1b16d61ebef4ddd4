-- ===== src/Config.antt =====
-- autotrader/config.py, lines 23 to 85: the frozen risk configuration, field by field.
use autotrader_ai.Prelude.{ℕ, Bool, List}
use autotrader_ai.Prelude.Int.{ℤ}
use autotrader_ai.Prelude.Text.{Text}
use autotrader_ai.Float.{fixed_float}

pub record RiskConfig (W : Type 0) : Type 0 where
  pub trading_env : Text
  pub min_confidence : W
  pub max_order_notional : W
  pub max_position_qty : ℤ
  pub daily_loss_limit : W
  pub max_gross_exposure : W
  pub allowed_symbols : List Text
  pub trailing_stop_pct : W
  pub risk_per_trade_pct : W
  pub confidence_size_floor : W
  pub confidence_size_ceil : W
  pub rebalance_enabled : Bool
  pub rebalance_band_pct : W
  pub rebalance_min_notional : W
  pub rebalance_cash_buffer_pct : W
  pub target_staleness_hours : W
  pub daily_loss_halt : W
  pub allowed_overlays : List Text
  pub max_option_contracts : ℤ
  pub max_option_premium_per_trade : W
  pub option_target_delta : W
  pub option_dte_min : ℤ
  pub option_dte_max : ℤ
  pub option_dte_to_close : ℤ
  pub option_profit_target_pct : W
  pub option_default_contracts : ℤ
  pub option_max_risk_pct : W
  pub limit_orders_enabled : Bool
  pub order_cap_bps : W
  pub order_cap_ticks : W
  pub escalation_dwell_seconds : W
  pub market_holidays : List ℕ
