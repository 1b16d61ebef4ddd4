-- ===== src/Lib.antt =====
-- autotrader is a trading engine for a paper account: signals become orders, each order passes a gate
-- of hard limits and one router, and daily jobs keep a database in step with the broker. This library
-- models the parts that decide; what is proved of them is listed at the end.
--
-- The files and the code they model (paths from the repository's root):
--   Prelude, Float     lists, texts (lists of code points), integers; `Float` is an interface for
--                      Python's float, whose operations are parameters. Laws are named where a theorem
--                      needs them (`IsOrdered`), and `Decimal` is a fixed-point instance for examples.
--   Domain             autotrader/domain.py: orders, signals, account snapshots
--   Config             autotrader/config.py: the settings
--   Risk               autotrader/risk_core.py (`evaluate`, `_evaluate_option_leg`) and
--                      autotrader/risk_check.py
--   Engine             autotrader/router.py: `submit` on a world of broker and audit file;
--                      autotrader/main.py: `TradeEngine`, with `tick` (Tick), external signals and
--                      deferred entries (Entry, Deferral), `_route_signal` (Route), `_route_overlay`
--                      (Overlay), `_submit_with_escalation` (Escalation), the trailing stops
--                      (Trailing), the rebalance (Rebalancing) and `apply_risk_check` (LossCheck);
--                      autotrader/breakout_reference.py: `high` (Tick). Vetting holds the rules by
--                      which each method keeps the log sound, Budget the counts of an escalation,
--                      Session the sequences of calls.
--   Rebalance          autotrader/rebalance.py: `target_fractions`, `compute_plan`
--   Options            autotrader/options: `select_contract`, `REGISTRY`, `build_overlay_plan`
--   Trading            autotrader/sizing.py, autotrader/limit_pricing.py, autotrader/strategies
--   Session            autotrader/lifecycle.py (`EntryGate`), autotrader/watchdog.py,
--                      autotrader/scheduler.py, autotrader/market_calendar.py
--   Sim                autotrader/sim_broker.py: the broker in memory, `place_order` and its book
--   Stops              autotrader/stops.py: `StopManager.reconcile`, as an action (Reconcile), with the
--                      orders that its first pass looks at (Orphans)
--   Runner             autotrader/runner.py: `SessionRunner`, with the jobs and the loop
--   Moomoo             autotrader/moomoo_broker.py: the adapter on the SDK and the vendored readers of
--                      its rows, which are parameters: orders (Orders), account and fills (Account),
--                      quotes and highs (Market), the option chain (Windows, Chain);
--                      autotrader/rate_limiter.py (Limiter)
--   Signals            autotrader/signals: `normalize_payload` (Normalize), `coerce_payload` (Coerce),
--                      `adapt_routine_sweep` (Routine), `SignalInbox.poll` (Inbox), the handler of
--                      the webhook (Webhook)
--   Reporting          autotrader/reporting: `realized_from_fills` (Pnl), `parse_option_code`
--                      (OptionCode), `classify_strategy` (Classify), `compute_economics` and
--                      `compute_capital_flow` (Economics)
--   Db                 autotrader/db.py: the tables as lists of rows; autotrader/lifecycle.py
--                      (`ground_truth_sync`, `reconcile_open_orders`)
--   Fixtures and the Tests modules hold values, runs and an example for each theorem of the list below.
--
-- The engine is a state and its methods are actions on it, which answer a value or a fault. A fault
-- ends a method where it is raised and keeps what was done before it. The log of the state lists the
-- lines of the audit file, the orders that reached the broker, the accounts that were read, the
-- cancellations that the broker took and the halts, the newest first.
--
-- The planner and the sizer build orders that the gate judges; the router places what passed; the sync
-- writes what the broker answers into the tables. `Clearance` joins the sizer and the gate for
-- the position that a BUY leads to, and `Coverage` the planner and the gate for the cover of a pair of
-- legs; the gate's other checks are its own, and an order of either may still meet one of them.
--
-- Every function is total. The loops are structural, on lists and on the count of attempts; fuel
-- goes to the decimal digits of a counter (`Prelude.Text.digits`), where one more than the number is
-- enough since each step divides it by ten, to the batches of option codes, where their number is
-- enough since each takes one code at least, and to the polls of the rate limiter, where the rounds
-- that the timer needs to pass the deadline are enough (`Moomoo.Limiter.wait_token-answers`). A float
-- that Python refuses to round or to divide by is an answer `none` or `raised`. A text of a reason is a constructor without the
-- figures it quotes; logging and time stamps are left out.
--
-- Not modelled: the wiring of the process (build_engine and main in autotrader/main.py), the
-- connection of the SDK, the text of the reports, the dashboard and the scripts under skills, which are
-- another project's. The rate limiter is a bucket of tokens as it is written; how many calls fall into
-- one of the broker's windows is not stated.
-- The loop of the runner runs at a list of times, each a day and a minute, which stands for the clock
-- and for the flag that stops it. The locks of the router serialise calls, which here come one after the other.
-- The planner of overlays reads the broker as it stands when it is called.
pub mod Prelude
pub mod Float
pub mod Domain
pub mod Config
pub mod Risk
pub mod Runner
pub mod Session
pub mod Trading
pub mod Rebalance
pub mod Options
pub mod Db
pub mod Engine
pub mod Fixtures
pub mod Sim
pub mod Signals
pub mod Reporting
pub mod Stops
pub mod Moomoo
