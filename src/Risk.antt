-- ===== src/Risk.antt =====
-- The pre-scoring risk gates of services/strategy_engine/app and the queries they stand on
-- (packages/db/queries/trades.py, packages/db/queries/kill_switch.py), with the knobs of
-- packages/scoring/types.py.
pub mod Trades
pub mod KillSwitch
pub mod Cooldown
pub mod Caps
pub mod OppositeSide
pub mod LossLimit
pub mod Drawdown
pub mod Latch
pub mod PeakQuery
pub mod Verdicts
mod Examples
