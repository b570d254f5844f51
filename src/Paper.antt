-- ===== src/Paper.antt =====
-- The paper exchange: packages/exchange/paper.
pub mod Price
pub mod Types
pub mod Tables
pub mod Fill
pub mod Orders
pub mod Stops
pub mod Candle
pub mod Calls
pub mod Invariant
pub mod Crossing
pub mod Replay
pub mod Restart
pub mod Mirror
pub mod Ledger
mod Examples
