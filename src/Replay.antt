-- ===== src/Replay.antt =====
-- The replay of a backtest, apps/api-control-plane/app/domain/backtest_runs/replay.py.
pub mod State
pub mod Steps
pub mod Validate
mod Bookings
mod Accounts
mod Booked
mod Losses
mod Examples
