-- ===== src/Portfolio.antt =====
-- The portfolio state service, services/service-portfolio-state/src/service_portfolio_state/main.py.
pub mod Snapshot
pub mod Legacy
pub mod Prod
mod Counts
mod Windows
mod Examples
