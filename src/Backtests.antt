-- ===== src/Backtests.antt =====
-- Creating and paging backtest runs: apps/api-control-plane/app/domain/backtest_runs/service.py,
-- apps/api-control-plane/app/api/routers/backtest_runs.py, and resolve_lineage_spec of
-- libs/py/gb_core/src/gb_core/lineage.py.
pub mod Lineage
pub mod Checks
pub mod Create
pub mod Pages
mod Leaks
mod Conditions
mod Tokens
mod Admitted
mod Paging
mod Examples
