-- ===== src/Risk.antt =====
-- The risk authority: libs/py/gb_core/src/gb_core/risk.py, with its messages of schemas.py.
pub mod Schema
pub mod Rules
pub mod Authority
pub mod Log
pub mod Approval
pub mod Decisions
pub mod Overrides
pub mod Stricter
pub mod Monitors
pub mod Alerts
mod Examples
