-- ===== src/Guard.antt =====
-- The runtime guard of services/service-risk-exec/src/service_risk_exec/guards.py.
pub mod Limits
pub mod Evaluate
pub mod Actions
pub mod Totals
mod Examples
