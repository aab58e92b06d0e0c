-- ===== src/Execution.antt =====
-- The execution engine of services/service-risk-exec/src/service_risk_exec/main.py.
pub mod Orders
pub mod Models
pub mod Engine
pub mod Fills
pub mod Queue
mod Examples
