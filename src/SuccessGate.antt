-- ===== src/SuccessGate.antt =====
-- The gate that a successful run must pass, of apps/api-control-plane/app/domain/run_success_gate.py.
pub mod Texts
pub mod Checks
pub mod Gate
pub mod Conditions
pub mod Passes
pub mod Sample
mod Examples
