-- ===== src/RiskService.antt =====
-- The risk execution service: `_consume_intent_payload` of
-- services/service-risk-exec/src/service_risk_exec/main.py.
pub mod Consume
pub mod Gate
pub mod Counters
mod Examples
