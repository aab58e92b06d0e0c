-- ===== src/Strategy.antt =====
-- services/service-inference-live/src/service_inference_live/strategy_runner.py: from market data to a
-- decision and its stored rationale.
pub mod Events
pub mod Runner
mod Recorded
mod Valid
mod Examples
