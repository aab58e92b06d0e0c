-- ===== src/EventLog.antt =====
-- The in-memory event log of libs/py/gb_core/src/gb_core/event_log.py.
pub mod Record
pub mod Writer
pub mod Append
pub mod Retention
pub mod Segments
mod Examples
