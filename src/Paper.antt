-- ===== src/Paper.antt =====
-- The paper execution engine of libs/py/gb_core/src/gb_core/paper_execution.py.
pub mod Events
pub mod Slices
pub mod Engine
pub mod Fills
pub mod Results
mod Examples
