-- ===== src/WebSockets.antt =====
-- The connection manager of apps/api-control-plane/app/ws/manager.py.
pub mod Manager
pub mod Window
pub mod Steps
pub mod Replay
pub mod Sockets
mod Examples
