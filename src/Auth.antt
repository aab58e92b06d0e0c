-- ===== src/Auth.antt =====
-- The bearer-token middleware, apps/api-control-plane/app/core/auth.py.
pub mod Credentials
pub mod Dispatch
mod Authorized
mod Printing
mod Reading
mod Examples
