-- ===== src/Auth.antt =====
-- Authorization: soroban-env-host/src/auth.rs.
pub mod Function
pub mod Invocation
pub mod Tracker
pub mod Account
pub mod Manager
mod Tests
