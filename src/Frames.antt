-- ===== src/Frames.antt =====
-- Frames of the host: soroban-env-host/src/host/frame.rs and soroban-env-host/src/events/internal.rs.
pub mod Events
pub mod Stack
pub mod Run
pub mod Calls
pub mod Tests
