-- ===== src/Errors.antt =====
-- The errors of the host, soroban-env-common/src/error.rs and soroban-env-host/src/host/error.rs:
-- a `HostError` is known by its type and code, the backtrace and the events that it carries are
-- only for display. `Result` is `Result<_, HostError>`, and `Exec S` is a computation on a shared
-- state that may return an error: what it changed before it failed stays changed.
mod Defs
pub mod Exec
pub mod Computes
pub mod Kept
pub mod Preserves
pub use Defs.*
