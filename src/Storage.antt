-- ===== src/Storage.antt =====
-- soroban-env-host/src/storage.rs with the ledger parameters of soroban-env-host/src/ledger_info.rs:
-- durable ledger entries behind a footprint.
pub mod Ledger
pub mod Footprint
pub mod Access
pub mod Extend
mod Tests
