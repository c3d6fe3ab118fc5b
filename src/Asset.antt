-- ===== src/Asset.antt =====
-- The Stellar asset contract: soroban-env-host/src/builtin_contracts/stellar_asset_contract.
pub mod Allowance
pub mod Classic
pub mod Balance
pub mod Transfer
pub mod Contract
mod Tests
