-- ===== src/Values.antt =====
-- The 64-bit values of soroban-env-common/src: their tags and fields (val.rs), the small forms of
-- numbers (num.rs) and of symbols (symbol.rs). A `Val` is its payload, a number below 2 ^ 64.
pub mod Tag
pub mod Val
pub mod Small
pub mod Symbol
pub mod Good
mod Tests
