-- ===== src/Fees.antt =====
-- soroban-env-host/src/fees.rs: the fee computation. A u32 is a number, an i64 an integer;
-- `num_integer` is an argument.
pub mod Resource
pub mod Rent
pub mod WriteFee
mod Tests
