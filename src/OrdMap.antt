-- ===== src/OrdMap.antt =====
-- soroban-env-host/src/host/metered_map.rs and the binary search of
-- soroban-env-host/src/host/metered_vector.rs: a map as a vector of entries in strict order of keys.
-- What it charges, and how it compares keys, are those of its context, an argument: `Exec S` steps
-- on a state `S` that holds the budget.
pub mod Search
pub mod Order
pub mod Finite
pub mod Changes
pub mod Ops
mod Tests
