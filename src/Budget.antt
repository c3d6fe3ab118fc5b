-- ===== src/Budget.antt =====
-- soroban-env-host/src/budget.rs and budget/: the cost models, one dimension of the budget (CPU or
-- memory), the tracker with both dimensions, and the depth limit.
pub mod Model
pub mod Dimension
pub mod Tracker
pub mod Impl
pub mod Depth
pub mod Shadow
mod Tests
