-- ===== src/Lib.antt =====
-- Soroban's host, modelled part by part: how it meters what a contract does, and what is paid for it.
--
-- The host (soroban-env-host) runs contracts for the Stellar network. Every step of it is charged to
-- a budget of CPU instructions and memory; a transaction pays fees for the resources that it declares
-- and rent for the ledger entries that it keeps.
--
-- - Errors: soroban-env-host/src/host/error.rs. A `HostError` is the pair of its type and code.
--   `Result` is a fallible result, `Exec S` a method on `&mut self` that may fail: an error keeps the
--   state as the failing step left it, as Rust's `?` does.
-- - Budget/Model: soroban-env-host/src/budget/model.rs, `MeteredCostComponent` and its `evaluate`.
-- - Budget/Dimension: soroban-env-host/src/budget/dimension.rs, `BudgetDimension` with its limits and
--   counters, `try_from_config`, `charge` and `check_budget_limit`.
-- - Budget/Tracker and Budget/Impl: soroban-env-host/src/budget.rs, `BudgetTracker` and `BudgetImpl`.
--   `bulk_charge` is `BudgetImpl::charge`, a sequence of the steps of its body in their order;
--   `charge` is `Budget::charge`. The resets are those of soroban-env-host/src/budget/util.rs.
-- - Budget/Depth: `DepthLimiter` of soroban-env-host/src/budget/limits.rs.
-- - Budget/Shadow: `with_shadow_mode` and `with_observable_shadow_mode`.
-- - Fees/Resource, Fees/WriteFee, Fees/Rent: soroban-env-host/src/fees.rs, function by function.
-- - OrdMap/Search: `binary_search_by_pre_rust_182` of soroban-env-host/src/host/metered_vector.rs.
-- - OrdMap/Ops: `MeteredOrdMap` of soroban-env-host/src/host/metered_map.rs, operation by operation. Its
--   `Ctx` parameter is the record `Context` of what it charges and how it compares keys, on a state of
--   its own; OrdMap/Finite is the finite map that a sorted vector of entries stands for. `Computes`
--   (Errors/Computes) states what a metered operation gives: one result or an error in every state,
--   and that result wherever the budget is unlimited.
-- - Storage/Ledger: soroban-env-host/src/ledger_info.rs and its helper in
--   soroban-env-host/src/host/ledger_info_helper.rs. Storage/Footprint, Storage/Access and
--   Storage/Extend: `Footprint` and `Storage` of soroban-env-host/src/storage.rs, on ordered maps. XDR
--   keys and entries are arguments, with their types; the `recording_mode` feature of the build is a
--   flag; `decorate_storage_error` leaves types and codes of errors as they are and is left out.
-- - Values: the tagged 64-bit words of soroban-env-common/src/val.rs, num.rs, object.rs and symbol.rs.
--   Values/Tag has the tags and their codes, Values/Val the fields of a word, Values/Small the numbers
--   that fit a word, Values/Symbol the small symbols and Values/Good the test `is_good`. A value is its
--   payload, a natural number below 2 ^ 64. `ScError::try_from` is an argument.
-- - Frames/Events: the buffer of soroban-env-host/src/events/internal.rs. Frames/Stack and Frames/Run:
--   the context stack, rollback points and `with_frame` of soroban-env-host/src/host/frame.rs, with
--   `try_call` of soroban-env-host/src/host.rs. `Parts` holds what frames use of the authorization
--   manager, the budget, the hooks and the ledger; a closure is a step of the host. Frames/Run/Programs
--   has programs of nested calls, Frames/Calls the tests and the dispatch of `call_n_internal`. The stack
--   is a list with its top first.
-- - Asset/Allowance: the allowances of the Stellar asset contract, allowance.rs in
--   soroban-env-host/src/builtin_contracts/stellar_asset_contract. `TemporaryData` is the contract's
--   temporary storage, an interface with the laws `Lawful`.
-- - Auth: soroban-env-host/src/auth.rs, with enforcing authorization. Auth/Function and Auth/Invocation are
--   the functions and trees that are authorized, Auth/Tracker is `InvocationTracker`, which matches a tree
--   against calls; Auth/Account the tracker of an account, its authentication and nonce; Auth/Manager is
--   `AuthorizationManager`, with its frames in Auth/Manager/Frames and Auth/Manager/Pop. A `RefCell` of a
--   tracker is its content and whether it is borrowed, as it is while it authenticates; `AccountHost` is
--   what the manager asks of the host, where a custom account may call back. The match stack and the call
--   stack are lists with the top last. An attempt to match is made in a frame: on an empty match stack the
--   source's subtraction would fail, and the model's stops at 0.
-- - Asset/Classic, Asset/Balance, Asset/Transfer: the balances of that contract, balance.rs in the same
--   directory, and `transfer` of its contract.rs; Asset/Contract has the other entry points and admin.rs. The persistent data of balances have the interface of
--   the temporary data; entries of accounts and trustlines have the fields and flags that the code reads,
--   and the sums of reserves wrap around as an i64 does where overflow is not checked.
--
-- Numbers: a u32 or u64 is a natural number, an i64 or i128 an integer, and each saturating or checked
-- operation is written with its bound (Prelude/Words, Prelude/Signed). A cost type is its
-- discriminant. `num_integer::div_ceil` comes from a crate and is an argument, with its rounding as a
-- law for positive divisors.
--
-- The loop of the binary search runs on fuel, one round more than there are elements, and
-- `search_loop-ne-none` shows that it is enough. The iterator of a small symbol has 11 rounds, since 11
-- shifts by 6 bits empty a word of 64. Every other loop recurs on the list that the source iterates over.
--
-- Not modelled: the calibrated tables of default costs, formatting and tracing, `RefCell` borrows other
-- than those of the trackers (no other modelled method holds one across a call of another), the fuel
-- costs of the wasm interpreter; the comparison of whole maps, recorded authorization and the XDR of
-- authorizations and events, metadata and events of the Stellar asset contract, the other built-in
-- contracts, the conversions of values and the virtual machine.
pub mod Prelude
pub mod Errors
pub mod Budget
pub mod Fees
pub mod OrdMap
pub mod Storage
pub mod Values
pub mod Frames
pub mod Asset
pub mod Auth
