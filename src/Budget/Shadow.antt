-- ===== src/Budget/Shadow.antt =====
-- Shadow mode: work that must not be seen in the budget of the invocation.
pub mod Unseen
use rs_soroban_env.Prelude.{Bool, true, false}
use rs_soroban_env.Errors
use rs_soroban_env.Errors.{Result, ok, err}
use rs_soroban_env.Errors.Exec.{Exec}
use rs_soroban_env.Budget.Dimension.{check_budget_limit}
use rs_soroban_env.Budget.Impl.{BudgetImpl}

-- The check before the closure.
may_run : BudgetImpl → Result (Unit {0})
unfolding check_budget_limit
may_run b = Errors.◌>>◌ (check_budget_limit b.cpu_insns true) (check_budget_limit b.mem_bytes true)

-- `Budget::with_shadow_mode`: what the closure returns is dropped.
unfoldable pub with_shadow_mode : {A : Type 0} → Exec BudgetImpl A → BudgetImpl → BudgetImpl
unfolding may_run
with_shadow_mode f b =
    let prev = b.is_in_shadow_mode in
    let b₁ = record b { is_in_shadow_mode = true } in
    let b₂ : BudgetImpl = elim (may_run b₁) [ ok _ ↦ (f b₁).1 | err _ ↦ b₁ ] in
    record b₂ { is_in_shadow_mode = prev }

-- `Budget::with_observable_shadow_mode` of budget/util.rs: it hands on the closure's result.
unfoldable pub with_observable_shadow_mode : {A : Type 0} → Exec BudgetImpl A → Exec BudgetImpl A
unfolding may_run
with_observable_shadow_mode {A} f b =
    let prev = b.is_in_shadow_mode in
    let b₁ = record b { is_in_shadow_mode = true } in
    let out : Result A × BudgetImpl = elim (may_run b₁) [ ok _ ↦ f b₁ | err e ↦ (err e, b₁) ] in
    (out.0, record out.1 { is_in_shadow_mode = prev })
