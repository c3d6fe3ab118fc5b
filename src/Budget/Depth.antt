-- ===== src/Budget/Depth.antt =====
-- `DepthLimiter` of soroban-env-host/src/budget/limits.rs, for `BudgetImpl`.
pub mod Nesting
use rs_soroban_env.Prelude.{ℕ, none, some}
use rs_soroban_env.Prelude.Words.{checked_sub, checked_add_u32}
use rs_soroban_env.Errors.{Result, ok, err, error, ScErrorType, ScErrorCode}
use rs_soroban_env.Errors.Exec.{Exec}
use rs_soroban_env.Budget.Impl.{BudgetImpl}

unfoldable pub enter : Exec BudgetImpl (Unit {0})
unfolding checked_sub
enter b = elim (checked_sub b.depth_limit 1) [
  | some depth ↦ (ok tt, record b { depth_limit = depth })
  | none ↦ (err (error ScErrorType.context ScErrorCode.exceeded_limit), b)
]

unfoldable pub leave : Exec BudgetImpl (Unit {0})
unfolding checked_add_u32
leave b = elim (checked_add_u32 b.depth_limit 1) [
  | some depth ↦ (ok tt, record b { depth_limit = depth })
  | none ↦ (err (error ScErrorType.context ScErrorCode.internal_error), b)
]

-- `leave` runs whatever `f` returned, and an error of its own comes first.
unfoldable pub with_limited_depth : {A : Type 0} → Exec BudgetImpl A → Exec BudgetImpl A
unfolding enter leave
with_limited_depth f b =
    let (entered, b₁) = enter b in
    elim entered [
      | err e ↦ (err e, b₁)
      | ok _ ↦
          let (res, b₂) = f b₁ in
          let (left, b₃) = leave b₂ in elim left [ err e ↦ (err e, b₃) | ok _ ↦ (res, b₃) ]
    ]
