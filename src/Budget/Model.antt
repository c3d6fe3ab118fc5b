-- ===== src/Budget/Model.antt =====
-- soroban-env-host/src/budget/model.rs: the linear cost models, const_term + lin_term * input.
-- `ScaledU64` is its number; the linear term is scaled by 2 ^ 7.
pub mod Evaluate
use rs_soroban_env.Prelude.{ℕ, ◌*◌, ◌/◌, ◌%◌, ◌^◌, Option, none, some, ◌||◌, ◌==◌, if◌then◌else◌}
use rs_soroban_env.Prelude.Int.{ℤ, pos, ltb_ℤ, pos_part}
use rs_soroban_env.Prelude.Words.{saturating_add, saturating_mul}
use rs_soroban_env.Errors.{Result, ok, err, error, ScErrorType, ScErrorCode}

abbrev pub scale_bits : ℕ
scale_bits = 7

-- A left shift of a u64 loses the bits above it.
unfoldable pub from_unscaled_u64 : ℕ → ℕ
from_unscaled_u64 u = u * 2 ^ scale_bits % 2 ^ 64

unfoldable pub unscale : ℕ → ℕ
unscale s = s / 2 ^ scale_bits

unfoldable pub safe_div : ℕ → ℕ → ℕ
safe_div s rhs = if rhs == 0 then 0 else s / rhs

pub record MeteredCostComponent : Type 0 where
  pub const_term : ℕ
  pub lin_term : ℕ

-- `ContractCostParamEntry` of the XDR: two i64.
pub record ContractCostParamEntry : Type 0 where
  pub const_term : ℤ
  pub linear_term : ℤ

unfoldable pub try_from : ContractCostParamEntry → Result MeteredCostComponent
try_from entry =
    if ltb_ℤ entry.const_term (pos 0) || ltb_ℤ entry.linear_term (pos 0)
    then err (error ScErrorType.context ScErrorCode.invalid_input)
    else ok
        (record { const_term = pos_part entry.const_term; lin_term = pos_part entry.linear_term })

-- The cost of `iterations` runs of the model on an input of this size, `none` for constant models.
unfoldable pub evaluate : MeteredCostComponent → ℕ → Option ℕ → Result ℕ
unfolding saturating_add saturating_mul unscale
evaluate m iterations none = ok (saturating_mul m.const_term iterations)
evaluate m iterations (some input) =
    let const_term = saturating_mul m.const_term iterations in
    if m.lin_term == 0
    then ok const_term
    else ok (
        saturating_add const_term
          (unscale (saturating_mul (saturating_mul m.lin_term input) iterations)))

unfoldable pub reset : MeteredCostComponent → MeteredCostComponent
reset m = record { const_term = 0; lin_term = 0 }
