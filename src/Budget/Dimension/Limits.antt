-- ===== src/Budget/Dimension/Limits.antt =====
-- Charges against the limits of one dimension.
use rs_soroban_env.Prelude.{ℕ, ◌+◌, ◌≤◌, ◌≡◌, Option, true, false, arith, min}
use rs_soroban_env.Prelude.Words.{u64_max, saturating_add}
use rs_soroban_env.Errors.{ok}
use rs_soroban_env.Budget.Dimension.{BudgetDimension, charge, get_cost}

-- What a dimension holds of a u64 range.
pub record IsValid (d : BudgetDimension) : Type 0 where
  pub limit_range : d.limit ≤ u64_max
  pub count_range : d.total_count ≤ u64_max
  pub shadow_limit_range : d.shadow_limit ≤ u64_max
  pub shadow_count_range : d.shadow_total_count ≤ u64_max

-- A charge adds its cost to the counter of its mode, saturating, and leaves the counter of the
-- other mode, the limits and the cost models as they are.
pub charge_lem :
    (ty it : ℕ) (input : Option ℕ) (d : BudgetDimension) (c : ℕ)
    → get_cost d ty it input ≡ ok c
    → (charge ty it input false d
        ≡ (ok c, record d { total_count = min (d.total_count + c) u64_max }))
      × (charge ty it input true d
          ≡ (ok c, record d { shadow_total_count = min (d.shadow_total_count + c) u64_max }))
unfolding charge get_cost saturating_add
charge_lem ty it input d c h = ground arith
