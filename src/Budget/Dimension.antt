-- ===== src/Budget/Dimension.antt =====
-- soroban-env-host/src/budget/dimension.rs: one dimension of the budget. A cost type is its
-- discriminant, `ty as usize`, the only thing that this code reads of it. Tracing is left out.
pub mod Config
pub mod Limits
use rs_soroban_env.Prelude.{
  ℕ, suc, ◌+◌, ◌-◌, Option, Bool, true, false, List, [], ◌∷◌, ltb, if◌then◌else◌, get_elem?, set,
  map, replicate,
}
use rs_soroban_env.Prelude.Words.{saturating_add}
use rs_soroban_env.Errors.{Result, ok, err, error, ScErrorType, ScErrorCode, ◌>>=◌, ok_or, Error}
use rs_soroban_env.Errors.Exec.{Exec}
use rs_soroban_env.Budget.Model
use rs_soroban_env.Budget.Model.{MeteredCostComponent, ContractCostParamEntry, try_from, evaluate}

pub record BudgetDimension : Type 0 where
  pub cost_models : List MeteredCostComponent
  pub limit : ℕ
  pub total_count : ℕ
  pub shadow_limit : ℕ
  pub shadow_total_count : ℕ

abbrev pub internal_error : Error
internal_error = error ScErrorType.budget ScErrorCode.internal_error

abbrev pub exceeded_limit : Error
exceeded_limit = error ScErrorType.budget ScErrorCode.exceeded_limit

abbrev pub zero_component : MeteredCostComponent
zero_component = record { const_term = 0; lin_term = 0 }

-- `default()`: `variants` is `ContractCostType::variants().len()`.
unfoldable pub new : ℕ → BudgetDimension
new variants = record {
  cost_models = replicate variants zero_component;
  limit = 0;
  total_count = 0;
  shadow_limit = 0;
  shadow_total_count = 0;
}

-- The loop of `try_from_config`, at index `i`.
fill :
    ℕ → List ContractCostParamEntry → List MeteredCostComponent → Result (List MeteredCostComponent)
fill i [] models = ok models
fill i (cp ∷ rest) models = do
  _ ← ok_or (get_elem? models i) internal_error
  cm ← try_from cp
  fill (suc i) rest (set models i cm)

unfoldable pub try_from_config : ℕ → List ContractCostParamEntry → ℕ → Result BudgetDimension
unfolding fill new
try_from_config variants params limit = do
  models ← fill 0 params (new variants).cost_models
  ok (record (new variants) { cost_models = models; limit = limit; shadow_limit = limit })

unfoldable pub get_cost_model : BudgetDimension → ℕ → Result MeteredCostComponent
get_cost_model d ty = ok_or (get_elem? d.cost_models ty) internal_error

unfoldable pub get_remaining : BudgetDimension → ℕ
get_remaining d = d.limit - d.total_count

unfoldable pub reset_count : BudgetDimension → BudgetDimension
reset_count d = record d { total_count = 0; shadow_total_count = 0 }

unfoldable pub reset : BudgetDimension → ℕ → BudgetDimension
unfolding reset_count
reset d limit = reset_count (record d { limit = limit; shadow_limit = limit })

unfoldable pub check_budget_limit : BudgetDimension → Bool → Result (Unit {0})
check_budget_limit d is_shadow =
    let over_limit =
      if is_shadow then ltb d.shadow_limit d.shadow_total_count else ltb d.limit d.total_count in
    if over_limit then err exceeded_limit else ok tt

-- The two writes at the end of `charge`.
add_amount : Bool → ℕ → BudgetDimension → BudgetDimension
unfolding saturating_add
add_amount true amount d = record d {
  shadow_total_count = saturating_add d.shadow_total_count amount;
}
add_amount false amount d = record d { total_count = saturating_add d.total_count amount }

-- Returns the amount charged; an error changes nothing.
unfoldable pub charge : ℕ → ℕ → Option ℕ → Bool → Exec BudgetDimension ℕ
unfolding add_amount get_cost_model
charge ty iterations input is_shadow d =
    let amount : Result ℕ = (do cm ← get_cost_model d ty; evaluate cm iterations input) in
    elim amount [ err e ↦ (err e, d) | ok amount ↦ (ok amount, add_amount is_shadow amount d) ]

unfoldable pub get_cost : BudgetDimension → ℕ → ℕ → Option ℕ → Result ℕ
unfolding get_cost_model
get_cost d ty iterations input = do cm ← get_cost_model d ty; evaluate cm iterations input

unfoldable pub reset_models : BudgetDimension → BudgetDimension
unfolding Model.reset
reset_models d = record d { cost_models = map Model.reset d.cost_models }
