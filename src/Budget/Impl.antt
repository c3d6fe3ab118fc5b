-- ===== src/Budget/Impl.antt =====
-- `BudgetImpl` of soroban-env-host/src/budget.rs, and the methods of `Budget` that reach it through
-- `Rc<RefCell<_>>`: no modelled method holds a borrow while it calls another, so no borrow fails.
-- `fuel_costs`, a table of the wasm interpreter that no metering reads, is left out.
pub mod Charges
pub mod Runs
pub mod Fuel
use rs_soroban_env.Prelude.{
  ℕ, ◌/◌, ◌+◌, Option, none, some, Bool, true, false, List, get_elem?, set, if◌then◌else◌, max, ltb,
}
use rs_soroban_env.Prelude.Words.{
  u32_max, u64_max, saturating_add, saturating_mul, saturating_add_u32,
}
use rs_soroban_env.Errors
use rs_soroban_env.Errors.{Result, ok, err, ok_or}
use rs_soroban_env.Errors.Exec.{Exec, ◌>>=◌, ◌>>◌, lift, modify}
use rs_soroban_env.Budget.Model.{ContractCostParamEntry}
use rs_soroban_env.Budget.Dimension
use rs_soroban_env.Budget.Dimension.{
  BudgetDimension, check_budget_limit, internal_error, get_cost, get_remaining, get_cost_model,
}
use rs_soroban_env.Budget.Tracker
use rs_soroban_env.Budget.Tracker.{CostTracker, BudgetTracker}

pub record BudgetImpl : Type 0 where
  pub cpu_insns : BudgetDimension
  pub mem_bytes : BudgetDimension
  pub tracker : BudgetTracker
  pub is_in_shadow_mode : Bool
  pub depth_limit : ℕ

abbrev pub default_host_depth_limit : ℕ
default_host_depth_limit = 100

-- `tracker` is `BudgetTracker::default()`, with one entry for each of `variants` cost types.
unfoldable pub try_from_configs :
    ℕ
    → BudgetTracker
    → ℕ
    → ℕ
    → List ContractCostParamEntry
    → List ContractCostParamEntry
    → Result BudgetImpl
try_from_configs variants tracker cpu_limit mem_limit cpu_params mem_params =
    Errors.◌>>=◌ (Dimension.try_from_config variants cpu_params cpu_limit) λ cpu.
      Errors.◌>>=◌ (Dimension.try_from_config variants mem_params mem_limit) λ mem. ok (record {
        cpu_insns = cpu;
        mem_bytes = mem;
        tracker = tracker;
        is_in_shadow_mode = false;
        depth_limit = default_host_depth_limit;
      })

unfoldable pub get_memory_cost : BudgetImpl → ℕ → ℕ → Option ℕ → Result ℕ
get_memory_cost b ty iterations input = get_cost b.mem_bytes ty iterations input

-- A write to the tracker of one cost type.
pub put_tracker : ℕ → CostTracker → BudgetImpl → BudgetImpl
put_tracker ty t b = record b {
  tracker = record b.tracker { cost_trackers = set b.tracker.cost_trackers ty t };
}

-- The tracker of a cost type, to be changed; only outside shadow mode is it written.
pub with_tracker : ℕ → (CostTracker → CostTracker) → BudgetImpl → BudgetImpl
unfolding put_tracker
with_tracker ty f b =
    if b.is_in_shadow_mode
    then b
    else elim (get_elem? b.tracker.cost_trackers ty) [ none ↦ b | some t ↦ put_tracker ty (f t) b ]

-- The new value of `tracker.inputs`, if the input fits the cost type.
pub add_input : Option ℕ → Option ℕ → ℕ → Result (Option ℕ)
unfolding saturating_add saturating_mul
add_input none none iterations = ok none
add_input (some t) (some i) iterations = ok (some (saturating_add t (saturating_mul i iterations)))
add_input none (some _) iterations = err internal_error
add_input (some _) none iterations = err internal_error

-- The first block of `charge`: the counts of the calls are written also where the input is refused.
pub track_call : ℕ → ℕ → Option ℕ → Exec BudgetImpl (Unit {0})
unfolding put_tracker add_input saturating_add saturating_add_u32
track_call ty iterations input b = elim (get_elem? b.tracker.cost_trackers ty) [
  | none ↦ (err internal_error, b)
  | some t ↦
      if b.is_in_shadow_mode
      then (ok tt, b)
      else let counted : CostTracker = record t {
        iterations = saturating_add t.iterations iterations;
      } in
        let b' = record b {
          tracker = record b.tracker { meter_count = saturating_add_u32 b.tracker.meter_count 1 };
        } in
        elim (add_input t.inputs input iterations) [
          | ok inputs ↦ (ok tt, put_tracker ty (record counted { inputs = inputs }) b')
          | err e ↦ (err e, put_tracker ty counted b')
        ]
]

pub charge_cpu : ℕ → ℕ → Option ℕ → Exec BudgetImpl ℕ
unfolding Dimension.charge
charge_cpu ty iterations input b =
    let (r, d) = Dimension.charge ty iterations input b.is_in_shadow_mode b.cpu_insns in
    (r, record b { cpu_insns = d })

pub charge_mem : ℕ → ℕ → Option ℕ → Exec BudgetImpl ℕ
unfolding Dimension.charge
charge_mem ty iterations input b =
    let (r, d) = Dimension.charge ty iterations input b.is_in_shadow_mode b.mem_bytes in
    (r, record b { mem_bytes = d })

pub track_cpu : ℕ → ℕ → Exec BudgetImpl (Unit {0})
unfolding with_tracker saturating_add
track_cpu ty amount = modify (with_tracker ty λ t. record t { cpu = saturating_add t.cpu amount })

pub track_mem : ℕ → ℕ → Exec BudgetImpl (Unit {0})
unfolding with_tracker saturating_add
track_mem ty amount = modify (with_tracker ty λ t. record t { mem = saturating_add t.mem amount })

pub check_cpu : Exec BudgetImpl (Unit {0})
unfolding check_budget_limit
check_cpu = lift λ b. check_budget_limit b.cpu_insns b.is_in_shadow_mode

pub check_mem : Exec BudgetImpl (Unit {0})
unfolding check_budget_limit
check_mem = lift λ b. check_budget_limit b.mem_bytes b.is_in_shadow_mode

-- `BudgetImpl::charge`, which `Budget::bulk_charge` calls.
unfoldable pub bulk_charge : ℕ → ℕ → Option ℕ → Exec BudgetImpl (Unit {0})
unfolding track_call charge_cpu charge_mem track_cpu track_mem check_cpu check_mem
bulk_charge ty iterations input = do
  track_call ty iterations input
  cpu_charged ← charge_cpu ty iterations input
  track_cpu ty cpu_charged
  check_cpu
  mem_charged ← charge_mem ty iterations input
  track_mem ty mem_charged
  check_mem

-- `Budget::charge`.
unfoldable pub charge : ℕ → Option ℕ → Exec BudgetImpl (Unit {0})
unfolding bulk_charge
charge ty input = bulk_charge ty 1 input

-- `wasm_insn_exec` is the discriminant of `ContractCostType::WasmInsnExec`. `◌/◌` is by at least 1.
unfoldable pub get_wasmi_fuel_remaining : ℕ → BudgetImpl → Result ℕ
unfolding get_cost_model get_remaining
get_wasmi_fuel_remaining wasm_insn_exec b =
    Errors.◌>>=◌ (get_cost_model b.cpu_insns wasm_insn_exec)
      λ cost_model. ok (get_remaining b.cpu_insns / max cost_model.const_term 1)

unfoldable pub set_shadow_limits : ℕ → ℕ → BudgetImpl → BudgetImpl
set_shadow_limits cpu mem b = record b {
  cpu_insns = record b.cpu_insns { shadow_limit = cpu };
  mem_bytes = record b.mem_bytes { shadow_limit = mem };
}

unfoldable pub ensure_shadow_cpu_limit_factor : ℕ → BudgetImpl → BudgetImpl
unfolding saturating_mul
ensure_shadow_cpu_limit_factor factor b = record b {
  cpu_insns = record b.cpu_insns { shadow_limit = saturating_mul b.cpu_insns.limit factor };
}

unfoldable pub ensure_shadow_mem_limit_factor : ℕ → BudgetImpl → BudgetImpl
unfolding saturating_mul
ensure_shadow_mem_limit_factor factor b = record b {
  mem_bytes = record b.mem_bytes { shadow_limit = saturating_mul b.mem_bytes.limit factor };
}

unfoldable pub get_tracker : BudgetImpl → ℕ → Result CostTracker
get_tracker b ty = ok_or (get_elem? b.tracker.cost_trackers ty) internal_error

-- budget/util.rs.
unfoldable pub reset_limits : ℕ → ℕ → BudgetImpl → BudgetImpl
unfolding Dimension.reset Tracker.reset
reset_limits cpu mem b = record b {
  cpu_insns = Dimension.reset b.cpu_insns cpu;
  mem_bytes = Dimension.reset b.mem_bytes mem;
  tracker = Tracker.reset b.tracker;
}

unfoldable pub reset_unlimited_cpu : BudgetImpl → BudgetImpl
unfolding Dimension.reset Tracker.reset
reset_unlimited_cpu b = record b {
  cpu_insns = Dimension.reset b.cpu_insns u64_max;
  tracker = Tracker.reset b.tracker;
}

unfoldable pub reset_unlimited_mem : BudgetImpl → BudgetImpl
unfolding Dimension.reset Tracker.reset
reset_unlimited_mem b = record b {
  mem_bytes = Dimension.reset b.mem_bytes u64_max;
  tracker = Tracker.reset b.tracker;
}

unfoldable pub reset_unlimited : BudgetImpl → BudgetImpl
unfolding reset_unlimited_cpu reset_unlimited_mem
reset_unlimited b = reset_unlimited_mem (reset_unlimited_cpu b)

unfoldable pub cpu_limit_exceeded : BudgetImpl → Bool
cpu_limit_exceeded b = ltb b.cpu_insns.limit b.cpu_insns.total_count

unfoldable pub mem_limit_exceeded : BudgetImpl → Bool
mem_limit_exceeded b = ltb b.mem_bytes.limit b.mem_bytes.total_count
