-- ===== src/Budget/Tests.antt =====
-- The budget at concrete inputs: charges of a constant and of a linear cost type.
use rs_soroban_env.Prelude.{
  ℕ, ◌+◌, ◌*◌, ◌/◌, ◌≤◌, ◌<◌, ◌≡◌, refl, none, some, false, List, [], ◌∷◌, arith, ◌⊎◌,
}
use rs_soroban_env.Prelude.Int.{pos, negsuc}
use rs_soroban_env.Prelude.Words.{u64_max}
use rs_soroban_env.Errors.{ok, err, is_ok, error, ScErrorType, ScErrorCode}
use rs_soroban_env.Errors.Exec.{Exec, pure}
use rs_soroban_env.Budget.Model.{MeteredCostComponent, ContractCostParamEntry, evaluate, try_from}
use rs_soroban_env.Budget.Model.Evaluate.{evaluate_mono, evaluate_exact}
use rs_soroban_env.Budget.Dimension.{
  BudgetDimension, exceeded_limit, get_cost, get_cost_model, try_from_config,
}
use rs_soroban_env.Budget.Dimension.Config.{try_from_config_lem, entry}
use rs_soroban_env.Budget.Tracker.{BudgetTracker}
use rs_soroban_env.Budget.Impl.{BudgetImpl, bulk_charge, get_wasmi_fuel_remaining, reset_unlimited}
use rs_soroban_env.Budget.Impl.Charges.{bulk_charge_lem}
use rs_soroban_env.Budget.Impl.Runs.{
  Charge, run_charges, run_charges_lem, reset_unlimited_lem, Priced,
}
use rs_soroban_env.Budget.Impl.Fuel.{get_wasmi_fuel_remaining_lem}
use rs_soroban_env.Budget.Depth.Nesting.{nested, nested_lem, lowered}
use rs_soroban_env.Budget.Shadow.{with_shadow_mode, with_observable_shadow_mode}
use rs_soroban_env.Budget.Shadow.Unseen.{with_shadow_mode_lem, SameReal}

-- Two cost types: wasm instructions, at a constant cost, and copies, which have an input.
abbrev insn : MeteredCostComponent
insn = record { const_term = 4; lin_term = 0 }

abbrev copy : MeteredCostComponent
copy = record { const_term = 42; lin_term = 16 }

abbrev dimension : BudgetDimension
dimension = record {
  cost_models = insn ∷ copy ∷ [];
  limit = 100;
  total_count = 0;
  shadow_limit = 100;
  shadow_total_count = 0;
}

abbrev trackers : BudgetTracker
trackers = record {
  cost_trackers =
      record { iterations = 0; inputs = none; cpu = 0; mem = 0 }
      ∷ record { iterations = 0; inputs = some 0; cpu = 0; mem = 0 }
      ∷ [];
  meter_count = 0;
  wasm_memory = 0;
  time_tracker = 0 ∷ 0 ∷ [];
}

abbrev fresh : BudgetImpl
fresh = record {
  cpu_insns = dimension;
  mem_bytes = dimension;
  tracker = trackers;
  is_in_shadow_mode = false;
  depth_limit = 2;
}

abbrev charges : List Charge
charges =
    record { ty = 1; iterations = 1; input = some 64; cpu_cost = 50; mem_cost = 50 }
    ∷ record { ty = 0; iterations = 5; input = none; cpu_cost = 20; mem_cost = 20 }
    ∷ []

charges-Priced : Priced fresh charges
unfolding get_cost evaluate
charges-Priced = (refl, refl, refl, (refl, refl, refl, tt))

-- 42 + 16 * 64 / 128 and 5 * 4.
copies_and_instructions : (run_charges charges fresh).1.cpu_insns.total_count ≡ 70
unfolding run_charges bulk_charge evaluate
copies_and_instructions = refl

run_charges_lem_example :
    let (r, b') = run_charges charges fresh in
    ((70 ≤ 100)
      × (70 ≤ 100)
      × (r ≡ ok tt)
      × (b'.cpu_insns.total_count ≡ 70)
      × (b'.mem_bytes.total_count ≡ 70))
    ⊎ (((100 < 70) ⊎ (100 < 70)) × (r ≡ err exceeded_limit))
run_charges_lem_example =
    run_charges_lem charges fresh refl (omega arith) (omega arith) (omega arith) (omega arith)
      charges-Priced

bulk_charge_lem_example :
    let (r, b') = bulk_charge 1 3 (some 64) fresh in
    (b'.cpu_insns ≡ record dimension { total_count = 150 })
    × (r ≡ err exceeded_limit)
    × (b'.mem_bytes ≡ dimension)
    × (b'.is_in_shadow_mode ≡ false)
    × (b'.depth_limit ≡ 2)
unfolding get_cost evaluate
bulk_charge_lem_example = bulk_charge_lem 1 3 150 150 (some 64) fresh refl refl refl refl

abbrev over : BudgetImpl
over = record fresh { mem_bytes = record dimension { total_count = 101 } }

with_shadow_mode_lem_example :
    let b₁ = with_shadow_mode (run_charges charges) fresh in
    let b₂ = (with_observable_shadow_mode (run_charges charges) fresh).1 in
    SameReal fresh b₁
    × (b₁.is_in_shadow_mode ≡ false)
    × SameReal fresh b₂
    × (b₂.is_in_shadow_mode ≡ false)
with_shadow_mode_lem_example = with_shadow_mode_lem charges fresh

abbrev seven : Exec BudgetImpl ℕ
seven = pure 7

nested_lem_example :
    (((3 ≤ 2) × ((nested 3 seven fresh).0 ≡ (seven (lowered 3 fresh)).0))
      ⊎ ((2 < 3)
          × ((nested 3 seven fresh).0
              ≡ err (error ScErrorType.context ScErrorCode.exceeded_limit))))
    × ((nested 3 seven fresh).1.depth_limit ≡ 2)
nested_lem_example = nested_lem seven (λ c. refl) 3 fresh (omega arith)

get_wasmi_fuel_remaining_lem_example :
    (f : ℕ) × (get_wasmi_fuel_remaining 0 fresh ≡ ok f) × (f * 4 ≤ 100) × (100 < f * 4 + 4)
unfolding get_cost_model
get_wasmi_fuel_remaining_lem_example = get_wasmi_fuel_remaining_lem 0 fresh insn refl

unlimited-Priced : Priced (reset_unlimited fresh) charges
unfolding get_cost evaluate reset_unlimited
unlimited-Priced = (refl, refl, refl, (refl, refl, refl, tt))

reset_unlimited_lem_example : (run_charges charges (reset_unlimited fresh)).0 ≡ ok tt
reset_unlimited_lem_example = reset_unlimited_lem charges fresh refl unlimited-Priced

evaluate_mono_example :
    (c c' : ℕ) × (evaluate copy 1 none ≡ ok c)
    × (evaluate copy 2 (some 64) ≡ ok c')
    × (c ≤ c')
    × (c' ≤ u64_max)
evaluate_mono_example = evaluate_mono copy 1 2 none (some 64) (omega arith) (omega arith)

evaluate_exact_example : evaluate copy 26 (some 1) ≡ ok (42 * 26 + 16 * 1 * 26 / 128)
evaluate_exact_example = evaluate_exact copy 26 1 (omega arith) (omega arith) (omega arith)

abbrev negative : List ContractCostParamEntry
negative = entry 1 2 ∷ record { const_term = pos 3; linear_term = negsuc 0 } ∷ []

try_from_config_lem_example :
    try_from_config 2 (entry 4 0 ∷ []) 100
    ≡ ok (record dimension { cost_models = insn ∷ record { const_term = 0; lin_term = 0 } ∷ [] })
try_from_config_lem_example = try_from_config_lem 2 100 (insn ∷ [])

negative_refused : is_ok (try_from_config 2 negative 100) ≡ false
unfolding try_from_config try_from
negative_refused = refl
