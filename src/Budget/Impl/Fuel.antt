-- ===== src/Budget/Impl/Fuel.antt =====
-- The CPU budget handed to the wasm interpreter as fuel.
use rs_soroban_env.Prelude.{ℕ, ◌/◌, ◌+◌, ◌*◌, ◌-◌, ◌≡◌, arith, ◌≤◌, ◌<◌, max}
use rs_soroban_env.Errors.{ok}
use rs_soroban_env.Budget.Dimension.{get_cost_model, get_remaining}
use rs_soroban_env.Budget.Model.{MeteredCostComponent}
use rs_soroban_env.Budget.Impl.{BudgetImpl, get_wasmi_fuel_remaining}

div_bounds : (n d : ℕ) → 0 < d → (n / d * d ≤ n) × (n < n / d * d + d)
div_bounds n d h = grind arith

-- Where the cost model of an instruction is known there is an answer: fuel which, at the price of
-- that model and at least 1, is covered by what remains of the CPU limit, and falls short of it by
-- less than one instruction.
pub get_wasmi_fuel_remaining_lem :
    (insn : ℕ) (b : BudgetImpl) (m : MeteredCostComponent)
    → get_cost_model b.cpu_insns insn ≡ ok m
    → let price = max m.const_term 1 in
      (f : ℕ) × (get_wasmi_fuel_remaining insn b ≡ ok f)
      × (f * price ≤ b.cpu_insns.limit - b.cpu_insns.total_count)
      × (b.cpu_insns.limit - b.cpu_insns.total_count < f * price + price)
unfolding get_wasmi_fuel_remaining get_remaining
get_wasmi_fuel_remaining_lem insn b m h =
    let (low, high) = div_bounds (get_remaining b.cpu_insns) (max m.const_term 1) (omega arith) in
    (get_remaining b.cpu_insns / max m.const_term 1, rw h, low, high)
