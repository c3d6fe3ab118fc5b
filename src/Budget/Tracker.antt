-- ===== src/Budget/Tracker.antt =====
-- `CostTracker` and `BudgetTracker` of soroban-env-host/src/budget.rs: what was charged by cost type,
-- for reporting. The table of `default()` that says which cost types have an input is taken as the
-- list of initial trackers.
use rs_soroban_env.Prelude.{ℕ, ◌+◌, Option, none, some, List, map, get_elem?, set, ◌%◌, ◌^◌}
use rs_soroban_env.Errors.{Result, ok_or, ok, err}
use rs_soroban_env.Errors.Exec.{Exec}
use rs_soroban_env.Budget.Dimension.{internal_error}

pub record CostTracker : Type 0 where
  pub iterations : ℕ
  pub inputs : Option ℕ
  pub cpu : ℕ
  pub mem : ℕ

pub record BudgetTracker : Type 0 where
  pub cost_trackers : List CostTracker
  pub meter_count : ℕ
  pub wasm_memory : ℕ
  pub time_tracker : List ℕ

zero_if_any : Option ℕ → Option ℕ
zero_if_any none = none
zero_if_any (some _) = some 0

reset_one : CostTracker → CostTracker
unfolding zero_if_any
reset_one t = record { iterations = 0; inputs = zero_if_any t.inputs; cpu = 0; mem = 0 }

unfoldable pub reset : BudgetTracker → BudgetTracker
unfolding reset_one
reset t = record t {
  cost_trackers = map reset_one t.cost_trackers;
  meter_count = 0;
  wasm_memory = 0;
}

-- `*t += duration`: in a build without overflow checks the sum wraps.
unfoldable pub track_time : ℕ → ℕ → Exec BudgetTracker (Unit {0})
track_time ty duration t = elim (get_elem? t.time_tracker ty) [
  | none ↦ (err internal_error, t)
  | some n ↦ (ok tt, record t { time_tracker = set t.time_tracker ty ((n + duration) % 2 ^ 64) })
]

unfoldable pub get_time : BudgetTracker → ℕ → Result ℕ
get_time t ty = ok_or (get_elem? t.time_tracker ty) internal_error
