-- ===== src/Budget/Impl/Charges.antt =====
-- What a call of `bulk_charge` does to the counters.
use rs_soroban_env.Prelude.{
  ℕ, ◌+◌, Option, none, some, Bool, true, false, get_elem?, ◌≡◌, arith, min, ◌≤◌, if◌then◌else◌,
  ltb, ◌||◌,
}
use rs_soroban_env.Prelude.Words.{u64_max}
use rs_soroban_env.Errors.{is_ok, ok, err}
use rs_soroban_env.Budget.Dimension.{exceeded_limit, get_cost}
use rs_soroban_env.Budget.Impl.{BudgetImpl, bulk_charge}
use rs_soroban_env.Budget.Tracker.{CostTracker}

-- Both are given, or neither is.
abbrev pub alike : Option ℕ → Option ℕ → Bool
alike none none = true
alike none (some _) = false
alike (some _) none = false
alike (some _) (some _) = true

-- The cost type has a tracker, and it takes an input just if one is given.
abbrev pub fits : Option ℕ → Option CostTracker → Bool
fits input none = false
fits input (some t) = alike input t.inputs

-- Outside shadow mode, a charge of a known cost type adds the cost of the CPU model to the CPU
-- counter, saturating at the largest u64, and fails if that is over the limit, before memory is
-- touched; else it does the same with memory. It succeeds exactly if both counters stay within
-- their limits, and never changes limits, shadow counters, mode or depth.
pub bulk_charge_lem :
    (ty it c m : ℕ) (input : Option ℕ) (b : BudgetImpl)
    → b.is_in_shadow_mode ≡ false
    → fits input (get_elem? b.tracker.cost_trackers ty) ≡ true
    → get_cost b.cpu_insns ty it input ≡ ok c
    → get_cost b.mem_bytes ty it input ≡ ok m
    → let (r, b') = bulk_charge ty it input b in
      let cpu = min (b.cpu_insns.total_count + c) u64_max in
      let mem = min (b.mem_bytes.total_count + m) u64_max in
      (b'.cpu_insns ≡ record b.cpu_insns { total_count = cpu })
      × (r ≡ (
          if ltb b.cpu_insns.limit cpu
          then err exceeded_limit
          else if ltb b.mem_bytes.limit mem
          then err exceeded_limit
          else ok tt))
      × (b'.mem_bytes ≡ (
          if ltb b.cpu_insns.limit cpu
          then b.mem_bytes
          else record b.mem_bytes { total_count = mem }))
      × (b'.is_in_shadow_mode ≡ false)
      × (b'.depth_limit ≡ b.depth_limit)
unfolding bulk_charge get_cost
bulk_charge_lem ty it c m input b mode ok_type hc hm = ground arith

-- In shadow mode a charge leaves the counters that decide the invocation, the limits, the mode and
-- the tracker as they are, whatever its cost type, input and outcome.
pub bulk_charge_shadow :
    (ty it : ℕ) (input : Option ℕ) (b : BudgetImpl)
    → b.is_in_shadow_mode ≡ true
    → let b' = (bulk_charge ty it input b).1 in
      (b'.cpu_insns.total_count ≡ b.cpu_insns.total_count)
      × (b'.mem_bytes.total_count ≡ b.mem_bytes.total_count)
      × (b'.cpu_insns.limit ≡ b.cpu_insns.limit)
      × (b'.mem_bytes.limit ≡ b.mem_bytes.limit)
      × (b'.tracker ≡ b.tracker)
      × (b'.is_in_shadow_mode ≡ true)
unfolding bulk_charge
bulk_charge_shadow ty it input b mode = ground arith

abbrev pub exhausted : BudgetImpl → Bool
exhausted b =
    ltb b.cpu_insns.limit b.cpu_insns.total_count || ltb b.mem_bytes.limit b.mem_bytes.total_count

-- Once a counter is over its limit every later charge outside shadow mode fails, whatever its cost
-- type and input, and the budget stays exhausted.
pub bulk_charge-exhausted :
    (ty it : ℕ) (input : Option ℕ) (b : BudgetImpl)
    → b.is_in_shadow_mode ≡ false
    → b.cpu_insns.total_count ≤ u64_max
    → b.mem_bytes.total_count ≤ u64_max
    → exhausted b ≡ true
    → let (r, b') = bulk_charge ty it input b in (is_ok r ≡ false) × (exhausted b' ≡ true)
unfolding bulk_charge
bulk_charge-exhausted ty it input b mode hc hm over = ground arith
