-- ===== src/Budget/Shadow/Unseen.antt =====
-- Shadow mode cannot be seen in the budget that decides the invocation.
use rs_soroban_env.Prelude.{true, List, [], ◌∷◌, ◌≡◌, refl, arith}
use rs_soroban_env.Budget.Impl.{BudgetImpl, bulk_charge}
use rs_soroban_env.Budget.Impl.Charges.{bulk_charge_shadow}
use rs_soroban_env.Budget.Impl.Runs.{Charge, run_charges}
use rs_soroban_env.Budget.Shadow.{with_shadow_mode, with_observable_shadow_mode}

-- The counters, limits and tracker of the invocation.
pub record SameReal (b b' : BudgetImpl) : Type 0 where
  pub cpu : b'.cpu_insns.total_count ≡ b.cpu_insns.total_count
  pub mem : b'.mem_bytes.total_count ≡ b.mem_bytes.total_count
  pub cpu_limit : b'.cpu_insns.limit ≡ b.cpu_insns.limit
  pub mem_limit : b'.mem_bytes.limit ≡ b.mem_bytes.limit
  pub tracker : b'.tracker ≡ b.tracker

run_charges-SameReal :
    (cs : List Charge) (b : BudgetImpl)
    → b.is_in_shadow_mode ≡ true
    → SameReal b (run_charges cs b).1
unfolding run_charges
run_charges-SameReal [] b mode = ground arith
run_charges-SameReal (c ∷ cs) b mode =
    let b' = (bulk_charge c.ty c.iterations c.input b).1 in
    ground (arith, bulk_charge_shadow c.ty c.iterations c.input b mode, run_charges-SameReal cs b')

-- Any charges made by the closure of `with_shadow_mode` or `with_observable_shadow_mode`, whether
-- they succeed or not, leave the counters, limits and tracker of the invocation as they were, and
-- the mode is that of before.
pub with_shadow_mode_lem :
    (cs : List Charge) (b : BudgetImpl)
    → let b₁ = with_shadow_mode (run_charges cs) b in
      let b₂ = (with_observable_shadow_mode (run_charges cs) b).1 in
      SameReal b b₁
      × (b₁.is_in_shadow_mode ≡ b.is_in_shadow_mode)
      × SameReal b b₂
      × (b₂.is_in_shadow_mode ≡ b.is_in_shadow_mode)
unfolding with_shadow_mode with_observable_shadow_mode
with_shadow_mode_lem cs b =
    ground (arith, run_charges-SameReal cs (record b { is_in_shadow_mode = true }) refl)
