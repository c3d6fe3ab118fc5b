-- ===== src/Budget/Impl/Runs.antt =====
-- Runs of charges outside shadow mode: which of them the budget allows.
use rs_soroban_env.Prelude.{
  ℕ, zero, suc, ◌+◌, Option, none, some, true, false, get_elem?, ◌≡◌, refl, arith, min, ◌≤◌, ◌<◌,
  inl, inr, Option-cases, List, [], ◌∷◌, set, ◌∙◌, ◌⊎◌,
}
use rs_soroban_env.Prelude.Words.{u64_max}
use rs_soroban_env.Errors.{Result-cases, ok, err}
use rs_soroban_env.Errors.Exec.{Exec, ◌>>=◌, ◌>>◌, pure}
use rs_soroban_env.Budget.Dimension.{get_cost, exceeded_limit}
use rs_soroban_env.Budget.Tracker.{CostTracker}
use rs_soroban_env.Budget.Impl.{
  BudgetImpl, bulk_charge, with_tracker, track_call, add_input, charge_cpu, track_cpu, check_cpu,
  charge_mem, track_mem, check_mem, reset_unlimited,
}
use rs_soroban_env.Budget.Impl.Charges.{alike, fits, bulk_charge_lem}

-- A call of `bulk_charge`, with the costs of its CPU and memory models.
pub record Charge : Type 0 where
  pub ty : ℕ
  pub iterations : ℕ
  pub input : Option ℕ
  pub cpu_cost : ℕ
  pub mem_cost : ℕ

unfoldable pub run_charges : List Charge → Exec BudgetImpl (Unit {0})
run_charges [] = pure tt
run_charges (c ∷ cs) = do bulk_charge c.ty c.iterations c.input; run_charges cs

-- The costs are those of the models, and the cost types are known.
abbrev pub Priced : BudgetImpl → List Charge → Type 0
Priced b [] = Unit
Priced b (c ∷ cs) =
    (fits c.input (get_elem? b.tracker.cost_trackers c.ty) ≡ true)
    × (get_cost b.cpu_insns c.ty c.iterations c.input ≡ ok c.cpu_cost)
    × (get_cost b.mem_bytes c.ty c.iterations c.input ≡ ok c.mem_cost)
    × Priced b cs

abbrev pub cpu_sum : List Charge → ℕ
cpu_sum [] = 0
cpu_sum (c ∷ cs) = c.cpu_cost + cpu_sum cs

abbrev pub mem_sum : List Charge → ℕ
mem_sum [] = 0
mem_sum (c ∷ cs) = c.mem_cost + mem_sum cs

-- Two trackers take an input alike.
abbrev SameKind : CostTracker → CostTracker → Type 0
SameKind t t' = (j : Option ℕ) → fits j (some t') ≡ fits j (some t)

fits-set :
    (ts : List CostTracker) (ty : ℕ) (t t' : CostTracker) (ty' : ℕ) (j : Option ℕ)
    → get_elem? ts ty ≡ some t
    → SameKind t t'
    → fits j (get_elem? (set ts ty t') ty') ≡ fits j (get_elem? ts ty')
fits-set [] ty t t' ty' j e h = refl
fits-set (x ∷ ts) zero t t' zero j e h = ground (arith, h j)
fits-set (x ∷ ts) zero t t' (suc ty') j e h = refl
fits-set (x ∷ ts) (suc ty) t t' zero j e h = refl
fits-set (x ∷ ts) (suc ty) t t' (suc ty') j e h = fits-set ts ty t t' ty' j e h

-- A step that changes no tracker's kind.
record KeepsKinds {A : Type 0} (m : Exec BudgetImpl A) : Type 0 where
  kinds :
      (b : BudgetImpl) (ty : ℕ) (j : Option ℕ)
      → fits j (get_elem? (m b).1.tracker.cost_trackers ty)
        ≡ fits j (get_elem? b.tracker.cost_trackers ty)

bind-KeepsKinds :
    {A B : Type 0} {m : Exec BudgetImpl A} {f : A → Exec BudgetImpl B}
    → KeepsKinds m
    → ((a : A) → KeepsKinds (f a))
    → KeepsKinds (m >>= f)
bind-KeepsKinds {m = m} hm hf = record {
  kinds = λ b ty j. elim (Result-cases (m b).0) [
    | inl (a, e) ↦ rw (e, ◌>>=◌) ((hf a).kinds (m b).1 ty j ∙ hm.kinds b ty j)
    | inr (x, e) ↦ rw (e, ◌>>=◌) (hm.kinds b ty j)
  ];
}

add_input-alike :
    (a i : Option ℕ) (it : ℕ) (n j : Option ℕ) → add_input a i it ≡ ok n → alike j n ≡ alike j a
unfolding add_input
add_input-alike none none it n j e = ground arith
add_input-alike none (some x) it n j e = cc
add_input-alike (some t) none it n j e = cc
add_input-alike (some t) (some x) it n j e = ground arith

fits-track_call :
    (ty it : ℕ) (input : Option ℕ) (b : BudgetImpl) (ty' : ℕ) (j : Option ℕ)
    → fits j (get_elem? (track_call ty it input b).1.tracker.cost_trackers ty')
      ≡ fits j (get_elem? b.tracker.cost_trackers ty')
unfolding track_call
fits-track_call ty it input b ty' j = elim (Option-cases (get_elem? b.tracker.cost_trackers ty)) [
  | inl e ↦ ground arith
  | inr (t, e) ↦ elim (Result-cases (add_input t.inputs input it)) [
    | inl (n, ea) ↦ ground (
      arith,
      fits-set b.tracker.cost_trackers ty t
          (record t { iterations = min (t.iterations + it) u64_max; inputs = n }) ty' j e
          (λ i. add_input-alike t.inputs input it n i ea),
    )
    | inr (x, ea) ↦ ground (
      arith,
      fits-set b.tracker.cost_trackers ty t
          (record t { iterations = min (t.iterations + it) u64_max }) ty' j e (λ i. refl),
    )
  ]
]

fits-with_tracker :
    (ty : ℕ) (f : CostTracker → CostTracker)
    → ((t : CostTracker) → SameKind t (f t))
    → (b : BudgetImpl) (ty' : ℕ) (j : Option ℕ)
    → fits j (get_elem? (with_tracker ty f b).tracker.cost_trackers ty')
      ≡ fits j (get_elem? b.tracker.cost_trackers ty')
unfolding with_tracker
fits-with_tracker ty f h b ty' j = elim (Option-cases (get_elem? b.tracker.cost_trackers ty)) [
  | inl e ↦ ground arith
  | inr (t, e) ↦ ground (arith, fits-set b.tracker.cost_trackers ty t (f t) ty' j e (h t))
]

bulk_charge-KeepsKinds : (ty it : ℕ) (input : Option ℕ) → KeepsKinds (bulk_charge ty it input)
unfolding bulk_charge
bulk_charge-KeepsKinds ty it input =
    bind-KeepsKinds {m = track_call ty it input} (record { kinds = fits-track_call ty it input })
      λ _.
        bind-KeepsKinds {m = charge_cpu ty it input} (record { kinds = λ b t j. refl })
          λ c.
            bind-KeepsKinds {m = track_cpu ty c}
              (record { kinds = fits-with_tracker ty _ (λ t j. refl) })
              λ _.
                bind-KeepsKinds {m = check_cpu} (record { kinds = λ b t j. refl })
                  λ _.
                    bind-KeepsKinds {m = charge_mem ty it input} (record { kinds = λ b t j. refl })
                      λ m.
                        bind-KeepsKinds {m = track_mem ty m} {f = λ _. check_mem}
                          (record { kinds = fits-with_tracker ty _ (λ t j. refl) })
                          λ _. record { kinds = λ b t j. refl }

Priced-bulk_charge :
    (ty it : ℕ) (input : Option ℕ) (b : BudgetImpl) (cs : List Charge)
    → (bulk_charge ty it input b).1.cpu_insns.cost_models ≡ b.cpu_insns.cost_models
    → (bulk_charge ty it input b).1.mem_bytes.cost_models ≡ b.mem_bytes.cost_models
    → Priced b cs
    → Priced (bulk_charge ty it input b).1 cs
unfolding get_cost
Priced-bulk_charge ty it input b [] hc hm p = tt
Priced-bulk_charge ty it input b (c ∷ cs) hc hm p = (
  (bulk_charge-KeepsKinds ty it input).kinds b c.ty c.input ∙ p.0,
  rw hc p.1,
  rw hm p.2,
  Priced-bulk_charge ty it input b cs hc hm p.3,
)

-- Outside shadow mode, and with limits below the largest u64, a run of charges of known cost types,
-- at the costs of their models, has one of two outcomes. Either the counters plus the sums of these
-- costs are within both limits, the run succeeds, and the counters have grown by exactly these sums;
-- or one of the sums is over its limit, and the run ends with the error of the limit.
pub run_charges_lem :
    (cs : List Charge) (b : BudgetImpl)
    → b.is_in_shadow_mode ≡ false
    → b.cpu_insns.limit < u64_max
    → b.mem_bytes.limit < u64_max
    → b.cpu_insns.total_count ≤ b.cpu_insns.limit
    → b.mem_bytes.total_count ≤ b.mem_bytes.limit
    → Priced b cs
    → let (r, b') = run_charges cs b in
      let cpu = b.cpu_insns.total_count + cpu_sum cs in
      let mem = b.mem_bytes.total_count + mem_sum cs in
      ((cpu ≤ b.cpu_insns.limit)
        × (mem ≤ b.mem_bytes.limit)
        × (r ≡ ok tt)
        × (b'.cpu_insns.total_count ≡ cpu)
        × (b'.mem_bytes.total_count ≡ mem))
      ⊎ (((b.cpu_insns.limit < cpu) ⊎ (b.mem_bytes.limit < mem)) × (r ≡ err exceeded_limit))
unfolding run_charges
run_charges_lem [] b mode lc lm hc hm p =
    inl (omega arith, omega arith, refl, omega arith, omega arith)
run_charges_lem (c ∷ cs) b mode lc lm hc hm p =
    let b' = (bulk_charge c.ty c.iterations c.input b).1 in
    let step = bulk_charge_lem c.ty c.iterations c.cpu_cost c.mem_cost c.input b mode p.0 p.1 p.2 in
    ground (arith, step, run_charges_lem cs b', Priced-bulk_charge c.ty c.iterations c.input b cs)

unlimited :
    (cs : List Charge) (b : BudgetImpl)
    → b.is_in_shadow_mode ≡ false
    → b.cpu_insns.limit ≡ u64_max
    → b.mem_bytes.limit ≡ u64_max
    → Priced b cs
    → (run_charges cs b).0 ≡ ok tt
unfolding run_charges
unlimited [] b mode lc lm p = refl
unlimited (c ∷ cs) b mode lc lm p =
    let b' = (bulk_charge c.ty c.iterations c.input b).1 in
    let step = bulk_charge_lem c.ty c.iterations c.cpu_cost c.mem_cost c.input b mode p.0 p.1 p.2 in
    ground (arith, step, unlimited cs b', Priced-bulk_charge c.ty c.iterations c.input b cs)

-- After `reset_unlimited`, outside shadow mode, any run of charges of known cost types succeeds,
-- whatever it costs.
pub reset_unlimited_lem :
    (cs : List Charge) (b : BudgetImpl)
    → b.is_in_shadow_mode ≡ false
    → Priced (reset_unlimited b) cs
    → (run_charges cs (reset_unlimited b)).0 ≡ ok tt
unfolding reset_unlimited
reset_unlimited_lem cs b mode p = unlimited cs (reset_unlimited b) mode refl refl p
