-- ===== src/Budget/Model/Evaluate.antt =====
-- What `evaluate` returns.
use rs_soroban_env.Prelude.{ℕ, ◌+◌, ◌*◌, ◌/◌, ◌≤◌, ◌<◌, ◌≡◌, ◌∙◌, ap, Option, none, some, arith}
use rs_soroban_env.Prelude.Words.{
  u64_max, saturating_add, saturating_mul, saturating_add-le, mul_mono, saturating_add_mono,
  saturating_mul_mono,
}
use rs_soroban_env.Errors.{ok}
use rs_soroban_env.Budget.Model.{MeteredCostComponent, evaluate, unscale}

-- The cost as one number.
abbrev cost : MeteredCostComponent → ℕ → ℕ → ℕ
cost m it input =
    saturating_add (saturating_mul m.const_term it)
      (unscale (saturating_mul (saturating_mul m.lin_term input) it))

evaluate-cost :
    (m : MeteredCostComponent) (it input : ℕ) → evaluate m it (some input) ≡ ok (cost m it input)
unfolding evaluate
evaluate-cost m it input = ground (arith, mul_mono 0 input 0 it)

-- The size of an option's input for comparison: no input counts as an input of 0.
abbrev pub input_or_zero : Option ℕ → ℕ
input_or_zero none = 0
input_or_zero (some i) = i

evaluate-none : (m : MeteredCostComponent) (it : ℕ) → evaluate m it none ≡ ok (cost m it 0)
unfolding evaluate
evaluate-none m it = ground (arith, mul_mono 0 m.lin_term 0 0, mul_mono 0 0 0 it)

cost_mono :
    (m : MeteredCostComponent) (it it' i i' : ℕ) → it ≤ it' → i ≤ i' → cost m it i ≤ cost m it' i'
unfolding unscale
cost_mono m it it' i i' h k =
    let lin = saturating_mul_mono m.lin_term i m.lin_term i' (omega arith) k in
    let all =
      saturating_mul_mono (saturating_mul m.lin_term i) it (saturating_mul m.lin_term i') it' lin
        h in
    saturating_add_mono _ _ _ _
      (saturating_mul_mono m.const_term it m.const_term it' (omega arith) h) (omega (arith, all))

pub evaluate-Costs :
    (m : MeteredCostComponent) (it : ℕ) (input : Option ℕ)
    → evaluate m it input ≡ ok (cost m it (input_or_zero input))
evaluate-Costs m it none = evaluate-none m it
evaluate-Costs m it (some input) = evaluate-cost m it input

-- An evaluation always gives a cost, which fits a u64, and more iterations or a larger input never
-- cost less; no input costs what an input of size 0 does.
pub evaluate_mono :
    (m : MeteredCostComponent) (it it' : ℕ) (i i' : Option ℕ)
    → it ≤ it'
    → input_or_zero i ≤ input_or_zero i'
    → (c c' : ℕ) × (evaluate m it i ≡ ok c)
      × (evaluate m it' i' ≡ ok c')
      × (c ≤ c')
      × (c' ≤ u64_max)
evaluate_mono m it it' i i' h k = (
  cost m it (input_or_zero i),
  cost m it' (input_or_zero i'),
  evaluate-Costs m it i,
  evaluate-Costs m it' i',
  cost_mono m it it' (input_or_zero i) (input_or_zero i') h k,
  saturating_add-le _ _,
)

-- Where the two products fit a u64 and so does the cost, the cost is the linear expression itself,
-- const_term * iterations + lin_term * input * iterations / 2 ^ 7.
pub evaluate_exact :
    (m : MeteredCostComponent) (it input : ℕ)
    → 0 < it
    → m.lin_term * input * it ≤ u64_max
    → m.const_term * it + m.lin_term * input * it / 128 ≤ u64_max
    → evaluate m it (some input) ≡ ok (m.const_term * it + m.lin_term * input * it / 128)
unfolding saturating_add saturating_mul unscale
evaluate_exact m it input pos lin all =
    let inner : m.lin_term * input ≤ m.lin_term * input * it = grind arith in
    evaluate-cost m it input ∙ ap ok (grind arith)
