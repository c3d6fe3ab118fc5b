-- ===== src/Budget/Depth/Nesting.antt =====
-- How deep calls may nest.
use rs_soroban_env.Prelude.{ℕ, suc, zero, ◌-◌, ◌≤◌, ◌<◌, ◌≡◌, arith, ap, ◌⊎◌, inl, inr, ◌∙◌}
use rs_soroban_env.Prelude.Words.{u32_max}
use rs_soroban_env.Errors.{Error, Result, err, error, ScErrorType, ScErrorCode}
use native.Mathlib.Decide.{dec_lt}
use rs_soroban_env.Errors.Exec.{Exec}
use rs_soroban_env.Budget.Impl.{BudgetImpl}
use rs_soroban_env.Budget.Depth.{with_limited_depth}

-- The state that the body of a limited call starts from.
abbrev pub lowered : ℕ → BudgetImpl → BudgetImpl
lowered n b = record b { depth_limit = b.depth_limit - n }

abbrev depth_error : Error
depth_error = error ScErrorType.context ScErrorCode.exceeded_limit

-- A limited call whose body gives back the depth that it takes gives back its own, and returns what
-- the body returns on a limit lower by one; with no depth left the body does not run.
with_limited_depth_lem :
    {A : Type 0} (f : Exec BudgetImpl A) (b : BudgetImpl)
    → b.depth_limit ≤ u32_max
    → (f (lowered 1 b)).1.depth_limit ≡ b.depth_limit - 1
    → (b.depth_limit ≡ 0 → with_limited_depth f b ≡ (err depth_error, b))
      × (0 < b.depth_limit → (with_limited_depth f b).0 ≡ (f (lowered 1 b)).0)
      × ((with_limited_depth f b).1.depth_limit ≡ b.depth_limit)
unfolding with_limited_depth
with_limited_depth_lem f b h keep = ground arith

-- Calls nested `n` deep around a body.
unfoldable pub nested : {A : Type 0} → ℕ → Exec BudgetImpl A → Exec BudgetImpl A
nested zero f = f
nested (suc n) f = with_limited_depth (nested n f)

module _ {A : Type 0} (f : Exec BudgetImpl A)
    (keep : (c : BudgetImpl) → (f c).1.depth_limit ≡ c.depth_limit) where
  depth-nested :
      (n : ℕ) (b : BudgetImpl)
      → b.depth_limit ≤ u32_max
      → (nested n f b).1.depth_limit ≡ b.depth_limit
  unfolding nested
  depth-nested zero b h = keep b
  depth-nested (suc n) b h =
      (with_limited_depth_lem (nested n f) b h (depth-nested n (lowered 1 b) (omega arith))).2

  nested_within :
      (n : ℕ) (b : BudgetImpl)
      → b.depth_limit ≤ u32_max
      → n ≤ b.depth_limit
      → (nested n f b).0 ≡ (f (lowered n b)).0
  unfolding nested
  nested_within zero b h le = ap (λ d. (f (record b { depth_limit = d })).0) (omega arith)
  nested_within (suc n) b h le =
      (with_limited_depth_lem (nested n f) b h (depth-nested n (lowered 1 b) (omega arith))).1
        (omega arith)
      ∙ nested_within n (lowered 1 b) (omega arith) (omega arith)
      ∙ ap (λ d. (f (record b { depth_limit = d })).0) (omega arith)

  nested_beyond :
      (n : ℕ) (b : BudgetImpl)
      → b.depth_limit ≤ u32_max
      → b.depth_limit < n
      → (nested n f b).0 ≡ err depth_error
  unfolding nested
  nested_beyond zero b h lt = absurd (omega arith)
  nested_beyond (suc n) b h lt =
      let (none_left, some_left, _) =
        with_limited_depth_lem (nested n f) b h (depth-nested n (lowered 1 b) (omega arith)) in
      elim (dec_lt 0 b.depth_limit) [
        | yes p ↦ some_left p ∙ nested_beyond n (lowered 1 b) (omega arith) (omega arith)
        | no p ↦ ap (λ (x : Result A × BudgetImpl). x.0) (none_left (omega arith))
      ]

  -- Calls nest exactly as deep as the limit, around a body that gives back the depth that it takes:
  -- either there are at most `depth_limit` calls around the body and it runs, on the depth that is
  -- left and with its own result, or there are more and the outcome is the error of the depth limit.
  -- Either way the limit is afterwards what it was before.
  pub nested_lem :
      (n : ℕ) (b : BudgetImpl)
      → b.depth_limit ≤ u32_max
      → (((n ≤ b.depth_limit) × ((nested n f b).0 ≡ (f (lowered n b)).0))
          ⊎ ((b.depth_limit < n)
              × ((nested n f b).0 ≡ err (error ScErrorType.context ScErrorCode.exceeded_limit))))
        × ((nested n f b).1.depth_limit ≡ b.depth_limit)
  nested_lem n b h = (
    elim (dec_lt b.depth_limit n) [
      | yes p ↦ inr (p, nested_beyond n b h p)
      | no p ↦ inl (omega arith, nested_within n b h (omega arith))
    ],
    depth-nested n b h,
  )
