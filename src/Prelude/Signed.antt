-- ===== src/Prelude/Signed.antt =====
-- Signed machine words as integers: the saturating operations of Rust's `i64` and `i128`, and the
-- division of `num_integer` (a crate of others) by which fees are rounded up.
use rs_soroban_env.Prelude.{ℕ, suc, ◌+◌, ◌-◌, ◌*◌, ◌/◌, ◌<◌, ◌≤◌, ◌≡◌, min, arith, if◌then◌else◌}
use rs_soroban_env.Prelude.Int.{ℤ, pos, negsuc, ◌+ℤ◌, ◌-ℤ◌, ◌*ℤ◌, ◌≤ℤ◌, ltb_ℤ, pos_part}

-- 2 ^ 63 - 1 and 2 ^ 127 - 1: `negsuc` of these is the least word.
abbrev pub i64_top : ℕ
i64_top = 9_223_372_036_854_775_807

abbrev pub i128_top : ℕ
i128_top = 170_141_183_460_469_231_731_687_303_715_884_105_727

abbrev pub clamp_to : ℕ → ℤ → ℤ
clamp_to top z =
    if ltb_ℤ (pos top) z then pos top else if ltb_ℤ z (negsuc top) then negsuc top else z

unfoldable pub saturating_add : ℤ → ℤ → ℤ
unfolding ◌+ℤ◌
saturating_add a b = clamp_to i64_top (a +ℤ b)

unfoldable pub saturating_sub : ℤ → ℤ → ℤ
unfolding ◌-ℤ◌
saturating_sub a b = clamp_to i64_top (a -ℤ b)

unfoldable pub saturating_mul : ℤ → ℤ → ℤ
unfolding ◌*ℤ◌
saturating_mul a b = clamp_to i64_top (a *ℤ b)

unfoldable pub saturating_mul_i128 : ℤ → ℤ → ℤ
unfolding ◌*ℤ◌
saturating_mul_i128 a b = clamp_to i128_top (a *ℤ b)

abbrev pub max_ℤ : ℤ → ℤ → ℤ
max_ℤ a b = if ltb_ℤ a b then b else a

-- Division by a positive constant, towards zero.
unfoldable pub div_trunc : ℤ → ℕ → ℤ
div_trunc (pos n) d = pos (n / d)
div_trunc (negsuc n) d = pos 0 -ℤ pos (suc n / d)

-- `num_integer::div_ceil`, "ceiled integer division": the quotient rounded towards positive
-- infinity, for a positive divisor.
pub record NumInteger : Type 0 where
  pub div_ceil : ℤ → ℤ → ℤ
  pub div_ceil-pos : (n d : ℕ) → 0 < d → div_ceil (pos n) (pos d) ≡ pos ((n + (d - 1)) / d)
  pub div_ceil-neg : (n d : ℕ) → 0 < d → div_ceil (negsuc n) (pos d) ≡ pos 0 -ℤ pos (suc n / d)

pub saturating_add-pos : (a b : ℕ) → saturating_add (pos a) (pos b) ≡ pos (min (a + b) i64_top)
unfolding saturating_add ◌+ℤ◌
saturating_add-pos a b = ground arith

pub saturating_mul-pos : (a b : ℕ) → saturating_mul (pos a) (pos b) ≡ pos (min (a * b) i64_top)
unfolding saturating_mul ◌*ℤ◌
saturating_mul-pos a b = ground arith

pub saturating_mul_i128-pos :
    (a b : ℕ) → saturating_mul_i128 (pos a) (pos b) ≡ pos (min (a * b) i128_top)
unfolding saturating_mul_i128 ◌*ℤ◌
saturating_mul_i128-pos a b = ground arith

pub eq-pos : (z : ℤ) → pos 0 ≤ℤ z → z ≡ pos (pos_part z)
eq-pos z h = ground arith

pub ceil_mono : (n m d : ℕ) → n ≤ m → (n + (d - 1)) / d ≤ (m + (d - 1)) / d
ceil_mono n m d h = grind arith

pub ceil-le : (n d : ℕ) → (n + (d - 1)) / d ≤ n
ceil-le n d = grind arith

pub max_ℤ-pos : (k : ℕ) → 0 < k → max_ℤ (pos k) (pos 1) ≡ pos k
max_ℤ-pos k h = ground arith
