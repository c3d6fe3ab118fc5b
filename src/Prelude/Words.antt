-- ===== src/Prelude/Words.antt =====
-- Unsigned machine words as native numbers: the checked and the saturating operations of Rust's
-- `u32` and `u64`. A word is a plain number; that it is in range is a hypothesis or an invariant.
use Prim.Native.Nat.{ℕ, ◌+◌, ◌-◌, ◌*◌, ◌≤◌, min}
use mathlib.Core.Option.{Option, none, some}
use native.Mathlib.Omega.{arith}
use rs_soroban_env.Prelude.Tests.{leb, if◌then◌else◌}

abbrev pub u32_max : ℕ
u32_max = 4_294_967_295

abbrev pub u64_max : ℕ
u64_max = 18_446_744_073_709_551_615

-- `u64::saturating_add` and `u64::saturating_mul`; `saturating_sub` is `◌-◌`.
unfoldable pub saturating_add : ℕ → ℕ → ℕ
saturating_add a b = min (a + b) u64_max

unfoldable pub saturating_mul : ℕ → ℕ → ℕ
saturating_mul a b = min (a * b) u64_max

-- The same of `u32`.
unfoldable pub saturating_add_u32 : ℕ → ℕ → ℕ
saturating_add_u32 a b = min (a + b) u32_max

-- `u32::checked_add` and `checked_sub`.
unfoldable pub checked_add_u32 : ℕ → ℕ → Option ℕ
checked_add_u32 a b = if leb (a + b) u32_max then some (a + b) else none

unfoldable pub checked_sub : ℕ → ℕ → Option ℕ
checked_sub a b = if leb b a then some (a - b) else none

pub saturating_add-le : (a b : ℕ) → saturating_add a b ≤ u64_max
unfolding saturating_add
saturating_add-le a b = omega arith

pub saturating_mul-le : (a b : ℕ) → saturating_mul a b ≤ u64_max
unfolding saturating_mul
saturating_mul-le a b = omega arith

pub le-saturating_add : (a b : ℕ) → a ≤ u64_max → a ≤ saturating_add a b
unfolding saturating_add
le-saturating_add a b h = omega arith

pub saturating_add_mono : (a b c d : ℕ) → a ≤ c → b ≤ d → saturating_add a b ≤ saturating_add c d
unfolding saturating_add
saturating_add_mono a b c d h k = omega arith

pub mul_mono : (a b c d : ℕ) → a ≤ c → b ≤ d → a * b ≤ c * d
mul_mono a b c d h k = grind arith

pub saturating_mul_mono : (a b c d : ℕ) → a ≤ c → b ≤ d → saturating_mul a b ≤ saturating_mul c d
unfolding saturating_mul
saturating_mul_mono a b c d h k = omega (arith, mul_mono a b c d h k)
