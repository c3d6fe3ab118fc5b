-- ===== src/OrdMap/Order/Numbers.antt =====
-- The order of numbers.
use rs_soroban_env.Prelude.{ℕ, ◌≡◌, compare, arith}
use Prim.Native.Nat.Ordering.{lt, eq, gt}
use rs_soroban_env.OrdMap.Order.{Order}

pub eq_of_compare : (a b : ℕ) → compare a b ≡ eq → a ≡ b
eq_of_compare a b h = ground arith

pub compare_refl : (a : ℕ) → compare a a ≡ eq
compare_refl a = ground arith

pub gt_of_compare : (a b : ℕ) → compare a b ≡ lt → compare b a ≡ gt
gt_of_compare a b h = ground arith

pub lt_of_compare : (a b : ℕ) → compare a b ≡ gt → compare b a ≡ lt
lt_of_compare a b h = ground arith

pub compare_trans : (a b c : ℕ) → compare a b ≡ lt → compare b c ≡ lt → compare a c ≡ lt
compare_trans a b c h k = ground arith

abbrev pub by_number : Order ℕ
by_number = record {
  cmp = compare;
  eq_of_cmp = eq_of_compare;
  cmp_refl = compare_refl;
  gt_of_lt = gt_of_compare;
  lt_of_gt = lt_of_compare;
  lt_trans = compare_trans;
}
