-- ===== src/Fees/WriteFee/Growth.antt =====
-- The write fee grows with the state.
use rs_soroban_env.Prelude.{
  ℕ, ◌+◌, ◌-◌, ◌*◌, ◌/◌, ◌≤◌, ◌<◌, ◌≡◌, min, max, arith, ltb, if◌then◌else◌,
}
use rs_soroban_env.Prelude.Int.{pos, ◌-ℤ◌, ◌≤ℤ◌}
use rs_soroban_env.Prelude.Words.{mul_mono}
use rs_soroban_env.Prelude.Signed.{
  NumInteger, i64_top, i128_top, saturating_sub, saturating_mul_i128-pos, saturating_add-pos,
  max_ℤ-pos, ceil_mono,
}
use rs_soroban_env.Fees.WriteFee.{
  RentWriteFeeConfiguration, clamp_fee, compute_rent_write_fee_per_1kb,
}

-- The fee of a configuration with a positive target and 0 ≤ low ≤ high, as numbers.
module _ (target low high factor : ℕ) where
  abbrev below : ℕ → ℕ
  below size =
      min (min ((min ((high - low) * size) i128_top + (target - 1)) / target) i64_top + low) i64_top

  abbrev above : ℕ → ℕ
  above size =
      min
        (high
          + min
              ((min (min ((high - low) * (size - target)) i128_top * factor) i128_top
                  + (target - 1))
                / target)
              i64_top)
        i64_top

  abbrev fee : ℕ → ℕ
  fee size = max (if ltb size target then below size else above size) 1000

  below_mono : (s t : ℕ) → s ≤ t → below s ≤ below t
  below_mono s t h = omega (
    arith,
    ceil_mono (min ((high - low) * s) i128_top) (min ((high - low) * t) i128_top) target
        (omega (arith, mul_mono (high - low) s (high - low) t (omega arith) h)),
  )

  above_mono : (s t : ℕ) → s ≤ t → above s ≤ above t
  above_mono s t h =
      let a = min ((high - low) * (s - target)) i128_top in
      let b = min ((high - low) * (t - target)) i128_top in
      let le : a ≤ b = omega (
        arith,
        mul_mono (high - low) (s - target) (high - low) (t - target) (omega arith) (omega arith),
      ) in
      omega (
        arith,
        ceil_mono (min (a * factor) i128_top) (min (b * factor) i128_top) target
            (omega (arith, mul_mono a factor b factor le (omega arith))),
      )

  ceil_exact : (n : ℕ) → 0 < target → (n * target + (target - 1)) / target ≡ n
  ceil_exact n h = grind arith

  -- At the target the first segment has reached the higher fee.
  below-le-high : (s : ℕ) → 0 < target → low ≤ high → high ≤ i64_top → s < target → below s ≤ high
  below-le-high s pos_t ord top h =
      let d = high - low in
      omega (
        arith,
        ceil_mono (min (d * s) i128_top) (d * target) target
            (omega (arith, mul_mono d s d target (omega arith) (omega arith))),
        ceil_exact d pos_t,
      )

  fee_mono : (s t : ℕ) → 0 < target → low ≤ high → high ≤ i64_top → s ≤ t → fee s ≤ fee t
  fee_mono s t pos_t ord top h =
      ground (arith, below_mono s t h, above_mono s t h, below-le-high s pos_t ord top)

abbrev pub config : ℕ → ℕ → ℕ → ℕ → RentWriteFeeConfiguration
config target low high factor = record {
  state_target_size_bytes = pos target;
  rent_fee_1kb_state_size_low = pos low;
  rent_fee_1kb_state_size_high = pos high;
  state_size_rent_fee_growth_factor = factor;
}

clamp_fee-pos : (n : ℕ) → clamp_fee (pos n) ≡ pos (min n i64_top)
unfolding clamp_fee
clamp_fee-pos n = ground arith

multiplier :
    (low high : ℕ)
    → low ≤ high
    → high ≤ i64_top
    → clamp_fee (saturating_sub (pos high) (pos low)) ≡ pos (high - low)
unfolding clamp_fee saturating_sub ◌-ℤ◌
multiplier low high h top = ground arith

saturating_sub-pos : (a b : ℕ) → b ≤ a → a ≤ i64_top → saturating_sub (pos a) (pos b) ≡ pos (a - b)
unfolding saturating_sub ◌-ℤ◌
saturating_sub-pos a b h top = ground arith

module _ (num : NumInteger) (target low high factor : ℕ) (pos_t : 0 < target) (ord : low ≤ high)
    (top : high ≤ i64_top) where
  fee-below :
      (size : ℕ)
      → size < target
      → compute_rent_write_fee_per_1kb num (pos size) (config target low high factor)
        ≡ pos (max (below target low high factor size) 1000)
  unfolding compute_rent_write_fee_per_1kb
  fee-below size h =
      rw
        (
          compute_rent_write_fee_per_1kb,
          multiplier low high ord top,
          saturating_mul_i128-pos (high - low) size,
          max_ℤ-pos target pos_t,
          num.div_ceil-pos (min ((high - low) * size) i128_top) target pos_t,
          clamp_fee-pos,
          saturating_add-pos,
        )
        (ground arith)

  fee-above :
      (size : ℕ)
      → target ≤ size
      → size ≤ i64_top
      → compute_rent_write_fee_per_1kb num (pos size) (config target low high factor)
        ≡ pos (max (above target low high factor size) 1000)
  unfolding compute_rent_write_fee_per_1kb
  fee-above size h range =
      rw
        (
          compute_rent_write_fee_per_1kb,
          multiplier low high ord top,
          saturating_sub-pos size target h range,
          max_ℤ-pos target pos_t,
          saturating_mul_i128-pos (high - low) (size - target),
          saturating_mul_i128-pos (min ((high - low) * (size - target)) i128_top) factor,
          num.div_ceil-pos (min (min ((high - low) * (size - target)) i128_top * factor) i128_top)
              target pos_t,
          clamp_fee-pos (
              (min (min ((high - low) * (size - target)) i128_top * factor) i128_top + (target - 1))
              / target),
          saturating_add-pos high,
        )
        (ground arith)

  compute_rent_write_fee_per_1kb-pos :
      (size : ℕ)
      → size ≤ i64_top
      → compute_rent_write_fee_per_1kb num (pos size) (config target low high factor)
        ≡ pos (fee target low high factor size)
  compute_rent_write_fee_per_1kb-pos size range = ground (arith, fee-below size, fee-above size)

  -- For a positive target size and 0 ≤ low ≤ high, the write fee never falls as the state grows, up
  -- to the largest i64 of bytes, also across the target size; it is never below the minimum and fits
  -- an i64.
  pub compute_rent_write_fee_per_1kb_mono :
      (size size' : ℕ)
      → size ≤ size'
      → size' ≤ i64_top
      → let fee = compute_rent_write_fee_per_1kb num (pos size) (config target low high factor) in
        let fee' = compute_rent_write_fee_per_1kb num (pos size') (config target low high factor) in
        (pos 1000 ≤ℤ fee) × (fee ≤ℤ fee') × (fee' ≤ℤ pos i64_top)
  compute_rent_write_fee_per_1kb_mono size size' h range =
      rw
        (
          compute_rent_write_fee_per_1kb-pos size (omega arith),
          compute_rent_write_fee_per_1kb-pos size' range,
        )
        (ground (arith, fee_mono target low high factor size size' pos_t ord top h))
