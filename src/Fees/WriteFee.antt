-- ===== src/Fees/WriteFee.antt =====
-- `compute_rent_write_fee_per_1kb` of soroban-env-host/src/fees.rs.
pub mod Growth
use rs_soroban_env.Prelude.{ℕ, if◌then◌else◌}
use rs_soroban_env.Prelude.Int.{ℤ, pos, ltb_ℤ}
use rs_soroban_env.Prelude.Signed.{
  NumInteger, i64_top, saturating_add, saturating_sub, saturating_mul_i128, max_ℤ,
}

abbrev pub minimum_rent_write_fee_per_1kb : ℤ
minimum_rent_write_fee_per_1kb = pos 1000

pub record RentWriteFeeConfiguration : Type 0 where
  pub state_target_size_bytes : ℤ
  pub rent_fee_1kb_state_size_low : ℤ
  pub rent_fee_1kb_state_size_high : ℤ
  pub state_size_rent_fee_growth_factor : ℕ

-- `ClampFee`, for i64 and i128 alike: an i64 is never above its own maximum.
unfoldable pub clamp_fee : ℤ → ℤ
clamp_fee z =
    if ltb_ℤ z (pos 0) then pos i64_top else if ltb_ℤ (pos i64_top) z then pos i64_top else z

module _ (num : NumInteger) where
  unfoldable pub compute_rent_write_fee_per_1kb : ℤ → RentWriteFeeConfiguration → ℤ
  compute_rent_write_fee_per_1kb soroban_state_size_bytes c =
      let fee_rate_multiplier =
        clamp_fee (saturating_sub c.rent_fee_1kb_state_size_high c.rent_fee_1kb_state_size_low) in
      let below =
        saturating_add
          (clamp_fee (
            num.div_ceil (saturating_mul_i128 fee_rate_multiplier soroban_state_size_bytes)
              (max_ℤ c.state_target_size_bytes (pos 1))))
          c.rent_fee_1kb_state_size_low in
      let bucket_list_size_after_reaching_target =
        saturating_sub soroban_state_size_bytes c.state_target_size_bytes in
      let post_target_fee = clamp_fee (
        num.div_ceil
          (saturating_mul_i128
            (saturating_mul_i128 fee_rate_multiplier bucket_list_size_after_reaching_target)
            (pos c.state_size_rent_fee_growth_factor))
          (max_ℤ c.state_target_size_bytes (pos 1))) in
      let rent_write_fee_per_1kb =
        if ltb_ℤ soroban_state_size_bytes c.state_target_size_bytes
        then below
        else saturating_add c.rent_fee_1kb_state_size_high post_target_fee in
      max_ℤ rent_write_fee_per_1kb minimum_rent_write_fee_per_1kb
