-- ===== src/Fees/Resource/Bounds.antt =====
-- The resource fee for a configuration without negative fees.
use rs_soroban_env.Prelude.{ℕ, ◌+◌, ◌-◌, ◌*◌, ◌/◌, ◌≤◌, ◌<◌, ◌≡◌, min, arith}
use rs_soroban_env.Prelude.Int.{ℤ, pos, ◌≤ℤ◌, ◌+ℤ◌, pos_part}
use rs_soroban_env.Prelude.Words.{saturating_add_u32, mul_mono}
use rs_soroban_env.Prelude.Signed.{
  NumInteger, i64_top, saturating_add, saturating_mul, saturating_mul-pos, eq-pos, max_ℤ-pos,
  ceil_mono, ceil-le,
}
use rs_soroban_env.Fees.Resource.{
  TransactionResources, FeeConfiguration, compute_fee_per_increment,
  compute_transaction_resource_fee, tx_base_result_size,
}

-- A configuration without negative fees.
pub record IsSane (c : FeeConfiguration) : Type 0 where
  pub instruction : pos 0 ≤ℤ c.fee_per_instruction_increment
  pub disk_read_entry : pos 0 ≤ℤ c.fee_per_disk_read_entry
  pub write_entry : pos 0 ≤ℤ c.fee_per_write_entry
  pub disk_read : pos 0 ≤ℤ c.fee_per_disk_read_1kb
  pub write : pos 0 ≤ℤ c.fee_per_write_1kb
  pub historical : pos 0 ≤ℤ c.fee_per_historical_1kb
  pub contract_event : pos 0 ≤ℤ c.fee_per_contract_event_1kb
  pub transaction_size : pos 0 ≤ℤ c.fee_per_transaction_size_1kb

-- No resource of the first exceeds that of the second.
pub record LessThan (r s : TransactionResources) : Type 0 where
  pub instructions : r.instructions ≤ s.instructions
  pub disk_read_entries : r.disk_read_entries ≤ s.disk_read_entries
  pub write_entries : r.write_entries ≤ s.write_entries
  pub disk_read_bytes : r.disk_read_bytes ≤ s.disk_read_bytes
  pub write_bytes : r.write_bytes ≤ s.write_bytes
  pub contract_events_size_bytes : r.contract_events_size_bytes ≤ s.contract_events_size_bytes
  pub transaction_size_bytes : r.transaction_size_bytes ≤ s.transaction_size_bytes

-- An amount of a fee: neither negative nor above the largest i64, and at most another.
abbrev pub FeeLe : ℤ → ℤ → Type 0
FeeLe a b = (pos 0 ≤ℤ a) × (a ≤ℤ b) × (b ≤ℤ pos i64_top)

saturating_add-FeeLe :
    (a a' b b' : ℤ) → FeeLe a a' → FeeLe b b' → FeeLe (saturating_add a b) (saturating_add a' b')
unfolding saturating_add ◌+ℤ◌
saturating_add-FeeLe a a' b b' h k = ground arith

pos-FeeLe : (a b : ℕ) → a ≤ b → b ≤ i64_top → FeeLe (pos a) (pos b)
pos-FeeLe a b h k = omega arith

saturating_mul-FeeLe :
    (rate : ℤ) (v w : ℕ)
    → pos 0 ≤ℤ rate
    → v ≤ w
    → FeeLe (saturating_mul rate (pos v)) (saturating_mul rate (pos w))
saturating_mul-FeeLe rate v w sane h =
    let r = pos_part rate in
    rw (eq-pos rate sane, saturating_mul-pos r v, saturating_mul-pos r w)
      (pos-FeeLe _ _ (omega (arith, mul_mono r v r w (omega arith) h)) (omega arith))

module _ (num : NumInteger) where
  pub per_increment-pos :
      (v r k : ℕ)
      → 0 < k
      → compute_fee_per_increment num v (pos r) (pos k) ≡ pos ((min (v * r) i64_top + (k - 1)) / k)
  unfolding compute_fee_per_increment
  per_increment-pos v r k hk =
      rw (compute_fee_per_increment, saturating_mul-pos v r, max_ℤ-pos k hk)
        (num.div_ceil-pos (min (v * r) i64_top) k hk)

  per_increment-FeeLe :
      (v w k : ℕ) (rate : ℤ)
      → 0 < k
      → v ≤ w
      → pos 0 ≤ℤ rate
      → FeeLe
          (compute_fee_per_increment num v rate (pos k))
          (compute_fee_per_increment num w rate (pos k))
  per_increment-FeeLe v w k rate hk h sane =
      let r = pos_part rate in
      let le =
        ceil_mono (min (v * r) i64_top) (min (w * r) i64_top) k
          (omega (arith, mul_mono v r w r h (omega arith))) in
      rw (eq-pos rate sane, per_increment-pos v r k hk, per_increment-pos w r k hk)
        (pos-FeeLe _ _ le (omega (arith, ceil-le (min (w * r) i64_top) k)))

  -- For a configuration without negative fees, both parts of the resource fee are non-negative and
  -- fit an i64, and using no less of every resource never makes either part smaller.
  pub compute_transaction_resource_fee_mono :
      (r s : TransactionResources) (c : FeeConfiguration)
      → IsSane c
      → LessThan r s
      → let (non_refundable, refundable) = compute_transaction_resource_fee num r c in
        let (non_refundable', refundable') = compute_transaction_resource_fee num s c in
        FeeLe non_refundable non_refundable' × FeeLe refundable refundable'
  unfolding compute_transaction_resource_fee
  compute_transaction_resource_fee_mono r s c sane le = (
    saturating_add-FeeLe _ _ _ _
        (saturating_add-FeeLe _ _ _ _
          (saturating_add-FeeLe _ _ _ _
            (saturating_add-FeeLe _ _ _ _
              (saturating_add-FeeLe _ _ _ _
                (saturating_add-FeeLe _ _ _ _
                  (per_increment-FeeLe _ _ 10000 _ (omega arith) le.instructions sane.instruction)
                  (saturating_mul-FeeLe _ _ _ sane.disk_read_entry le.disk_read_entries))
                (saturating_mul-FeeLe _ _ _ sane.write_entry le.write_entries))
              (per_increment-FeeLe _ _ 1024 _ (omega arith) le.disk_read_bytes sane.disk_read))
            (per_increment-FeeLe _ _ 1024 _ (omega arith) le.write_bytes sane.write))
          (per_increment-FeeLe _ _ 1024 _ (omega arith) historical sane.historical))
        (per_increment-FeeLe _ _ 1024 _ (omega arith) le.transaction_size_bytes
          sane.transaction_size),
    per_increment-FeeLe _ _ 1024 _ (omega arith) le.contract_events_size_bytes sane.contract_event,
  )
    where
      historical :
          saturating_add_u32 r.transaction_size_bytes tx_base_result_size
          ≤ saturating_add_u32 s.transaction_size_bytes tx_base_result_size
      historical = omega (arith, le.transaction_size_bytes)
