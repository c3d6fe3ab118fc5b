-- ===== src/Fees/Tests.antt =====
-- The fees at concrete inputs.
use mathlib.Core.List.Perm
use rs_soroban_env.Prelude.{suc, ◌+◌, ◌-◌, ◌/◌, ◌≡◌, refl, true, false, [], ◌∷◌, arith}
use rs_soroban_env.Prelude.Int.{ℤ, pos, negsuc, ◌-ℤ◌, ◌≤ℤ◌}
use rs_soroban_env.Prelude.Signed.{NumInteger, i64_top, saturating_add, saturating_mul}
use rs_soroban_env.Fees.Resource.{
  TransactionResources, FeeConfiguration, compute_transaction_resource_fee,
  compute_fee_per_increment,
}
use rs_soroban_env.Fees.Resource.Bounds.{compute_transaction_resource_fee_mono, FeeLe}
use rs_soroban_env.Fees.WriteFee.{compute_rent_write_fee_per_1kb}
use rs_soroban_env.Fees.WriteFee.Growth.{config, compute_rent_write_fee_per_1kb_mono}
use rs_soroban_env.Fees.Rent.{
  LedgerEntryRentChange, RentFeeConfiguration, compute_rent_fee, rent_fee_per_entry_change,
  rent_fee_for_size_and_ledgers,
}
use rs_soroban_env.Fees.Rent.Totals.{compute_rent_fee_lem, compute_rent_fee_unchanged}

-- A division that rounds up, as `num_integer::div_ceil`.
div_ceil : ℤ → ℤ → ℤ
div_ceil (pos n) (pos d) = pos ((n + (d - 1)) / d)
div_ceil (negsuc n) (pos d) = pos 0 -ℤ pos (suc n / d)
div_ceil n (negsuc d) = pos 0

abbrev num : NumInteger
unfolding div_ceil
num = record { div_ceil = div_ceil; div_ceil-pos = λ n d h. refl; div_ceil-neg = λ n d h. refl }

abbrev small : TransactionResources
small = record {
  instructions = 10001;
  disk_read_entries = 1;
  write_entries = 1;
  disk_read_bytes = 1024;
  write_bytes = 1;
  contract_events_size_bytes = 10;
  transaction_size_bytes = 100;
}

abbrev large : TransactionResources
large = record small { instructions = 20001; contract_events_size_bytes = 2048 }

abbrev fees : FeeConfiguration
fees = record {
  fee_per_instruction_increment = pos 100;
  fee_per_disk_read_entry = pos 10;
  fee_per_write_entry = pos 20;
  fee_per_disk_read_1kb = pos 3;
  fee_per_write_1kb = pos 4;
  fee_per_historical_1kb = pos 5;
  fee_per_contract_event_1kb = pos 6;
  fee_per_transaction_size_1kb = pos 7;
}

-- 101 + 10 + 20 + 3 + 1 + 2 + 1 and 1: partial increments are charged up to the next unit of fee.
small_fee : compute_transaction_resource_fee num small fees ≡ (pos 138, pos 1)
unfolding compute_transaction_resource_fee compute_fee_per_increment saturating_add saturating_mul
    div_ceil
small_fee = refl

compute_transaction_resource_fee_mono_example :
    let (non_refundable, refundable) = compute_transaction_resource_fee num small fees in
    let (non_refundable', refundable') = compute_transaction_resource_fee num large fees in
    FeeLe non_refundable non_refundable' × FeeLe refundable refundable'
compute_transaction_resource_fee_mono_example =
    compute_transaction_resource_fee_mono num small large fees (omega arith) (omega arith)

compute_rent_write_fee_per_1kb_mono_example :
    let fee = compute_rent_write_fee_per_1kb num (pos 999) (config 1000 1000 5000 2) in
    let fee' = compute_rent_write_fee_per_1kb num (pos 1500) (config 1000 1000 5000 2) in
    (pos 1000 ≤ℤ fee) × (fee ≤ℤ fee') × (fee' ≤ℤ pos i64_top)
compute_rent_write_fee_per_1kb_mono_example =
    compute_rent_write_fee_per_1kb_mono num 1000 1000 5000 2 (omega arith) (omega arith)
      (omega arith) 999 1500 (omega arith) (omega arith)

abbrev rent : RentFeeConfiguration
rent = record {
  fee_per_write_1kb = pos 4;
  fee_per_rent_1kb = pos 10;
  fee_per_write_entry = pos 20;
  persistent_rent_rate_denominator = pos 2;
  temporary_rent_rate_denominator = pos 4;
}

abbrev extended : LedgerEntryRentChange
extended = record {
  is_persistent = true;
  is_code_entry = false;
  old_size_bytes = 1024;
  new_size_bytes = 2048;
  old_live_until_ledger = 10;
  new_live_until_ledger = 20;
}

abbrev kept : LedgerEntryRentChange
kept = record extended { new_size_bytes = 1024; new_live_until_ledger = 10 }

-- 10 ledgers at 2 KB, 6 prepaid ledgers for 1 KB more, and the write of the TTL entry.
extended_rent : compute_rent_fee num (extended ∷ []) rent 5 ≡ pos 151
unfolding compute_rent_fee rent_fee_per_entry_change rent_fee_for_size_and_ledgers
    compute_fee_per_increment saturating_add saturating_mul div_ceil
extended_rent = refl

compute_rent_fee_lem_example :
    FeeLe
      (compute_rent_fee num (extended ∷ []) rent 5)
      (compute_rent_fee num (extended ∷ kept ∷ []) rent 5)
    × (compute_rent_fee num (kept ∷ extended ∷ []) rent 5
        ≡ compute_rent_fee num (extended ∷ kept ∷ []) rent 5)
compute_rent_fee_lem_example =
    compute_rent_fee_lem num rent (omega arith) (extended ∷ []) (kept ∷ []) (kept ∷ extended ∷ []) 5
      (Perm.swap _ _ _)

compute_rent_fee_unchanged_example : compute_rent_fee num (kept ∷ kept ∷ []) rent 5 ≡ pos 0
compute_rent_fee_unchanged_example =
    compute_rent_fee_unchanged num rent (omega arith) (kept ∷ kept ∷ []) 5 (omega arith)
