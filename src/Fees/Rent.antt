-- ===== src/Fees/Rent.antt =====
-- The rent fee of soroban-env-host/src/fees.rs. `CODE_ENTRY_RENT_DISCOUNT_FACTOR` is the 3 of
-- `code_entry_rent_discount_factor`.
pub mod Laws
pub mod Totals
use rs_soroban_env.Prelude.{
  ℕ, ◌+◌, ◌-◌, Bool, Option, none, some, List, [], ◌∷◌, if◌then◌else◌, ◌==◌, ltb, ◌&&◌,
}
use rs_soroban_env.Prelude.Int.{ℤ, pos}
use rs_soroban_env.Prelude.Words.{checked_sub, saturating_add_u32}
use rs_soroban_env.Prelude.Signed.{NumInteger, saturating_add, saturating_mul, max_ℤ, div_trunc}
use rs_soroban_env.Fees.Resource.{data_size_1kb_increment, compute_fee_per_increment}

abbrev pub ttl_entry_size : ℕ
ttl_entry_size = 48

abbrev pub code_entry_rent_discount_factor : ℕ
code_entry_rent_discount_factor = 3

pub record LedgerEntryRentChange : Type 0 where
  pub is_persistent : Bool
  pub is_code_entry : Bool
  pub old_size_bytes : ℕ
  pub new_size_bytes : ℕ
  pub old_live_until_ledger : ℕ
  pub new_live_until_ledger : ℕ

pub record RentFeeConfiguration : Type 0 where
  pub fee_per_write_1kb : ℤ
  pub fee_per_rent_1kb : ℤ
  pub fee_per_write_entry : ℤ
  pub persistent_rent_rate_denominator : ℤ
  pub temporary_rent_rate_denominator : ℤ

-- The number of ledgers in (lo, hi] and in [lo, hi], or none if lo > hi.
unfoldable pub exclusive_ledger_diff : ℕ → ℕ → Option ℕ
unfolding checked_sub
exclusive_ledger_diff lo hi = checked_sub hi lo

unfoldable pub inclusive_ledger_diff : ℕ → ℕ → Option ℕ
unfolding exclusive_ledger_diff saturating_add_u32
inclusive_ledger_diff lo hi = elim (exclusive_ledger_diff lo hi) [
  | none ↦ none
  | some diff ↦ some (saturating_add_u32 diff 1)
]

unfoldable pub entry_is_new : LedgerEntryRentChange → Bool
entry_is_new e = e.old_size_bytes == 0 && e.old_live_until_ledger == 0

unfoldable pub extension_ledgers : LedgerEntryRentChange → ℕ → Option ℕ
unfolding exclusive_ledger_diff entry_is_new
extension_ledgers e current_ledger =
    let ledger_before_extension =
      if entry_is_new e then current_ledger - 1 else e.old_live_until_ledger in
    exclusive_ledger_diff ledger_before_extension e.new_live_until_ledger

unfoldable pub prepaid_ledgers : LedgerEntryRentChange → ℕ → Option ℕ
unfolding inclusive_ledger_diff entry_is_new
prepaid_ledgers e current_ledger =
    if entry_is_new e then none else inclusive_ledger_diff current_ledger e.old_live_until_ledger

unfoldable pub size_increase : LedgerEntryRentChange → Option ℕ
unfolding checked_sub
size_increase e = checked_sub e.new_size_bytes e.old_size_bytes

module _ (num : NumInteger) where
  unfoldable pub rent_fee_for_size_and_ledgers : Bool → ℕ → ℕ → RentFeeConfiguration → ℤ
  rent_fee_for_size_and_ledgers is_persistent entry_size rent_ledgers c =
      let fee =
        saturating_mul (saturating_mul (pos entry_size) c.fee_per_rent_1kb) (pos rent_ledgers) in
      let storage_coef =
        if is_persistent
        then c.persistent_rent_rate_denominator
        else c.temporary_rent_rate_denominator in
      let denom = saturating_mul data_size_1kb_increment storage_coef in
      num.div_ceil fee (max_ℤ denom (pos 1))

  -- The first `if let` of `rent_fee_per_entry_change`, and the second.
  pub extension_fee : LedgerEntryRentChange → RentFeeConfiguration → ℕ → ℤ → ℤ
  unfolding extension_ledgers
  extension_fee e c current_ledger fee = elim (extension_ledgers e current_ledger) [
    | none ↦ fee
    | some rent_ledgers ↦
        saturating_add fee
          (rent_fee_for_size_and_ledgers e.is_persistent e.new_size_bytes rent_ledgers c)
  ]

  pub top_up_fee : LedgerEntryRentChange → RentFeeConfiguration → ℕ → ℤ → ℤ
  unfolding prepaid_ledgers size_increase
  top_up_fee e c current_ledger fee = elim (prepaid_ledgers e current_ledger) [
    | none ↦ fee
    | some rent_ledgers ↦ elim (size_increase e) [
      | none ↦ fee
      | some entry_size ↦
          saturating_add fee
            (rent_fee_for_size_and_ledgers e.is_persistent entry_size rent_ledgers c)
    ]
  ]

  unfoldable pub rent_fee_per_entry_change : LedgerEntryRentChange → RentFeeConfiguration → ℕ → ℤ
  unfolding extension_fee top_up_fee
  rent_fee_per_entry_change e c current_ledger =
      let fee = top_up_fee e c current_ledger (extension_fee e c current_ledger (pos 0)) in
      if e.is_code_entry then div_trunc fee code_entry_rent_discount_factor else fee

  -- The loop of `compute_rent_fee` over the fee, the count of extended entries and their size.
  pub rent_loop : RentFeeConfiguration → ℕ → List LedgerEntryRentChange → ℤ → ℤ → ℕ → ℤ × ℤ × ℕ
  unfolding saturating_add_u32
  rent_loop c seq [] fee extended size = (fee, extended, size)
  rent_loop c seq (e ∷ es) fee extended size =
      let is_extended = ltb e.old_live_until_ledger e.new_live_until_ledger in
      rent_loop c seq es (saturating_add fee (rent_fee_per_entry_change e c seq))
        (if is_extended then saturating_add extended (pos 1) else extended)
        (if is_extended then saturating_add_u32 size ttl_entry_size else size)

  unfoldable pub compute_rent_fee : List LedgerEntryRentChange → RentFeeConfiguration → ℕ → ℤ
  unfolding rent_loop
  compute_rent_fee changed_entries c current_ledger_seq =
      let (fee, extended_entries, extended_entry_key_size_bytes) =
        rent_loop c current_ledger_seq changed_entries (pos 0) (pos 0) 0 in
      saturating_add (saturating_add fee (saturating_mul c.fee_per_write_entry extended_entries)) (
        compute_fee_per_increment num extended_entry_key_size_bytes c.fee_per_write_1kb
          data_size_1kb_increment)
