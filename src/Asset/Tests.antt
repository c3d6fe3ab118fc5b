-- ===== src/Asset/Tests.antt =====
-- Allowances in a small store.
use rs_soroban_env.Prelude.{
  ℕ, ◌≡◌, refl, ap, ◌≤◌, arith, Bool, ◌&&◌, ◌==◌, if◌then◌else◌, Option, none, some, ◌⊎◌, inl, inr,
  true, false,
}
use rs_soroban_env.Prelude.Int.{pos, pos_part, ltb_ℤ, ◌-ℤ◌}
use rs_soroban_env.Errors.{Result, ok, err, error, ScErrorType, ScErrorCode, is_ok}
use rs_soroban_env.Errors.Exec.{pure}
use rs_soroban_env.Storage.Ledger.{LedgerInfo, max_live_until_ledger}
use rs_soroban_env.Asset.Allowance.{
  AllowanceDataKey, AllowanceValue, TemporaryData, spend_allowance, read_allowance, allowance_error,
  amount_at,
}
use rs_soroban_env.Asset.Allowance.Spend.{Lawful, put_in}
use rs_soroban_env.Asset.Allowance.Success.{spend_allowance-ok}
use rs_soroban_env.Prelude.Signed.{i128_top}
use rs_soroban_env.Asset.Allowance.Exact.{worth, Outcome, spend_allowance_lem}

abbrev Key : Type 0
Key = AllowanceDataKey ℕ

abbrev Store : Type 0
Store = Key → Option AllowanceValue

abbrev is_same : Key → Key → Bool
is_same a b = a.from == b.from && a.spender == b.spender

abbrev or_missing : Option AllowanceValue → Result AllowanceValue
or_missing none = err (error ScErrorType.storage ScErrorCode.missing_value)
or_missing (some v) = ok v

abbrev store_data : TemporaryData Store Key AllowanceValue
store_data = record {
  try_get_contract_data = λ k s. (ok (s k), s);
  get_contract_data = λ k s. (or_missing (s k), s);
  put_contract_data = λ k v s. (ok tt, put_in is_same k v s);
  extend_contract_data_ttl = λ k m n. pure tt;
  charge_clone = pure tt;
}

abbrev view : Store → Store
view s = s

or_missing_lem :
    (v : Option AllowanceValue)
    → (is_ok (or_missing v) ≡ false) ⊎ ((w : AllowanceValue) × (or_missing v ≡ ok w) × (v ≡ some w))
or_missing_lem none = inl refl
or_missing_lem (some w) = inr (w, refl, refl)

store_Lawful : Lawful store_data view is_same
store_Lawful = record {
  finding = λ k s. (refl, inr refl);
  getting = λ k s. (refl, or_missing_lem (s k));
  putting = λ k v s. inr refl;
  extending = λ k m n s. refl;
  cloning = λ s. refl;
}

abbrev ledger : LedgerInfo
ledger = record {
  sequence_number = 100;
  min_temp_entry_ttl = 16;
  min_persistent_entry_ttl = 64;
  max_entry_ttl = 1000;
}

-- Address 1 lets address 2 spend 50, until ledger 200.
abbrev allowances : Store
allowances k =
    if is_same k (record { from = 1; spender = 2 })
    then some (record { amount = pos 50; live_until_ledger = 200 })
    else none

thirty_left :
    (read_allowance ledger store_data 1 2
      (spend_allowance ledger store_data 1 2 (pos 20) allowances).1).0
    ≡ ok (pos 30)
unfolding read_allowance spend_allowance ◌-ℤ◌
thirty_left = refl

spent_well : (spend_allowance ledger store_data 1 2 (pos 20) allowances).0 ≡ ok tt
unfolding spend_allowance ◌-ℤ◌
spent_well = refl

too_much : (spend_allowance ledger store_data 1 2 (pos 51) allowances).0 ≡ err allowance_error
unfolding spend_allowance ◌-ℤ◌
too_much = refl

spend_allowance_lem_example :
    Outcome ledger store_data view is_same store_Lawful allowances 1 2
      (pos 20)
      (spend_allowance ledger store_data 1 2 (pos 20) allowances)
spend_allowance_lem_example =
    spend_allowance_lem ledger store_data view is_same store_Lawful allowances 1 2 (pos 20)
      allowances refl

held_found :
    (k : Key) (v : AllowanceValue) (s : Store) → view s k ≡ some v → is_ok (or_missing (s k)) ≡ true
held_found k v s e = ap (λ o. is_ok (or_missing o)) e

ledger_end : max_live_until_ledger ledger ≡ ok 1099
unfolding max_live_until_ledger
ledger_end = refl

enough_left :
    ltb_ℤ (worth ledger store_data view is_same store_Lawful allowances 1 2 (pos 20)) (pos 20)
    ≡ false
unfolding amount_at
enough_left = refl

worth_fits :
    pos_part (worth ledger store_data view is_same store_Lawful allowances 1 2 (pos 20)) ≤ i128_top
unfolding amount_at
worth_fits = omega arith

spend_allowance-ok_example : (spend_allowance ledger store_data 1 2 (pos 20) allowances).0 ≡ ok tt
spend_allowance-ok_example =
    spend_allowance-ok ledger store_data view is_same store_Lawful (λ s. refl) (λ k s. refl)
      held_found (λ k v s. refl) (λ k m n s. refl) 1 2 (pos 20) 1099 allowances ledger_end
      (omega arith) worth_fits enough_left
