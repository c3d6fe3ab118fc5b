-- ===== src/Storage/Ledger.antt =====
-- soroban-env-host/src/ledger_info.rs, soroban-env-host/src/host/ledger_info_helper.rs, and the kinds
-- of ledger keys and entries that storage.rs tells apart.
use rs_soroban_env.Prelude.{ℕ, ◌-◌, Option, none, some, Bool, true, false}
use rs_soroban_env.Prelude.Words.{checked_add_u32}
use rs_soroban_env.Errors.{Result, ok, err, error, ScErrorType, ScErrorCode, ok_or}

pub data ContractDataDurability : Type 0 where
  temporary persistent : ContractDataDurability

-- The variants of `LedgerKey`, and of `LedgerEntryData`.
pub data LedgerEntryType : Type 0 where
  account trustline contract_code offer data_ claimable_balance : LedgerEntryType
  liquidity_pool config_setting ttl : LedgerEntryType
  contract_data : ContractDataDurability → LedgerEntryType

-- The fields that the modelled code reads.
pub record LedgerInfo : Type 0 where
  pub sequence_number : ℕ
  pub min_temp_entry_ttl : ℕ
  pub min_persistent_entry_ttl : ℕ
  pub max_entry_ttl : ℕ

unfoldable pub min_live_until_ledger_checked : LedgerInfo → ContractDataDurability → Option ℕ
unfolding checked_add_u32
min_live_until_ledger_checked li temporary =
    checked_add_u32 li.sequence_number (li.min_temp_entry_ttl - 1)
min_live_until_ledger_checked li persistent =
    checked_add_u32 li.sequence_number (li.min_persistent_entry_ttl - 1)

unfoldable pub max_live_until_ledger_checked : LedgerInfo → Option ℕ
unfolding checked_add_u32
max_live_until_ledger_checked li = checked_add_u32 li.sequence_number (li.max_entry_ttl - 1)

unfoldable pub get_min_live_until_ledger : LedgerInfo → ContractDataDurability → Result ℕ
unfolding min_live_until_ledger_checked
get_min_live_until_ledger li durability =
    ok_or (min_live_until_ledger_checked li durability)
      (error ScErrorType.context ScErrorCode.internal_error)

unfoldable pub max_live_until_ledger : LedgerInfo → Result ℕ
unfolding max_live_until_ledger_checked
max_live_until_ledger li =
    ok_or (max_live_until_ledger_checked li) (error ScErrorType.context ScErrorCode.internal_error)

unfoldable pub get_key_durability : LedgerEntryType → Option ContractDataDurability
get_key_durability (contract_data durability) = some durability
get_key_durability contract_code = some persistent
get_key_durability _ = none

unfoldable pub is_persistent_key : LedgerEntryType → Bool
is_persistent_key (contract_data persistent) = true
is_persistent_key (contract_data temporary) = false
is_persistent_key contract_code = true
is_persistent_key _ = false

-- `check_supported_ledger_key_type` and `check_supported_ledger_entry_type`, of the type of a key or
-- of an entry.
unfoldable pub check_supported_ledger_type : LedgerEntryType → Result (Unit {0})
check_supported_ledger_type account = ok tt
check_supported_ledger_type trustline = ok tt
check_supported_ledger_type (contract_data _) = ok tt
check_supported_ledger_type contract_code = ok tt
check_supported_ledger_type _ = err (error ScErrorType.storage ScErrorCode.internal_error)
