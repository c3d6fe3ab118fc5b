-- ===== src/Storage/Extend.antt =====
-- `extend_ttl` of soroban-env-host/src/storage.rs.
pub mod Bounds
use rs_soroban_env.Prelude.{
  ℕ, ◌-◌, Option, none, some, Bool, true, false, ltb, leb, if◌then◌else◌, ◌&&◌,
}
use rs_soroban_env.Prelude.Words.{checked_add_u32}
use rs_soroban_env.Errors
use rs_soroban_env.Errors.{Result, ok, err, error, ScErrorType, ScErrorCode, ok_or}
use rs_soroban_env.Errors.Exec.{Exec, ◌>>=◌, ◌>>◌, pure, throw, lift}
use rs_soroban_env.Storage.Ledger.{
  LedgerEntryType, LedgerInfo, ContractDataDurability, max_live_until_ledger, get_key_durability,
  check_supported_ledger_type,
}
use rs_soroban_env.Storage.Ledger.ContractDataDurability.{temporary, persistent}
use rs_soroban_env.Storage.Access.{
  Storage, Host, internal_error, if_recording_mode, handle_maybe_expired_entry,
  get_with_live_until_ledger, map_insert,
}

-- The clamp to the largest TTL: of a persistent entry only.
unfoldable pub clamp : Option ContractDataDurability → ℕ → ℕ → Result ℕ
clamp durability new_live_until max_live_until =
    if ltb max_live_until new_live_until
    then (elim durability [
      | none ↦ err internal_error
      | some d ↦ elim d [
        | persistent ↦ ok max_live_until
        | temporary ↦ err (error ScErrorType.storage ScErrorCode.invalid_action)
      ]
    ])
    else ok new_live_until

-- From the reading of the old TTL to the new one: the ledger until which the entry is to live.
unfoldable pub extended_live_until : LedgerInfo → LedgerEntryType → Option ℕ → ℕ → Result (ℕ × ℕ)
unfolding clamp checked_add_u32 max_live_until_ledger get_key_durability
extended_live_until li key_type old extend_to =
    Errors.◌>>=◌ (ok_or old internal_error) λ old_live_until.
      if ltb old_live_until li.sequence_number
      then err internal_error
      else (Errors.◌>>=◌
          (ok_or (checked_add_u32 li.sequence_number extend_to)
            (error ScErrorType.context ScErrorCode.internal_error))
          λ new_live_until. Errors.◌>>=◌ (max_live_until_ledger li) λ max_live_until.
            Errors.◌>>=◌ (clamp (get_key_durability key_type) new_live_until max_live_until)
              λ clamped. ok (old_live_until, clamped))

module _ {S K E : Type 0} (h : Host S K E) where
  unfoldable pub check_threshold : ℕ → ℕ → Exec (Storage S K E) (Unit {0})
  check_threshold threshold extend_to =
      if ltb extend_to threshold
      then throw (error ScErrorType.storage ScErrorCode.invalid_input)
      else pure tt

  -- The old and the new ledger until which the entry lives: it is written if it is to live longer
  -- and not much of its life is left.
  unfoldable pub store_extended : K → ℕ → E → ℕ × ℕ → Exec (Storage S K E) (Unit {0})
  unfolding map_insert
  store_extended key threshold entry (old_live_until, new_live_until) =
      if ltb old_live_until new_live_until
        && leb (old_live_until - h.ledger_info.sequence_number) threshold
      then map_insert h key (some (entry, some new_live_until))
      else pure tt

  unfoldable pub extend_ttl : K → ℕ → ℕ → Exec (Storage S K E) (Unit {0})
  unfolding check_supported_ledger_type handle_maybe_expired_entry get_with_live_until_ledger
      check_threshold store_extended extended_live_until
  extend_ttl key threshold extend_to = do
    lift λ _. check_supported_ledger_type (h.key_type key)
    check_threshold threshold extend_to
    if_recording_mode h (handle_maybe_expired_entry h key)
    found ← get_with_live_until_ledger h key
    lives ← lift λ _. extended_live_until h.ledger_info (h.key_type key) found.1 extend_to
    store_extended key threshold found.0 lives
