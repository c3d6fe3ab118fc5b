-- ===== src/Asset/Allowance.antt =====
-- Allowances, soroban-env-host/src/builtin_contracts/stellar_asset_contract/allowance.rs. The contract's
-- temporary data are an interface; an amount is an integer of 128 bits.
pub mod Spend
pub mod Exact
pub mod Success
use rs_soroban_env.Prelude.{ℕ, ◌-◌, ◌*◌, ◌^◌, Bool, ◌&&◌, ltb, if◌then◌else◌, Option, none, some}
use rs_soroban_env.Prelude.Int.{ℤ, pos, negsuc, ◌-ℤ◌, ltb_ℤ}
use rs_soroban_env.Prelude.Signed.{i128_top}
use rs_soroban_env.Errors.{Error, Result, ok, err, error, ok_or, ScErrorType, ScErrorCode}
use rs_soroban_env.Errors.Exec.{Exec, ◌>>=◌, pure, throw, lift}
use rs_soroban_env.Storage.Ledger.{LedgerInfo, max_live_until_ledger}

pub record AllowanceDataKey (Address : Type 0) : Type 0 where
  pub from : Address
  pub spender : Address

pub record AllowanceValue : Type 0 where
  pub amount : ℤ
  pub live_until_ledger : ℕ

-- The temporary data of the contract and the metering of a clone.
pub record TemporaryData (S K V : Type 0) : Type 0 where
  pub try_get_contract_data : K → Exec S (Option V)
  pub get_contract_data : K → Exec S V
  pub put_contract_data : K → V → Exec S (Unit {0})
  pub extend_contract_data_ttl : K → ℕ → ℕ → Exec S (Unit {0})
  pub charge_clone : Exec S (Unit {0})

-- `ContractError::AllowanceError` and `ContractError::OverflowError`.
abbrev pub allowance_error : Error
allowance_error = error ScErrorType.contract (ScErrorCode.contract_code 9)

abbrev pub overflow_error : Error
overflow_error = error ScErrorType.contract (ScErrorCode.contract_code 12)

-- `i128::checked_sub`.
unfoldable pub checked_sub_i128 : ℤ → ℤ → Option ℤ
checked_sub_i128 a b =
    let d = a -ℤ b in
    if ltb_ℤ (pos i128_top) d then none else if ltb_ℤ d (negsuc i128_top) then none else some d

module _ (li : LedgerInfo) where
  -- What an allowance in the data is worth.
  unfoldable pub amount_at : Option AllowanceValue → ℤ
  amount_at none = pos 0
  amount_at (some val) = if ltb val.live_until_ledger li.sequence_number then pos 0 else val.amount

  unfoldable pub validate : ℤ → ℕ → Result ℕ
  unfolding max_live_until_ledger
  validate amount live_until = elim (max_live_until_ledger li) [
    | err e ↦ err e
    | ok max ↦
        if ltb max live_until
        then err allowance_error
        else if ltb_ℤ (pos 0) amount && ltb live_until li.sequence_number
        then err allowance_error
        else ok li.sequence_number
  ]

-- The allowance to write, and until when the one that it replaces lives.
unfoldable pub updated : ℤ → ℕ → Option AllowanceValue → Option (AllowanceValue × Option ℕ)
updated amount live_until (some old) =
    some (record { amount = amount; live_until_ledger = live_until }, some old.live_until_ledger)
updated amount live_until none =
    if ltb_ℤ (pos 0) amount
    then some (record { amount = amount; live_until_ledger = live_until }, none)
    else none

abbrev pub or_zero : Option ℕ → ℕ
or_zero none = 0
or_zero (some n) = n

module _ {S Address : Type 0} (li : LedgerInfo)
    (data_ : TemporaryData S (AllowanceDataKey Address) AllowanceValue) where
  unfoldable pub read_allowance : Address → Address → Exec S ℤ
  unfolding amount_at
  read_allowance from spender = do
    allowance ← data_.try_get_contract_data (record { from = from; spender = spender })
    pure (amount_at li allowance)

  unfoldable pub extend_if_longer :
      AllowanceDataKey Address → ℤ → Option ℕ → ℕ → ℕ → Exec S (Unit {0})
  extend_if_longer key amount old_live_until live_until ledger_seq =
      let live_for = live_until - ledger_seq in
      if ltb_ℤ (pos 0) amount && ltb (or_zero old_live_until) live_until
      then data_.extend_contract_data_ttl key live_for live_for
      else pure tt

  unfoldable pub store_allowance :
      AllowanceDataKey Address → ℕ → ℕ → Option (AllowanceValue × Option ℕ) → Exec S (Unit {0})
  unfolding extend_if_longer
  store_allowance key live_until ledger_seq none = pure tt
  store_allowance key live_until ledger_seq (some (value, old_live_until)) = do
    _ ← data_.put_contract_data key value
    extend_if_longer key value.amount old_live_until live_until ledger_seq

  unfoldable pub write_allowance : Address → Address → ℤ → ℕ → Exec S (Unit {0})
  unfolding validate updated store_allowance
  write_allowance from spender amount live_until = do
    ledger_seq ← lift (λ _. validate li amount live_until)
    old ← data_.try_get_contract_data (record { from = from; spender = spender })
    store_allowance (record { from = from; spender = spender }) live_until ledger_seq
        (updated amount live_until old)

  unfoldable pub write_allowance_amount : Address → Address → ℤ → Exec S (Unit {0})
  unfolding write_allowance
  write_allowance_amount from spender amount = do
    _ ← data_.charge_clone
    _ ← data_.charge_clone
    allowance ← data_.get_contract_data (record { from = from; spender = spender })
    write_allowance from spender amount allowance.live_until_ledger

  unfoldable pub spend_from : Address → Address → ℤ → ℤ → Exec S (Unit {0})
  unfolding write_allowance_amount checked_sub_i128
  spend_from from spender amount allowance =
      if ltb_ℤ allowance amount
      then throw allowance_error
      else if ltb_ℤ (pos 0) amount
      then (lift (λ _. ok_or (checked_sub_i128 allowance amount) overflow_error)
          >>= λ new_allowance. write_allowance_amount from spender new_allowance)
      else pure tt

  unfoldable pub spend_allowance : Address → Address → ℤ → Exec S (Unit {0})
  unfolding read_allowance spend_from
  spend_allowance from spender amount = do
    _ ← data_.charge_clone
    _ ← data_.charge_clone
    allowance ← read_allowance from spender
    spend_from from spender amount allowance
