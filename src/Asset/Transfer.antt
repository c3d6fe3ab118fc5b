-- ===== src/Asset/Transfer.antt =====
-- What moves balances: soroban-env-host/src/builtin_contracts/stellar_asset_contract/balance.rs, and the
-- transfer of contract.rs.
pub mod Seen
pub mod Moved
pub mod Given
pub mod Conserved
mod Tests
use rs_soroban_env.Prelude.{
  ℕ, ◌*◌, ◌-◌, Bool, true, false, ◌&&◌, not, if◌then◌else◌, Option, none, some,
}
use rs_soroban_env.Prelude.Int.{ℤ, pos, negsuc, ◌+ℤ◌, ◌-ℤ◌, ltb_ℤ}
use rs_soroban_env.Prelude.Signed.{i64_top, i128_top}
use rs_soroban_env.Errors.{Error, Result, ok, err, error, ScErrorType, ScErrorCode, ok_or}
use rs_soroban_env.Errors.Exec.{Exec, ◌>>=◌, ◌>>◌, pure, throw, lift}
use rs_soroban_env.Asset.Allowance.{TemporaryData, checked_sub_i128, overflow_error}
use rs_soroban_env.Asset.Classic.{
  ClassicHost, wrap_i64, contract_error, balance_error, operation_not_supported_error,
}
use rs_soroban_env.Asset.Classic.Authorization.{
  transfer_classic_balance, get_classic_balance, is_account_authorized, set_authorization,
  check_account_clawbackable,
}
use rs_soroban_env.Asset.Balance.{
  BalanceValue, Holder, account_id, contract_id, other_id, BalanceHost, unexpected_address,
  negative_amount_error, is_asset_clawback_enabled, is_asset_auth_revocable, extend_balance,
  write_contract_balance, check_authorized,
}

-- `i128::checked_add`, and `i64::try_from`.
unfoldable pub checked_add_i128 : ℤ → ℤ → Option ℤ
checked_add_i128 a b =
    let d = a +ℤ b in
    if ltb_ℤ (pos i128_top) d then none else if ltb_ℤ d (negsuc i128_top) then none else some d

abbrev pub to_i64 : ℤ → Result ℤ
to_i64 a =
    if ltb_ℤ (pos i64_top) a
    then err overflow_error
    else if ltb_ℤ a (negsuc i64_top)
    then err overflow_error
    else ok a

module _ {S Address : Type 0} (host : BalanceHost S Address) where
  -- A balance that is there, or a new one.
  unfoldable pub balance_or_new : Bool → Option BalanceValue → Exec S BalanceValue
  unfolding is_asset_clawback_enabled
  balance_or_new authorized (some balance) = pure balance
  balance_or_new authorized none = is_asset_clawback_enabled host >>= λ clawback.
      pure (record { amount = pos 0; authorized = authorized; clawback = clawback })

  unfoldable pub add_to_balance : Address → ℤ → BalanceValue → Exec S (Unit {0})
  unfolding checked_add_i128 write_contract_balance
  add_to_balance addr amount balance =
      lift (λ _. ok_or (checked_add_i128 balance.amount amount) overflow_error) >>= λ new.
      write_contract_balance host addr (record balance { amount = new })

  unfoldable pub receive : Address → ℤ → Holder → Exec S (Unit {0})
  unfolding transfer_classic_balance balance_or_new add_to_balance
  receive addr amount (account_id acc) =
      lift (λ _. to_i64 amount) >>= transfer_classic_balance host.classic acc
  receive addr amount contract_id = host.balances.charge_clone >>= λ _.
      host.balances.try_get_contract_data addr >>= λ found.
      balance_or_new true found >>= add_to_balance addr amount
  receive addr amount other_id = throw unexpected_address

  unfoldable pub receive_balance : Address → ℤ → Exec S (Unit {0})
  unfolding check_authorized receive
  receive_balance addr amount =
      check_authorized host addr >>= λ _. host.to_sc_address addr >>= receive addr amount

  -- What is left of a contract's balance.
  unfoldable pub take_from_balance : Address → ℤ → Option BalanceValue → Exec S (Unit {0})
  unfolding checked_sub_i128 write_contract_balance
  take_from_balance addr amount none = if ltb_ℤ (pos 0) amount then throw balance_error else pure tt
  take_from_balance addr amount (some balance) =
      if ltb_ℤ balance.amount amount
      then throw balance_error
      else (lift (λ _. ok_or (checked_sub_i128 balance.amount amount) overflow_error) >>= λ new.
          write_contract_balance host addr (record balance { amount = new }))

  unfoldable pub spend : Address → ℤ → Holder → Exec S (Unit {0})
  unfolding transfer_classic_balance take_from_balance
  spend addr amount (account_id acc) = lift (λ _. to_i64 amount) >>= λ i64_amount.
      transfer_classic_balance host.classic acc (wrap_i64 (pos 0 -ℤ i64_amount))
  spend addr amount contract_id = host.balances.charge_clone >>= λ _.
      host.balances.try_get_contract_data addr >>= take_from_balance addr amount
  spend addr amount other_id = throw unexpected_address

  unfoldable pub spend_balance_no_authorization_check : Address → ℤ → Exec S (Unit {0})
  unfolding spend
  spend_balance_no_authorization_check addr amount = host.to_sc_address addr >>= spend addr amount

  unfoldable pub spend_balance : Address → ℤ → Exec S (Unit {0})
  unfolding check_authorized spend_balance_no_authorization_check
  spend_balance addr amount =
      check_authorized host addr >>= λ _. spend_balance_no_authorization_check addr amount

  unfoldable pub check_revocable : Bool → Exec S (Unit {0})
  unfolding is_asset_auth_revocable
  check_revocable true = pure tt
  check_revocable false = is_asset_auth_revocable host >>= λ revocable.
      if revocable then pure tt else throw operation_not_supported_error

  unfoldable pub write_authorization : Address → Bool → Exec S (Unit {0})
  unfolding check_revocable set_authorization balance_or_new write_contract_balance
  write_authorization addr authorize = check_revocable authorize >>= λ _.
      host.to_sc_address addr >>= λ holder. elim holder [
        | account_id acc ↦ set_authorization host.classic acc authorize
        | contract_id ↦ host.balances.charge_clone >>= λ _.
            host.balances.try_get_contract_data addr >>= balance_or_new authorize >>= λ balance.
            write_contract_balance host addr (record balance { authorized = authorize })
        | other_id ↦ throw unexpected_address
      ]

  unfoldable pub clawbackable_by_data : Option BalanceValue → Exec S (Unit {0})
  clawbackable_by_data none = throw balance_error
  clawbackable_by_data (some balance) = if balance.clawback then pure tt else throw balance_error

  unfoldable pub check_clawbackable : Address → Exec S (Unit {0})
  unfolding check_account_clawbackable clawbackable_by_data
  check_clawbackable addr = host.to_sc_address addr >>= λ holder. elim holder [
    | account_id acc ↦ check_account_clawbackable host.classic acc
    | contract_id ↦ host.balances.try_get_contract_data addr >>= clawbackable_by_data
    | other_id ↦ throw unexpected_address
  ]

-- `check_nonnegative_amount`.
unfoldable pub check_nonnegative_amount : {S : Type 0} → ℤ → Exec S (Unit {0})
check_nonnegative_amount amount =
    if ltb_ℤ amount (pos 0) then throw negative_amount_error else pure tt

-- `MuxedAddress` of builtin_contracts/base_types.rs: an address, or an object of the host that has an
-- address and a number.
pub data MuxedAddress (Address : Type 0) : Type 0 where
  plain : Address → MuxedAddress Address
  muxed : ℕ → MuxedAddress Address

pub record MuxHost (S Address : Type 0) : Type 0 where
  pub get_address_from_muxed_address : ℕ → Exec S Address
  pub get_id_from_muxed_address : ℕ → Exec S ℕ

module _ {S Address : Type 0} (host : MuxHost S Address) where
  -- `address` and `id`.
  unfoldable pub mux_address : MuxedAddress Address → Exec S Address
  mux_address (plain a) = pure a
  mux_address (muxed object) = host.get_address_from_muxed_address object

  unfoldable pub mux_id : MuxedAddress Address → Exec S (Option ℕ)
  mux_id (plain a) = pure none
  mux_id (muxed object) = host.get_id_from_muxed_address object >>= λ id. pure (some id)

module _ {S Address : Type 0} (host : BalanceHost S Address) (mux_host : MuxHost S Address)
    (require_auth : Address → Exec S (Unit {0})) (extend_instance : Exec S (Unit {0}))
    (transfer_event : Address → Address → Option ℕ → ℤ → Exec S (Unit {0})) where
  -- `transfer`, with the contract's authorization, the extension of its instance and its event as arguments.
  unfoldable pub transfer : Address → MuxedAddress Address → ℤ → Exec S (Unit {0})
  unfolding check_nonnegative_amount mux_address mux_id spend_balance receive_balance
  transfer from to_mux amount = check_nonnegative_amount amount >>= λ _.
      mux_address mux_host to_mux >>= λ to. require_auth from >>= λ _. extend_instance >>= λ _.
      host.balances.charge_clone >>= λ _. spend_balance host from amount >>= λ _.
      host.balances.charge_clone >>= λ _. receive_balance host to amount >>= λ _.
      mux_id mux_host to_mux >>= λ id. transfer_event from to id amount
