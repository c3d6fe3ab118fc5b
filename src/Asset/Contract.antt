-- ===== src/Asset/Contract.antt =====
-- The entry points of the Stellar asset contract, and its administrator: contract.rs and admin.rs of
-- soroban-env-host/src/builtin_contracts/stellar_asset_contract; `transfer` is in Asset/Transfer. Events,
-- authorization and the instance's data are arguments.
pub mod Journal
pub mod Asked
pub mod Steps
pub mod Consent
mod Tests
use rs_soroban_env.Prelude.{ℕ, Bool, true, false, if◌then◌else◌}
use rs_soroban_env.Prelude.Int.{ℤ}
use rs_soroban_env.Errors.{Error, Result, ok, err}
use rs_soroban_env.Errors.Exec.{Exec, ◌>>=◌, ◌>>◌, pure, throw}
use rs_soroban_env.Storage.Ledger.{LedgerInfo}
use rs_soroban_env.Asset.Allowance.{
  AllowanceDataKey, AllowanceValue, TemporaryData, read_allowance, write_allowance, spend_allowance,
}
use rs_soroban_env.Asset.Classic.{operation_not_supported_error}
use rs_soroban_env.Asset.Balance.{
  BalanceHost, AssetInfo, native_info, issued_by, read_balance, is_authorized,
}
use rs_soroban_env.Asset.Transfer.{
  receive_balance, spend_balance, spend_balance_no_authorization_check, write_authorization,
  check_clawbackable, check_nonnegative_amount,
}

pub data Event (Address : Type 0) : Type 0 where
  approved : Address → Address → ℤ → ℕ → Event Address
  moved : Address → Address → ℤ → Event Address
  burnt clawed_back minted : Address → ℤ → Event Address
  authorization_set : Address → Bool → Event Address
  admin_set : Address → Address → Event Address

pub record ContractHost (S Address : Type 0) : Type 0 where
  pub balance_host : BalanceHost S Address
  pub allowances : TemporaryData S (AllowanceDataKey Address) AllowanceValue
  pub require_auth : Address → Exec S (Unit {0})
  pub extend_instance : Exec S (Unit {0})
  pub is_issuer : ℕ → Address → Exec S Bool
  pub get_admin : Exec S Address
  pub put_admin : Address → Exec S (Unit {0})
  pub charge_clone : Exec S (Unit {0})
  pub emit : Event Address → Exec S (Unit {0})

module _ {S Address : Type 0} (li : LedgerInfo) (host : ContractHost S Address) where
  unfoldable pub non_native : AssetInfo → Exec S (Unit {0})
  non_native native_info = throw operation_not_supported_error
  non_native (issued_by _) = pure tt

  unfoldable pub check_non_native : Exec S (Unit {0})
  unfolding non_native
  check_non_native = host.balance_host.read_asset_info >>= non_native

  unfoldable pub not_issuer : Address → AssetInfo → Exec S (Unit {0})
  not_issuer addr native_info = pure tt
  not_issuer addr (issued_by issuer) = host.is_issuer issuer addr >>= λ same.
      if same then throw operation_not_supported_error else pure tt

  unfoldable pub check_not_issuer : Address → Exec S (Unit {0})
  unfolding not_issuer
  check_not_issuer addr = host.balance_host.read_asset_info >>= not_issuer addr

  unfoldable pub read_administrator : Exec S Address
  read_administrator = host.get_admin

  unfoldable pub write_administrator : Address → Exec S (Unit {0})
  write_administrator id = host.put_admin id

  unfoldable pub allowance : Address → Address → Exec S ℤ
  unfolding read_allowance
  allowance from spender =
      host.extend_instance >>= λ _. read_allowance li host.allowances from spender

  unfoldable pub approve : Address → Address → ℤ → ℕ → Exec S (Unit {0})
  unfolding check_nonnegative_amount write_allowance
  approve from spender amount live_until_ledger = check_nonnegative_amount amount >>= λ _.
      host.require_auth from >>= λ _. host.extend_instance >>= λ _. host.charge_clone >>= λ _.
      host.charge_clone >>= λ _.
      write_allowance li host.allowances from spender amount live_until_ledger >>= λ _.
      host.emit (approved from spender amount live_until_ledger)

  unfoldable pub balance : Address → Exec S ℤ
  unfolding read_balance
  balance addr = host.extend_instance >>= λ _. read_balance host.balance_host addr

  unfoldable pub authorized : Address → Exec S Bool
  unfolding is_authorized
  authorized addr = host.extend_instance >>= λ _. is_authorized host.balance_host addr

  unfoldable pub transfer_from : Address → Address → Address → ℤ → Exec S (Unit {0})
  unfolding check_nonnegative_amount spend_allowance spend_balance receive_balance
  transfer_from spender from to amount = check_nonnegative_amount amount >>= λ _.
      host.require_auth spender >>= λ _. host.extend_instance >>= λ _. host.charge_clone >>= λ _.
      spend_allowance li host.allowances from spender amount >>= λ _. host.charge_clone >>= λ _.
      spend_balance host.balance_host from amount >>= λ _. host.charge_clone >>= λ _.
      receive_balance host.balance_host to amount >>= λ _. host.emit (moved from to amount)

  unfoldable pub burn : Address → ℤ → Exec S (Unit {0})
  unfolding check_nonnegative_amount check_non_native check_not_issuer spend_balance
  burn from amount = check_nonnegative_amount amount >>= λ _. check_non_native >>= λ _.
      check_not_issuer from >>= λ _. host.require_auth from >>= λ _. host.extend_instance >>= λ _.
      host.charge_clone >>= λ _.
      spend_balance host.balance_host from amount >>= λ _. host.emit (burnt from amount)

  unfoldable pub burn_from : Address → Address → ℤ → Exec S (Unit {0})
  unfolding check_nonnegative_amount check_non_native check_not_issuer spend_allowance spend_balance
  burn_from spender from amount = check_nonnegative_amount amount >>= λ _. check_non_native >>= λ _.
      check_not_issuer from >>= λ _. host.require_auth spender >>= λ _.
      host.extend_instance >>= λ _. host.charge_clone >>= λ _.
      spend_allowance li host.allowances from spender amount >>= λ _. host.charge_clone >>= λ _.
      spend_balance host.balance_host from amount >>= λ _. host.emit (burnt from amount)

  -- The administrator's operations: its authorization, and then the rest.
  unfoldable pub as_admin : (Address → Exec S (Unit {0})) → Exec S (Unit {0})
  unfolding read_administrator
  as_admin rest = read_administrator >>= λ admin.
      host.require_auth admin >>= λ _. host.extend_instance >>= λ _. rest admin

  unfoldable pub clawback : Address → ℤ → Exec S (Unit {0})
  unfolding check_nonnegative_amount check_clawbackable check_not_issuer as_admin
      spend_balance_no_authorization_check
  clawback from amount = check_nonnegative_amount amount >>= λ _. host.charge_clone >>= λ _.
      check_clawbackable host.balance_host from >>= λ _. check_not_issuer from >>= λ _.
      as_admin (λ admin. host.charge_clone >>= λ _.
      spend_balance_no_authorization_check host.balance_host from amount >>= λ _.
      host.emit (clawed_back from amount))

  unfoldable pub set_authorized : Address → Bool → Exec S (Unit {0})
  unfolding as_admin write_authorization
  set_authorized addr authorize = as_admin (λ admin. host.charge_clone >>= λ _.
      write_authorization host.balance_host addr authorize >>= λ _.
      host.emit (authorization_set addr authorize))

  unfoldable pub mint : Address → ℤ → Exec S (Unit {0})
  unfolding check_nonnegative_amount check_not_issuer as_admin receive_balance
  mint to amount = check_nonnegative_amount amount >>= λ _. check_not_issuer to >>= λ _.
      as_admin (λ admin. host.charge_clone >>= λ _.
      receive_balance host.balance_host to amount >>= λ _. host.emit (minted to amount))

  unfoldable pub set_admin : Address → Exec S (Unit {0})
  unfolding as_admin write_administrator
  set_admin new_admin = as_admin (λ admin. host.charge_clone >>= λ _.
      write_administrator new_admin >>= λ _. host.emit (admin_set admin new_admin))
