-- ===== src/Asset/Contract/Steps.antt =====
-- What the steps of the entry points leave.
use rs_soroban_env.Prelude.Int.{ℤ, pos, ltb_ℤ}
use rs_soroban_env.Errors.Preserves.{
  Preserves, weaken, pure-Preserves, throw-Preserves, bind-Preserves, if-Preserves,
}
use rs_soroban_env.Storage.Ledger.{LedgerInfo}
use rs_soroban_env.Asset.Allowance.{spend_allowance}
use rs_soroban_env.Asset.Classic.{operation_not_supported_error}
use rs_soroban_env.Asset.Balance.{AssetInfo, native_info, issued_by, negative_amount_error}
use rs_soroban_env.Asset.Transfer.{check_nonnegative_amount, spend_balance, receive_balance}
use rs_soroban_env.Asset.Contract.{
  ContractHost, check_non_native, check_not_issuer, non_native, not_issuer,
}
use rs_soroban_env.Asset.Contract.Journal.{Journal, JournalLaws, still, seen, coarser}
use rs_soroban_env.Asset.Contract.Journal.Balance.{
  BalanceLaws, receive_balance-Preserves, spend_balance-Preserves,
}
use rs_soroban_env.Asset.Contract.Journal.Allowance.{spend_allowance-Preserves}

module _ {S Address : Type 0} (li : LedgerInfo) (host : ContractHost S Address)
    (j : Journal S Address) (laws : JournalLaws host j) where
  pub nonnegative-Preserves : (amount : ℤ) → Preserves (still j) (check_nonnegative_amount amount)
  unfolding check_nonnegative_amount
  nonnegative-Preserves amount =
      if-Preserves (ltb_ℤ amount (pos 0)) _ _ (throw-Preserves negative_amount_error)
        (pure-Preserves tt)

  non_native-Preserves : (info : AssetInfo) → Preserves (still j) (non_native li host info)
  unfolding non_native
  non_native-Preserves native_info = throw-Preserves operation_not_supported_error
  non_native-Preserves (issued_by issuer) = pure-Preserves tt

  pub check_non_native-Preserves : Preserves (still j) (check_non_native li host)
  unfolding check_non_native
  check_non_native-Preserves =
      bind-Preserves _ _ (BalanceLaws.reading_asset laws.balances) non_native-Preserves

  not_issuer-Preserves :
      (a : Address) (info : AssetInfo) → Preserves (still j) (not_issuer li host a info)
  unfolding not_issuer
  not_issuer-Preserves a native_info = pure-Preserves tt
  not_issuer-Preserves a (issued_by issuer) = bind-Preserves _ _ (laws.issuing issuer a) (λ same.
      if-Preserves same _ _ (throw-Preserves operation_not_supported_error) (pure-Preserves tt))

  pub check_not_issuer-Preserves : (a : Address) → Preserves (still j) (check_not_issuer li host a)
  unfolding check_not_issuer
  check_not_issuer-Preserves a =
      bind-Preserves _ _ (BalanceLaws.reading_asset laws.balances) (not_issuer-Preserves a)

  pub cloning-Preserves : Preserves (seen j) host.charge_clone
  cloning-Preserves = weaken (still j) (seen j) (coarser j) _ laws.cloning

  pub receiving :
      (a : Address) (amount : ℤ) → Preserves (seen j) (receive_balance host.balance_host a amount)
  receiving =
      receive_balance-Preserves host.balance_host (still j) (seen j) (coarser j) laws.balances

  pub spending :
      (a : Address) (amount : ℤ) → Preserves (seen j) (spend_balance host.balance_host a amount)
  spending = spend_balance-Preserves host.balance_host (still j) (seen j) (coarser j) laws.balances

  pub allowing :
      (from spender : Address) (amount : ℤ)
      → Preserves (seen j) (spend_allowance li host.allowances from spender amount)
  allowing =
      spend_allowance-Preserves li host.allowances (still j) (seen j) (coarser j) laws.allowances
