-- ===== src/Asset/Classic/Authorization.antt =====
-- The asset of the contract, and the authorization of trustlines:
-- soroban-env-host/src/builtin_contracts/stellar_asset_contract/balance.rs.
use rs_soroban_env.Prelude.{ℕ, Bool, true, false, ◌==◌, if◌then◌else◌}
use rs_soroban_env.Prelude.Int.{ℤ, pos}
use rs_soroban_env.Prelude.Signed.{i64_top}
use rs_soroban_env.Errors.Exec.{Exec, ◌>>=◌, pure, throw}
use rs_soroban_env.Asset.Classic.{
  AlphaNum, Asset, native, credit_alphanum4, credit_alphanum12, TrustLineAsset, TrustLineFlags,
  TrustLineEntry, trustline, ClassicHost, operation_not_supported_error, balance_error,
  read_trustline_entry, transfer_account_balance, transfer_trustline_balance, get_account_balance,
  get_trustline_balance,
}

abbrev pub is_same_bool : Bool → Bool → Bool
is_same_bool true b = b
is_same_bool false true = false
is_same_bool false false = true

-- The flags of a trustline that is authorized, or is not any more but may keep its offers.
abbrev pub authorized_flags : TrustLineFlags → Bool → TrustLineFlags
authorized_flags flags true = record flags {
  authorized = true;
  authorized_to_maintain_liabilities = false;
}
authorized_flags flags false = record flags {
  authorized = false;
  authorized_to_maintain_liabilities = true;
}

module _ {S : Type 0} (host : ClassicHost S) where
  -- What is done for an asset with a trustline: something else for its issuer.
  unfoldable pub unless_issuer :
      {A : Type 0}
      → ℕ
      → Exec S A
      → (TrustLineAsset → Exec S A)
      → AlphaNum
      → TrustLineAsset
      → Exec S A
  unless_issuer account_id for_issuer for_trustline asset tlasset = host.charge_clone >>= λ _.
      if asset.issuer == account_id then for_issuer else for_trustline tlasset

  -- `match read_asset(e)?`.
  unfoldable pub by_asset :
      {A : Type 0} → ℕ → Exec S A → Exec S A → (TrustLineAsset → Exec S A) → Asset → Exec S A
  unfolding unless_issuer
  by_asset account_id for_native for_issuer for_trustline native = for_native
  by_asset account_id for_native for_issuer for_trustline (credit_alphanum4 asset) =
      unless_issuer account_id for_issuer for_trustline asset
        (TrustLineAsset.credit_alphanum4 asset)
  by_asset account_id for_native for_issuer for_trustline (credit_alphanum12 asset) =
      unless_issuer account_id for_issuer for_trustline asset
        (TrustLineAsset.credit_alphanum12 asset)

  unfoldable pub transfer_classic_balance : ℕ → ℤ → Exec S (Unit {0})
  unfolding by_asset transfer_account_balance transfer_trustline_balance
  transfer_classic_balance to amount =
      host.read_asset
      >>= by_asset to (transfer_account_balance host to amount) (pure tt)
          (λ asset. transfer_trustline_balance host to asset amount)

  -- An issuer has as much as there may be.
  unfoldable pub get_classic_balance : ℕ → Exec S ℤ
  unfolding by_asset get_account_balance get_trustline_balance
  get_classic_balance acct =
      host.read_asset
      >>= by_asset acct (get_account_balance host acct) (pure (pos i64_top))
          (λ asset. get_trustline_balance host acct asset)

  unfoldable pub get_trustline_flags : ℕ → TrustLineAsset → Exec S TrustLineFlags
  unfolding read_trustline_entry
  get_trustline_flags account_id asset =
      host.to_trustline_key account_id asset >>= read_trustline_entry host >>= λ tl. pure tl.flags

  unfoldable pub is_trustline_authorized : ℕ → TrustLineAsset → Exec S Bool
  unfolding get_trustline_flags
  is_trustline_authorized account_id asset =
      get_trustline_flags account_id asset >>= λ flags. pure flags.authorized

  unfoldable pub is_account_authorized : ℕ → Exec S Bool
  unfolding by_asset is_trustline_authorized
  is_account_authorized account_id =
      host.read_asset
      >>= by_asset account_id (pure true) (pure true)
          (λ asset. is_trustline_authorized account_id asset)

  unfoldable pub put_flags : ℕ → Bool → TrustLineEntry → Exec S (Unit {0})
  put_flags lk authorize tl =
      if is_same_bool tl.flags.authorized authorize
      then pure tt
      else (host.charge_entry >>= λ _.
          host.put lk (trustline (record tl { flags = authorized_flags tl.flags authorize })))

  unfoldable pub set_trustline_authorization : ℕ → TrustLineAsset → Bool → Exec S (Unit {0})
  unfolding read_trustline_entry put_flags
  set_trustline_authorization account_id asset authorize =
      host.to_trustline_key account_id asset >>= λ lk.
      read_trustline_entry host lk >>= λ tl. host.charge_clone >>= λ _. put_flags lk authorize tl

  unfoldable pub set_authorization : ℕ → Bool → Exec S (Unit {0})
  unfolding by_asset set_trustline_authorization
  set_authorization acct authorize =
      host.read_asset
      >>= by_asset acct (throw operation_not_supported_error) (throw operation_not_supported_error)
          (λ asset. set_trustline_authorization acct asset authorize)

  unfoldable pub check_clawback_enabled : ℕ → TrustLineAsset → Exec S (Unit {0})
  unfolding get_trustline_flags
  check_clawback_enabled account_id asset = get_trustline_flags account_id asset >>= λ flags.
      if flags.clawback_enabled then pure tt else throw balance_error

  -- An account's part of `check_clawbackable`.
  unfoldable pub check_account_clawbackable : ℕ → Exec S (Unit {0})
  unfolding by_asset check_clawback_enabled
  check_account_clawbackable account_id =
      host.read_asset
      >>= by_asset account_id (throw operation_not_supported_error)
          (throw operation_not_supported_error) (λ asset. check_clawback_enabled account_id asset)
