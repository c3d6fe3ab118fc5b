-- ===== src/Asset/Contract/Journal/Classic.antt =====
-- The steps on accounts and trustlines: a check leaves the finer view of the state, and a change of a
-- balance or of a trustline's flags leaves the coarser one.
use rs_soroban_env.Prelude.{ℕ, ◌≡◌, ◌==◌, Bool, true, Option, none, some}
use rs_soroban_env.Prelude.Int.{ℤ}
use rs_soroban_env.Errors.{Error}
use rs_soroban_env.Errors.Exec.{Exec, pure, throw}
use rs_soroban_env.Errors.Preserves.{
  Preserves, steps, weaken, pure-Preserves, throw-Preserves, lift-Preserves, bind-Preserves,
  if-Preserves,
}
use rs_soroban_env.Asset.Classic.{
  Asset, native, credit_alphanum4, credit_alphanum12, TrustLineAsset, TrustLineEntry, account_entry,
  trustline, new_balance, get_min_max_account_balance, get_min_max_trustline_balance,
  LedgerEntryData, ClassicHost, read_entry, read_account_entry, read_trustline_entry,
  transfer_account_balance, transfer_trustline_balance, balance_error,
  operation_not_supported_error,
}
use rs_soroban_env.Asset.Classic.Authorization.{
  is_same_bool, authorized_flags, unless_issuer, by_asset, transfer_classic_balance,
  get_trustline_flags, is_trustline_authorized, is_account_authorized, put_flags,
  set_trustline_authorization, set_authorization, check_clawback_enabled,
  check_account_clawbackable,
}

-- Reading leaves the finer view, and writing the coarser one.
pub record ClassicLaws {S V W : Type 0} (host : ClassicHost S) (still : S → V) (seen : S → W)
    : Type 0 where
  pub reading_asset : Preserves still host.read_asset
  pub cloning : Preserves still host.charge_clone
  pub account_key : (acc : ℕ) → Preserves still (host.to_account_key acc)
  pub trustline_key : (acc : ℕ) (a : TrustLineAsset) → Preserves still (host.to_trustline_key acc a)
  pub trying : (k : ℕ) → Preserves still (host.try_get k)
  pub naming : (k : ℕ) → Preserves still (host.account_address_from_key k)
  pub charging : Preserves still host.charge_entry
  pub putting : (k : ℕ) (le : LedgerEntryData) → Preserves seen (host.put k le)

module _ {S V W : Type 0} (host : ClassicHost S) (still : S → V) (seen : S → W)
    (coarser : (s t : S) → still s ≡ still t → seen s ≡ seen t)
    (laws : ClassicLaws host still seen) where
  read_entry-Preserves :
      (missing : Error) (k : ℕ) (found : Option LedgerEntryData)
      → Preserves still (read_entry host missing k found)
  unfolding read_entry
  read_entry-Preserves missing k none = search (steps, laws.naming)
  read_entry-Preserves missing k (some le) = search (steps)

  read_account_entry-Preserves : (k : ℕ) → Preserves still (read_account_entry host k)
  unfolding read_account_entry
  read_account_entry-Preserves k = search (steps, laws.trying, read_entry-Preserves)

  read_trustline_entry-Preserves : (k : ℕ) → Preserves still (read_trustline_entry host k)
  unfolding read_trustline_entry
  read_trustline_entry-Preserves k = search (steps, laws.trying, read_entry-Preserves)

  transfer_account_balance-Preserves :
      (acc : ℕ) (amount : ℤ) → Preserves seen (transfer_account_balance host acc amount)
  unfolding transfer_account_balance
  transfer_account_balance-Preserves acc amount =
      bind-Preserves _ _ (weaken still seen coarser _ (laws.account_key acc)) (λ lk.
        bind-Preserves _ _ (weaken still seen coarser _ (read_account_entry-Preserves lk)) (λ ae.
          bind-Preserves _ _ (weaken still seen coarser _ laws.cloning) (λ _.
            bind-Preserves _ _
              (lift-Preserves (λ s.
                new_balance ae.balance amount
                  (get_min_max_account_balance (host.base_reserve s) ae)))
              (λ new.
                bind-Preserves _ _ (weaken still seen coarser _ laws.charging)
                  (λ _. laws.putting lk (account_entry (record ae { balance = new })))))))

  transfer_trustline_balance-Preserves :
      (acc : ℕ) (a : TrustLineAsset) (amount : ℤ)
      → Preserves seen (transfer_trustline_balance host acc a amount)
  unfolding transfer_trustline_balance
  transfer_trustline_balance-Preserves acc a amount =
      bind-Preserves _ _ (weaken still seen coarser _ (laws.trustline_key acc a)) (λ lk.
        bind-Preserves _ _ (weaken still seen coarser _ (read_trustline_entry-Preserves lk)) (λ tl.
          bind-Preserves _ _ (weaken still seen coarser _ laws.cloning) (λ _.
            bind-Preserves _ _
              (lift-Preserves
                (λ _. new_balance tl.balance amount (get_min_max_trustline_balance tl)))
              (λ new.
                bind-Preserves _ _ (weaken still seen coarser _ laws.charging)
                  (λ _. laws.putting lk (trustline (record tl { balance = new })))))))

  get_trustline_flags-Preserves :
      (acc : ℕ) (a : TrustLineAsset) → Preserves still (get_trustline_flags host acc a)
  unfolding get_trustline_flags
  get_trustline_flags-Preserves acc a =
      search (steps, laws.trustline_key, read_trustline_entry-Preserves)

  pub by_asset-Preserves :
      {A U : Type 0} (view : S → U) (acc : ℕ) (for_native for_issuer : Exec S A)
      (for_trustline : TrustLineAsset → Exec S A)
      → Preserves view host.charge_clone
      → Preserves view for_native
      → Preserves view for_issuer
      → ((a : TrustLineAsset) → Preserves view (for_trustline a))
      → (asset : Asset)
      → Preserves view (by_asset host acc for_native for_issuer for_trustline asset)
  unfolding by_asset unless_issuer
  by_asset-Preserves view acc m n f c p q r native = p
  by_asset-Preserves view acc m n f c p q r (credit_alphanum4 asset) =
      bind-Preserves _ _ c (λ _. if-Preserves (asset.issuer == acc) _ _ q (r _))
  by_asset-Preserves view acc m n f c p q r (credit_alphanum12 asset) =
      bind-Preserves _ _ c (λ _. if-Preserves (asset.issuer == acc) _ _ q (r _))

  pub transfer_classic_balance-Preserves :
      (acc : ℕ) (amount : ℤ) → Preserves seen (transfer_classic_balance host acc amount)
  unfolding transfer_classic_balance
  transfer_classic_balance-Preserves acc amount =
      bind-Preserves _ _ (weaken still seen coarser _ laws.reading_asset) (
        by_asset-Preserves seen acc (transfer_account_balance host acc amount) (pure tt)
          (λ asset. transfer_trustline_balance host acc asset amount)
          (weaken still seen coarser _ laws.cloning) (transfer_account_balance-Preserves acc amount)
          (pure-Preserves tt) (λ a. transfer_trustline_balance-Preserves acc a amount))

  is_trustline_authorized-Preserves :
      (acc : ℕ) (a : TrustLineAsset) → Preserves still (is_trustline_authorized host acc a)
  unfolding is_trustline_authorized
  is_trustline_authorized-Preserves acc a = search (steps, get_trustline_flags-Preserves)

  pub is_account_authorized-Preserves : (acc : ℕ) → Preserves still (is_account_authorized host acc)
  unfolding is_account_authorized
  is_account_authorized-Preserves acc = bind-Preserves _ _ laws.reading_asset (
      by_asset-Preserves still acc (pure true) (pure true)
        (λ asset. is_trustline_authorized host acc asset) laws.cloning (pure-Preserves true)
        (pure-Preserves true) (is_trustline_authorized-Preserves acc))

  put_flags-Preserves :
      (k : ℕ) (authorize : Bool) (tl : TrustLineEntry)
      → Preserves seen (put_flags host k authorize tl)
  unfolding put_flags
  put_flags-Preserves k authorize tl =
      if-Preserves (is_same_bool tl.flags.authorized authorize) _ _ (pure-Preserves tt) (
        bind-Preserves _ _ (weaken still seen coarser _ laws.charging) (λ _.
          laws.putting k (trustline (record tl { flags = authorized_flags tl.flags authorize }))))

  set_trustline_authorization-Preserves :
      (acc : ℕ) (a : TrustLineAsset) (authorize : Bool)
      → Preserves seen (set_trustline_authorization host acc a authorize)
  unfolding set_trustline_authorization
  set_trustline_authorization-Preserves acc a authorize =
      bind-Preserves _ _ (weaken still seen coarser _ (laws.trustline_key acc a)) (λ lk.
        bind-Preserves _ _ (weaken still seen coarser _ (read_trustline_entry-Preserves lk)) (λ tl.
          bind-Preserves _ _ (weaken still seen coarser _ laws.cloning)
            (λ _. put_flags-Preserves lk authorize tl)))

  pub set_authorization-Preserves :
      (acc : ℕ) (authorize : Bool) → Preserves seen (set_authorization host acc authorize)
  unfolding set_authorization
  set_authorization-Preserves acc authorize =
      let refused = throw-Preserves operation_not_supported_error in
      bind-Preserves _ _ (weaken still seen coarser _ laws.reading_asset) (
        by_asset-Preserves seen acc (throw operation_not_supported_error)
          (throw operation_not_supported_error)
          (λ asset. set_trustline_authorization host acc asset authorize)
          (weaken still seen coarser _ laws.cloning) refused refused
          (λ a. set_trustline_authorization-Preserves acc a authorize))

  check_clawback_enabled-Preserves :
      (acc : ℕ) (a : TrustLineAsset) → Preserves still (check_clawback_enabled host acc a)
  unfolding check_clawback_enabled
  check_clawback_enabled-Preserves acc a =
      bind-Preserves _ _ (get_trustline_flags-Preserves acc a) (λ flags.
        if-Preserves flags.clawback_enabled _ _ (pure-Preserves tt) (throw-Preserves balance_error))

  pub check_account_clawbackable-Preserves :
      (acc : ℕ) → Preserves still (check_account_clawbackable host acc)
  unfolding check_account_clawbackable
  check_account_clawbackable-Preserves acc =
      let refused = throw-Preserves operation_not_supported_error in
      bind-Preserves _ _ laws.reading_asset (
        by_asset-Preserves still acc (throw operation_not_supported_error)
          (throw operation_not_supported_error) (λ asset. check_clawback_enabled host acc asset)
          laws.cloning refused refused (check_clawback_enabled-Preserves acc))
