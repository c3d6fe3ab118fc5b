-- ===== src/Asset/Contract/Journal/Flags.antt =====
-- The authorization of holders and the check before a clawback, as with balances.
use rs_soroban_env.Prelude.{ℕ, ◌≡◌, Bool, true, false, Option, none, some}
use rs_soroban_env.Errors.Exec.{Exec, ◌>>=◌, throw}
use rs_soroban_env.Errors.Preserves.{
  Preserves, weaken, pure-Preserves, throw-Preserves, bind-Preserves, if-Preserves,
}
use rs_soroban_env.Asset.Classic.{balance_error, operation_not_supported_error}
use rs_soroban_env.Asset.Balance.{
  BalanceValue, Holder, account_id, contract_id, other_id, BalanceHost, unexpected_address,
  is_asset_auth_revocable, write_contract_balance,
}
use rs_soroban_env.Asset.Transfer.{
  balance_or_new, check_revocable, write_authorization, clawbackable_by_data, check_clawbackable,
}
use rs_soroban_env.Asset.Contract.Journal.Classic.{
  set_authorization-Preserves, check_account_clawbackable-Preserves,
}
use rs_soroban_env.Asset.Classic.Authorization.{set_authorization, check_account_clawbackable}
use rs_soroban_env.Asset.Contract.Journal.Allowance.{DataLaws}
use rs_soroban_env.Asset.Contract.Journal.Balance.{
  BalanceLaws, asset_flag-Preserves, write_contract_balance-Preserves, balance_or_new-Preserves,
}

module _ {S Address V W : Type 0} (host : BalanceHost S Address) (still : S → V) (seen : S → W)
    (coarser : (s t : S) → still s ≡ still t → seen s ≡ seen t)
    (laws : BalanceLaws host still seen) where
  by_holder-Preserves :
      {A U : Type 0} (view : S → U) (m : ℕ → Exec S A) (n o : Exec S A)
      → ((acc : ℕ) → Preserves view (m acc))
      → Preserves view n
      → Preserves view o
      → (holder : Holder)
      → Preserves view (elim holder [ account_id acc ↦ m acc | contract_id ↦ n | other_id ↦ o ])
  by_holder-Preserves view m n o p q r (account_id acc) = p acc
  by_holder-Preserves view m n o p q r contract_id = q
  by_holder-Preserves view m n o p q r other_id = r

  check_revocable-Preserves : (authorize : Bool) → Preserves still (check_revocable host authorize)
  unfolding check_revocable is_asset_auth_revocable
  check_revocable-Preserves true = pure-Preserves tt
  check_revocable-Preserves false =
      bind-Preserves _ _
        (asset_flag-Preserves host still seen coarser laws (λ flags. flags.revocable))
        (λ revocable.
          if-Preserves revocable _ _ (pure-Preserves tt)
            (throw-Preserves operation_not_supported_error))

  pub write_authorization-Preserves :
      (a : Address) (authorize : Bool) → Preserves seen (write_authorization host a authorize)
  unfolding write_authorization
  write_authorization-Preserves a authorize =
      bind-Preserves _ _ (weaken still seen coarser _ (check_revocable-Preserves authorize)) (λ _.
        bind-Preserves _ _ (weaken still seen coarser _ (laws.resolving a)) (
          by_holder-Preserves seen (λ acc. set_authorization host.classic acc authorize)
            (host.balances.charge_clone >>= λ _.
              host.balances.try_get_contract_data a >>= balance_or_new host authorize >>= λ balance.
              write_contract_balance host a (record balance { authorized = authorize }))
            (throw unexpected_address)
            (λ acc.
              set_authorization-Preserves host.classic still seen coarser laws.classic acc
                authorize)
            (bind-Preserves _ _ (weaken still seen coarser _ (DataLaws.cloning laws.balances)) (λ _.
              bind-Preserves _ _
                (weaken still seen coarser _ (
                  bind-Preserves _ _ (DataLaws.trying laws.balances a)
                    (balance_or_new-Preserves host still seen coarser laws authorize)))
                (λ balance.
                  write_contract_balance-Preserves host still seen coarser laws a
                    (record balance { authorized = authorize }))))
            (throw-Preserves unexpected_address)))

  clawbackable_by_data-Preserves :
      (found : Option BalanceValue) → Preserves still (clawbackable_by_data host found)
  unfolding clawbackable_by_data
  clawbackable_by_data-Preserves none = throw-Preserves balance_error
  clawbackable_by_data-Preserves (some balance) =
      if-Preserves balance.clawback _ _ (pure-Preserves tt) (throw-Preserves balance_error)

  pub check_clawbackable-Preserves : (a : Address) → Preserves still (check_clawbackable host a)
  unfolding check_clawbackable
  check_clawbackable-Preserves a = bind-Preserves _ _ (laws.resolving a) (
      by_holder-Preserves still (check_account_clawbackable host.classic)
        (host.balances.try_get_contract_data a >>= clawbackable_by_data host)
        (throw unexpected_address)
        (check_account_clawbackable-Preserves host.classic still seen coarser laws.classic)
        (bind-Preserves _ _ (DataLaws.trying laws.balances a) clawbackable_by_data-Preserves)
        (throw-Preserves unexpected_address))
