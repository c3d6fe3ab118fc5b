-- ===== src/Asset/Contract/Journal/Balance.antt =====
-- The steps on balances: a check leaves the finer view of the state, and what moves a balance leaves the
-- coarser one.
use rs_soroban_env.Prelude.{ℕ, ◌≡◌, Bool, true, false, not, Option, none, some}
use rs_soroban_env.Prelude.Int.{ℤ, pos, ◌-ℤ◌, ltb_ℤ}
use rs_soroban_env.Errors.{ok_or}
use rs_soroban_env.Errors.Exec.{Exec, ◌>>=◌}
use rs_soroban_env.Errors.Preserves.{
  Preserves, weaken, pure-Preserves, throw-Preserves, lift-Preserves, bind-Preserves, if-Preserves,
}
use rs_soroban_env.Asset.Allowance.{checked_sub_i128, overflow_error}
use rs_soroban_env.Asset.Classic.{wrap_i64, balance_error}
use rs_soroban_env.Asset.Balance.{
  BalanceValue, Holder, account_id, contract_id, other_id, BalanceHost, AssetInfo, native_info,
  issued_by, IssuerFlags, unexpected_address, deauthorized_error, is_flag_set,
  is_asset_auth_required, is_asset_clawback_enabled, extend_balance, write_contract_balance,
  authorized_by_data, authorized_of, is_authorized, check_authorized,
}
use rs_soroban_env.Asset.Transfer.{
  checked_add_i128, to_i64, balance_or_new, add_to_balance, receive, receive_balance,
  take_from_balance, spend, spend_balance_no_authorization_check, spend_balance,
}
use rs_soroban_env.Asset.Contract.Journal.Classic.{
  ClassicLaws, transfer_classic_balance-Preserves, is_account_authorized-Preserves,
}
use rs_soroban_env.Asset.Contract.Journal.Allowance.{DataLaws}

pub record BalanceLaws {S Address V W : Type 0} (host : BalanceHost S Address) (still : S → V)
    (seen : S → W) : Type 0 where
  pub classic : ClassicLaws host.classic still seen
  pub balances : DataLaws host.balances still seen
  pub resolving : (a : Address) → Preserves still (host.to_sc_address a)
  pub reading_asset : Preserves still host.read_asset_info
  pub loading_flags : (issuer : ℕ) → Preserves still (host.load_issuer_flags issuer)

module _ {S Address V W : Type 0} (host : BalanceHost S Address) (still : S → V) (seen : S → W)
    (coarser : (s t : S) → still s ≡ still t → seen s ≡ seen t)
    (laws : BalanceLaws host still seen) where
  is_flag_set-Preserves :
      (flag : IssuerFlags → Bool) (info : AssetInfo) → Preserves still (is_flag_set host flag info)
  unfolding is_flag_set
  is_flag_set-Preserves flag native_info = pure-Preserves false
  is_flag_set-Preserves flag (issued_by issuer) =
      bind-Preserves _ _ (laws.loading_flags issuer) (λ flags. pure-Preserves (flag flags))

  pub asset_flag-Preserves :
      (flag : IssuerFlags → Bool) → Preserves still (host.read_asset_info >>= is_flag_set host flag)
  asset_flag-Preserves flag = bind-Preserves _ _ laws.reading_asset (is_flag_set-Preserves flag)

  authorized_by_data-Preserves :
      (found : Option BalanceValue) → Preserves still (authorized_by_data host found)
  unfolding authorized_by_data is_asset_auth_required
  authorized_by_data-Preserves none =
      bind-Preserves _ _ (asset_flag-Preserves (λ flags. flags.required))
        (λ required. pure-Preserves (not required))
  authorized_by_data-Preserves (some balance) = pure-Preserves balance.authorized

  authorized_of-Preserves :
      (a : Address) (holder : Holder) → Preserves still (authorized_of host a holder)
  unfolding authorized_of
  authorized_of-Preserves a (account_id acc) =
      is_account_authorized-Preserves host.classic still seen coarser laws.classic acc
  authorized_of-Preserves a contract_id =
      bind-Preserves _ _ (DataLaws.trying laws.balances a) authorized_by_data-Preserves
  authorized_of-Preserves a other_id = throw-Preserves unexpected_address

  check_authorized-Preserves : (a : Address) → Preserves still (check_authorized host a)
  unfolding check_authorized is_authorized
  check_authorized-Preserves a = bind-Preserves _ _ (DataLaws.cloning laws.balances) (λ _.
      bind-Preserves _ _ (bind-Preserves _ _ (laws.resolving a) (authorized_of-Preserves a))
        (λ authorized.
          if-Preserves authorized _ _ (pure-Preserves tt) (throw-Preserves deauthorized_error)))

  pub write_contract_balance-Preserves :
      (a : Address) (balance : BalanceValue)
      → Preserves seen (write_contract_balance host a balance)
  unfolding write_contract_balance extend_balance
  write_contract_balance-Preserves a balance =
      bind-Preserves _ _ (DataLaws.putting laws.balances a balance)
        (λ _. DataLaws.extending laws.balances a _ _)

  pub balance_or_new-Preserves :
      (authorized : Bool) (found : Option BalanceValue)
      → Preserves still (balance_or_new host authorized found)
  unfolding balance_or_new is_asset_clawback_enabled
  balance_or_new-Preserves authorized none =
      bind-Preserves _ _ (asset_flag-Preserves (λ flags. flags.clawback_enabled))
        (λ clawback. pure-Preserves _)
  balance_or_new-Preserves authorized (some balance) = pure-Preserves balance

  found_or_new-Preserves :
      (a : Address) (authorized : Bool) (f : BalanceValue → Exec S (Unit {0}))
      → ((balance : BalanceValue) → Preserves seen (f balance))
      → Preserves seen (
          host.balances.charge_clone >>= λ _. host.balances.try_get_contract_data a >>= λ found.
          balance_or_new host authorized found >>= f)
  found_or_new-Preserves a authorized f p =
      bind-Preserves _ _ (weaken still seen coarser _ (DataLaws.cloning laws.balances)) (λ _.
        bind-Preserves _ _ (weaken still seen coarser _ (DataLaws.trying laws.balances a)) (λ found.
          bind-Preserves _ _
            (weaken still seen coarser _ (balance_or_new-Preserves authorized found)) p))

  add_to_balance-Preserves :
      (a : Address) (amount : ℤ) (balance : BalanceValue)
      → Preserves seen (add_to_balance host a amount balance)
  unfolding add_to_balance
  add_to_balance-Preserves a amount balance =
      bind-Preserves _ _
        (lift-Preserves (λ _. ok_or (checked_add_i128 balance.amount amount) overflow_error))
        (λ new. write_contract_balance-Preserves a (record balance { amount = new }))

  receive-Preserves :
      (a : Address) (amount : ℤ) (holder : Holder) → Preserves seen (receive host a amount holder)
  unfolding receive
  receive-Preserves a amount (account_id acc) =
      bind-Preserves _ _ (lift-Preserves (λ _. to_i64 amount))
        (transfer_classic_balance-Preserves host.classic still seen coarser laws.classic acc)
  receive-Preserves a amount contract_id =
      found_or_new-Preserves a true (add_to_balance host a amount)
        (add_to_balance-Preserves a amount)
  receive-Preserves a amount other_id = throw-Preserves unexpected_address

  pub receive_balance-Preserves :
      (a : Address) (amount : ℤ) → Preserves seen (receive_balance host a amount)
  unfolding receive_balance
  receive_balance-Preserves a amount =
      bind-Preserves _ _ (weaken still seen coarser _ (check_authorized-Preserves a)) (λ _.
        bind-Preserves _ _ (weaken still seen coarser _ (laws.resolving a))
          (receive-Preserves a amount))

  take_from_balance-Preserves :
      (a : Address) (amount : ℤ) (found : Option BalanceValue)
      → Preserves seen (take_from_balance host a amount found)
  unfolding take_from_balance
  take_from_balance-Preserves a amount none =
      if-Preserves (ltb_ℤ (pos 0) amount) _ _ (throw-Preserves balance_error) (pure-Preserves tt)
  take_from_balance-Preserves a amount (some balance) =
      if-Preserves (ltb_ℤ balance.amount amount) _ _ (throw-Preserves balance_error) (
        bind-Preserves _ _
          (lift-Preserves (λ _. ok_or (checked_sub_i128 balance.amount amount) overflow_error))
          (λ new. write_contract_balance-Preserves a (record balance { amount = new })))

  spend-Preserves :
      (a : Address) (amount : ℤ) (holder : Holder) → Preserves seen (spend host a amount holder)
  unfolding spend
  spend-Preserves a amount (account_id acc) =
      bind-Preserves _ _ (lift-Preserves (λ _. to_i64 amount)) (λ n.
        transfer_classic_balance-Preserves host.classic still seen coarser laws.classic acc
          (wrap_i64 (pos 0 -ℤ n)))
  spend-Preserves a amount contract_id =
      bind-Preserves _ _ (weaken still seen coarser _ (DataLaws.cloning laws.balances)) (λ _.
        bind-Preserves _ _ (weaken still seen coarser _ (DataLaws.trying laws.balances a))
          (take_from_balance-Preserves a amount))
  spend-Preserves a amount other_id = throw-Preserves unexpected_address

  pub spend_unchecked-Preserves :
      (a : Address) (amount : ℤ)
      → Preserves seen (spend_balance_no_authorization_check host a amount)
  unfolding spend_balance_no_authorization_check
  spend_unchecked-Preserves a amount =
      bind-Preserves _ _ (weaken still seen coarser _ (laws.resolving a)) (spend-Preserves a amount)

  pub spend_balance-Preserves :
      (a : Address) (amount : ℤ) → Preserves seen (spend_balance host a amount)
  unfolding spend_balance
  spend_balance-Preserves a amount =
      bind-Preserves _ _ (weaken still seen coarser _ (check_authorized-Preserves a))
        (λ _. spend_unchecked-Preserves a amount)
