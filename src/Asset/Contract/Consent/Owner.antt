-- ===== src/Asset/Contract/Consent/Owner.antt =====
-- The entry points of owners and spenders.
use rs_soroban_env.Prelude.{ℕ, refl}
use rs_soroban_env.Prelude.Int.{ℤ}
use rs_soroban_env.Errors.Exec.{Exec, ◌>>=◌}
use rs_soroban_env.Errors.Preserves.{Preserves, bind-Preserves}
use rs_soroban_env.Storage.Ledger.{LedgerInfo}
use rs_soroban_env.Asset.Allowance.{spend_allowance, write_allowance}
use rs_soroban_env.Asset.Transfer.{check_nonnegative_amount, spend_balance, receive_balance}
use rs_soroban_env.Asset.Contract.{
  ContractHost, approved, moved, burnt, approve, transfer_from, burn, burn_from, check_non_native,
  check_not_issuer,
}
use rs_soroban_env.Asset.Contract.Journal.{Journal, JournalLaws, still, seen, coarser}
use rs_soroban_env.Asset.Contract.Journal.Allowance.{write_allowance-Preserves}
use rs_soroban_env.Asset.Contract.Asked.{Asks, check-Asks, require_auth-Asks}
use rs_soroban_env.Asset.Contract.Steps.{
  nonnegative-Preserves, check_non_native-Preserves, check_not_issuer-Preserves, cloning-Preserves,
  receiving, spending, allowing,
}

module _ {S Address : Type 0} (li : LedgerInfo) (host : ContractHost S Address)
    (j : Journal S Address) (laws : JournalLaws host j) where
  pub approve-Asks :
      (from spender : Address) (amount : ℤ) (live_until_ledger : ℕ) (s : S)
      → Asks j from (j.admin s) s (approve li host from spender amount live_until_ledger s)
  unfolding approve
  approve-Asks from spender amount live s =
      let rest = λ (_ : Unit {0}). host.extend_instance >>= λ _. host.charge_clone >>= λ _.
      host.charge_clone >>= λ _.
      write_allowance li host.allowances from spender amount live >>= λ _.
      host.emit (approved from spender amount live) in
      check-Asks j from (j.admin s) s s (check_nonnegative_amount amount)
        (λ _. host.require_auth from >>= rest) (nonnegative-Preserves li host j laws amount) refl
        (λ _ s₁ h₁. require_auth-Asks j li host laws from s s₁ rest h₁ (λ _.
          bind-Preserves _ _ laws.extending (λ _.
            bind-Preserves _ _ (cloning-Preserves li host j laws) (λ _.
              bind-Preserves _ _ (cloning-Preserves li host j laws) (λ _.
                bind-Preserves _ _
                  (write_allowance-Preserves li host.allowances (still j) (seen j) (coarser j)
                    laws.allowances from spender amount live)
                  (λ _. laws.emitting (approved from spender amount live)))))))

  -- A balance is spent, another one given, and the event sent.
  moving :
      (from to : Address) (amount : ℤ)
      → Preserves (seen j) (
          host.charge_clone >>= λ _. spend_balance host.balance_host from amount >>= λ _.
          host.charge_clone >>= λ _.
          receive_balance host.balance_host to amount >>= λ _. host.emit (moved from to amount))
  moving from to amount = bind-Preserves _ _ (cloning-Preserves li host j laws) (λ _.
      bind-Preserves _ _ (spending li host j laws from amount) (λ _.
        bind-Preserves _ _ (cloning-Preserves li host j laws) (λ _.
          bind-Preserves _ _ (receiving li host j laws to amount)
            (λ _. laws.emitting (moved from to amount)))))

  burning :
      (from : Address) (amount : ℤ)
      → Preserves (seen j) (
          host.charge_clone >>= λ _.
          spend_balance host.balance_host from amount >>= λ _. host.emit (burnt from amount))
  burning from amount = bind-Preserves _ _ (cloning-Preserves li host j laws) (λ _.
      bind-Preserves _ _ (spending li host j laws from amount)
        (λ _. laws.emitting (burnt from amount)))

  pub transfer_from-Asks :
      (from spender to : Address) (amount : ℤ) (s : S)
      → Asks j spender (j.admin s) s (transfer_from li host spender from to amount s)
  unfolding transfer_from
  transfer_from-Asks from spender to amount s =
      let rest = λ (_ : Unit {0}). host.extend_instance >>= λ _. host.charge_clone >>= λ _.
      spend_allowance li host.allowances from spender amount >>= λ _. host.charge_clone >>= λ _.
      spend_balance host.balance_host from amount >>= λ _. host.charge_clone >>= λ _.
      receive_balance host.balance_host to amount >>= λ _. host.emit (moved from to amount) in
      check-Asks j spender (j.admin s) s s (check_nonnegative_amount amount)
        (λ _. host.require_auth spender >>= rest) (nonnegative-Preserves li host j laws amount) refl
        (λ _ s₁ h₁. require_auth-Asks j li host laws spender s s₁ rest h₁ (λ _.
          bind-Preserves _ _ laws.extending (λ _.
            bind-Preserves _ _ (cloning-Preserves li host j laws) (λ _.
              bind-Preserves _ _ (allowing li host j laws from spender amount)
                (λ _. moving from to amount)))))

  -- What is burnt, after the checks: of the owner, and of an allowance.
  before_burn :
      (a from : Address) (amount : ℤ) (s : S) (rest : Unit {0} → Exec S (Unit {0}))
      → ((u : Unit {0}) → Preserves (seen j) (rest u))
      → Asks j a (j.admin s) s (
          (check_nonnegative_amount amount >>= λ _. check_non_native li host >>= λ _.
          check_not_issuer li host from >>= λ _. host.require_auth a >>= rest)
            s)
  before_burn a from amount s rest p =
      let asked = host.require_auth a >>= rest in
      let checked = check_not_issuer li host from >>= λ _. asked in
      check-Asks j a (j.admin s) s s (check_nonnegative_amount amount)
        (λ _. check_non_native li host >>= λ _. checked)
        (nonnegative-Preserves li host j laws amount) refl
        (λ _ s₁ h₁.
          check-Asks j a (j.admin s) s s₁ (check_non_native li host) (λ _. checked)
            (check_non_native-Preserves li host j laws) h₁
            (λ _ s₂ h₂.
              check-Asks j a (j.admin s) s s₂ (check_not_issuer li host from) (λ _. asked)
                (check_not_issuer-Preserves li host j laws from) h₂
                (λ _ s₃ h₃. require_auth-Asks j li host laws a s s₃ rest h₃ p)))

  pub burn-Asks :
      (from : Address) (amount : ℤ) (s : S) → Asks j from (j.admin s) s (burn li host from amount s)
  unfolding burn
  burn-Asks from amount s =
      before_burn from from amount s
        (λ _. host.extend_instance >>= λ _. host.charge_clone >>= λ _.
          spend_balance host.balance_host from amount >>= λ _. host.emit (burnt from amount))
        (λ _. bind-Preserves _ _ laws.extending (λ _. burning from amount))

  pub burn_from-Asks :
      (from spender : Address) (amount : ℤ) (s : S)
      → Asks j spender (j.admin s) s (burn_from li host spender from amount s)
  unfolding burn_from
  burn_from-Asks from spender amount s =
      before_burn spender from amount s
        (λ _. host.extend_instance >>= λ _. host.charge_clone >>= λ _.
          spend_allowance li host.allowances from spender amount >>= λ _. host.charge_clone >>= λ _.
          spend_balance host.balance_host from amount >>= λ _. host.emit (burnt from amount))
        (λ _. bind-Preserves _ _ laws.extending (λ _.
          bind-Preserves _ _ (cloning-Preserves li host j laws) (λ _.
            bind-Preserves _ _ (allowing li host j laws from spender amount)
              (λ _. burning from amount))))
