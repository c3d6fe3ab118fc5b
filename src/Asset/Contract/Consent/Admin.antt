-- ===== src/Asset/Contract/Consent/Admin.antt =====
-- The entry points of the administrator.
use rs_soroban_env.Prelude.{refl, ap, ◌∷◌, ◌∙◌, Bool}
use rs_soroban_env.Prelude.Int.{ℤ}
use rs_soroban_env.Errors.Exec.{◌>>=◌}
use rs_soroban_env.Errors.Kept.{after_any}
use rs_soroban_env.Errors.Preserves.{Preserves, bind-Preserves}
use rs_soroban_env.Storage.Ledger.{LedgerInfo}
use rs_soroban_env.Asset.Transfer.{
  check_nonnegative_amount, receive_balance, spend_balance_no_authorization_check,
  check_clawbackable, write_authorization,
}
use rs_soroban_env.Asset.Contract.{
  ContractHost, minted, clawed_back, authorization_set, admin_set, write_administrator, as_admin,
  clawback, set_authorized, mint, set_admin, check_not_issuer,
}
use rs_soroban_env.Asset.Contract.Journal.{Journal, JournalLaws, still, seen, coarser}
use rs_soroban_env.Asset.Contract.Journal.Balance.{spend_unchecked-Preserves}
use rs_soroban_env.Asset.Contract.Journal.Flags.{
  write_authorization-Preserves, check_clawbackable-Preserves,
}
use rs_soroban_env.Asset.Contract.Asked.{Asks, rest-Asks, check-Asks, step-Asks, as_admin-Asks}
use rs_soroban_env.Asset.Contract.Steps.{
  nonnegative-Preserves, check_not_issuer-Preserves, cloning-Preserves, receiving,
}

module _ {S Address : Type 0} (li : LedgerInfo) (host : ContractHost S Address)
    (j : Journal S Address) (laws : JournalLaws host j) where
  pub mint-Asks :
      (to : Address) (amount : ℤ) (s : S)
      → Asks j (j.admin s) (j.admin s) s (mint li host to amount s)
  unfolding mint
  mint-Asks to amount s =
      let owner = j.admin s in
      let rest = λ (admin : Address). host.charge_clone >>= λ _.
      receive_balance host.balance_host to amount >>= λ _. host.emit (minted to amount) in
      let rest_kept : (admin : Address) → Preserves (seen j) (rest admin) = λ admin.
        bind-Preserves _ _ (cloning-Preserves li host j laws) (λ _.
          bind-Preserves _ _ (receiving li host j laws to amount)
            (λ _. laws.emitting (minted to amount))) in
      check-Asks j owner owner s s (check_nonnegative_amount amount)
        (λ _. check_not_issuer li host to >>= λ _. as_admin li host rest)
        (nonnegative-Preserves li host j laws amount) refl
        (λ u s₁ h₁.
          check-Asks j owner owner s s₁ (check_not_issuer li host to) (λ _. as_admin li host rest)
            (check_not_issuer-Preserves li host j laws to) h₁
            (λ v s₂ h₂.
              as_admin-Asks j li host laws owner s s₂ rest h₂
                (λ admin t k. rest-Asks j owner owner s t (rest admin) (rest_kept admin) k)))

  pub clawback-Asks :
      (from : Address) (amount : ℤ) (s : S)
      → Asks j (j.admin s) (j.admin s) s (clawback li host from amount s)
  unfolding clawback
  clawback-Asks from amount s =
      let owner = j.admin s in
      let rest = λ (admin : Address). host.charge_clone >>= λ _.
      spend_balance_no_authorization_check host.balance_host from amount >>= λ _.
      host.emit (clawed_back from amount) in
      let rest_kept : (admin : Address) → Preserves (seen j) (rest admin) = λ admin.
        bind-Preserves _ _ (cloning-Preserves li host j laws) (λ _.
          bind-Preserves _ _
            (spend_unchecked-Preserves host.balance_host (still j) (seen j) (coarser j)
              laws.balances from amount)
            (λ _. laws.emitting (clawed_back from amount))) in
      let issuer_checked =
        λ (_ : Unit {0}). check_not_issuer li host from >>= λ _. as_admin li host rest in
      let checked =
        λ (_ : Unit {0}). check_clawbackable host.balance_host from >>= issuer_checked in
      check-Asks j owner owner s s (check_nonnegative_amount amount)
        (λ _. host.charge_clone >>= checked) (nonnegative-Preserves li host j laws amount) refl
        (λ _ s₁ h₁.
          check-Asks j owner owner s s₁ host.charge_clone checked laws.cloning h₁ (λ _ s₂ h₂.
            check-Asks j owner owner s s₂ (check_clawbackable host.balance_host from) issuer_checked
              (check_clawbackable-Preserves host.balance_host (still j) (seen j) (coarser j)
                laws.balances from)
              h₂
              (λ _ s₃ h₃.
                check-Asks j owner owner s s₃ (check_not_issuer li host from)
                  (λ _. as_admin li host rest) (check_not_issuer-Preserves li host j laws from) h₃
                  (λ _ s₄ h₄.
                    as_admin-Asks j li host laws owner s s₄ rest h₄ (λ admin t k.
                      rest-Asks j owner owner s t (rest admin) (rest_kept admin) k)))))

  pub set_authorized-Asks :
      (addr : Address) (authorize : Bool) (s : S)
      → Asks j (j.admin s) (j.admin s) s (set_authorized li host addr authorize s)
  unfolding set_authorized
  set_authorized-Asks addr authorize s =
      let owner = j.admin s in
      let rest = λ (admin : Address). host.charge_clone >>= λ _.
      write_authorization host.balance_host addr authorize >>= λ _.
      host.emit (authorization_set addr authorize) in
      let rest_kept : (admin : Address) → Preserves (seen j) (rest admin) = λ admin.
        bind-Preserves _ _ (cloning-Preserves li host j laws) (λ _.
          bind-Preserves _ _
            (write_authorization-Preserves host.balance_host (still j) (seen j) (coarser j)
              laws.balances addr authorize)
            (λ _. laws.emitting (authorization_set addr authorize))) in
      as_admin-Asks j li host laws owner s s rest refl
        (λ admin t k. rest-Asks j owner owner s t (rest admin) (rest_kept admin) k)

  -- The next administrator is the given one, and the authorization is the one of the last.
  pub set_admin-Asks :
      (new_admin : Address) (s : S) → Asks j (j.admin s) new_admin s (set_admin li host new_admin s)
  unfolding set_admin write_administrator
  set_admin-Asks new_admin s =
      let owner = j.admin s in
      let log = (owner, j.writes s) ∷ j.asked s in
      let announce = λ (admin : Address). host.emit (admin_set admin new_admin) in
      let rest = λ (admin : Address).
        host.charge_clone >>= λ _. host.put_admin new_admin >>= λ _. announce admin in
      as_admin-Asks j li host laws new_admin s s rest refl (λ admin t k.
        step-Asks j owner owner new_admin s t host.charge_clone
          (λ _. host.put_admin new_admin >>= λ _. announce admin) (cloning-Preserves li host j laws)
          k
          (λ _ t₁ k₁.
            after_any (Asks j owner new_admin s) (λ _. announce admin) (host.put_admin new_admin) t₁
              (λ e r. tt)
              (λ _ r.
                rest-Asks j owner new_admin s (host.put_admin new_admin t₁).1 (announce admin)
                  (laws.emitting (admin_set admin new_admin))
                  (laws.appointing new_admin t₁ r ∙ ap (λ v. (v.0, new_admin)) k₁))))
