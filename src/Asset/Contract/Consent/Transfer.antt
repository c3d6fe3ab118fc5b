-- ===== src/Asset/Contract/Consent/Transfer.antt =====
-- The transfer of `Asset/Transfer`, on the host of the entry points.
use rs_soroban_env.Prelude.{ℕ, refl, Option, some, none}
use rs_soroban_env.Prelude.Int.{ℤ}
use rs_soroban_env.Errors.Exec.{Exec, ◌>>=◌}
use rs_soroban_env.Errors.Preserves.{Preserves, weaken, pure-Preserves, bind-Preserves}
use rs_soroban_env.Storage.Ledger.{LedgerInfo}
use rs_soroban_env.Asset.Transfer.{
  check_nonnegative_amount, spend_balance, receive_balance, MuxHost, MuxedAddress, plain, muxed,
  mux_address, mux_id, transfer,
}
use rs_soroban_env.Asset.Contract.{ContractHost}
use rs_soroban_env.Asset.Contract.Journal.{Journal, JournalLaws, TransferLaws, still, seen, coarser}
use rs_soroban_env.Asset.Contract.Journal.Balance.{BalanceLaws}
use rs_soroban_env.Asset.Contract.Journal.Allowance.{DataLaws}
use rs_soroban_env.Asset.Contract.Asked.{Asks, check-Asks, require_auth-Asks}
use rs_soroban_env.Asset.Contract.Steps.{nonnegative-Preserves, receiving, spending}

module _ {S Address : Type 0} (li : LedgerInfo) (host : ContractHost S Address)
    (j : Journal S Address) (laws : JournalLaws host j) (mux_host : MuxHost S Address)
    (transfer_event : Address → Address → Option ℕ → ℤ → Exec S (Unit {0}))
    (transfer_laws : TransferLaws mux_host transfer_event j) where
  mux_address-Preserves :
      (to_mux : MuxedAddress Address) → Preserves (still j) (mux_address mux_host to_mux)
  unfolding mux_address
  mux_address-Preserves (plain a) = pure-Preserves a
  mux_address-Preserves (muxed object) = transfer_laws.addressing object

  mux_id-Preserves : (to_mux : MuxedAddress Address) → Preserves (seen j) (mux_id mux_host to_mux)
  unfolding mux_id
  mux_id-Preserves (plain a) = pure-Preserves none
  mux_id-Preserves (muxed object) =
      bind-Preserves _ _ (transfer_laws.numbering object) (λ id. pure-Preserves (some id))

  pub transfer-Asks :
      (from : Address) (to_mux : MuxedAddress Address) (amount : ℤ) (s : S)
      → Asks j from (j.admin s) s (
          transfer host.balance_host mux_host host.require_auth host.extend_instance transfer_event
            from to_mux amount s)
  unfolding transfer
  transfer-Asks from to_mux amount s =
      let clone = host.balance_host.balances.charge_clone in
      let cloning =
        weaken (still j) (seen j) (coarser j) clone
          (DataLaws.cloning (BalanceLaws.balances laws.balances)) in
      let event = λ (to : Address) (id : Option ℕ). transfer_event from to id amount in
      let rest = λ (to : Address) (_ : Unit {0}). host.extend_instance >>= λ _. clone >>= λ _.
      spend_balance host.balance_host from amount >>= λ _. clone >>= λ _.
      receive_balance host.balance_host to amount >>= λ _. mux_id mux_host to_mux >>= event to in
      let asked = λ (to : Address). host.require_auth from >>= rest to in
      check-Asks j from (j.admin s) s s (check_nonnegative_amount amount)
        (λ _. mux_address mux_host to_mux >>= asked) (nonnegative-Preserves li host j laws amount)
        refl
        (λ _ s₁ h₁.
          check-Asks j from (j.admin s) s s₁ (mux_address mux_host to_mux) asked
            (mux_address-Preserves to_mux) h₁
            (λ to s₂ h₂. require_auth-Asks j li host laws from s s₂ (rest to) h₂ (λ _.
              bind-Preserves _ _ laws.extending (λ _. bind-Preserves _ _ cloning (λ _.
                bind-Preserves _ _ (spending li host j laws from amount) (λ _.
                  bind-Preserves _ _ cloning (λ _.
                    bind-Preserves _ _ (receiving li host j laws to amount) (λ _.
                      bind-Preserves (mux_id mux_host to_mux) (event to) (mux_id-Preserves to_mux)
                        (λ id. transfer_laws.announcing from to id amount)))))))))
