-- ===== src/Asset/Contract/Consent.antt =====
-- Whose authorization the entry points of the Stellar asset contract ask for, and when.
pub mod Admin
pub mod Owner
pub mod Transfer
use rs_soroban_env.Prelude.{ℕ, Bool, Option}
use rs_soroban_env.Prelude.Int.{ℤ}
use rs_soroban_env.Errors.Exec.{Exec}
use rs_soroban_env.Storage.Ledger.{LedgerInfo}
use rs_soroban_env.Asset.Transfer.{MuxHost, MuxedAddress, transfer}
use rs_soroban_env.Asset.Contract.{
  ContractHost, approve, transfer_from, burn, burn_from, clawback, set_authorized, mint, set_admin,
}
use rs_soroban_env.Asset.Contract.Journal.{Journal, JournalLaws, TransferLaws}
use rs_soroban_env.Asset.Contract.Asked.{Asks}
use rs_soroban_env.Asset.Contract.Consent.Admin.{
  mint-Asks, clawback-Asks, set_authorized-Asks, set_admin-Asks,
}
use rs_soroban_env.Asset.Contract.Consent.Owner.{
  approve-Asks, transfer_from-Asks, burn-Asks, burn_from-Asks,
}
use rs_soroban_env.Asset.Contract.Consent.Transfer.{transfer-Asks}

module _ {S Address : Type 0} (li : LedgerInfo) (host : ContractHost S Address)
    (j : Journal S Address) (laws : JournalLaws host j) (mux_host : MuxHost S Address)
    (transfer_event : Address → Address → Option ℕ → ℤ → Exec S (Unit {0}))
    (transfer_laws : TransferLaws mux_host transfer_event j) where
  -- An entry point that succeeds asked for one authorization and was given it, before it wrote anything:
  -- that of the administrator who was on record at its start for a mint, a clawback and a change of an
  -- authorization or of the administrator; the owner's for a transfer, an approval and a burn; the
  -- spender's for a transfer and a burn from an allowance. The administrator on record stays,
  -- but for a change of the administrator, which puts the given one on record. The host records each
  -- authorization that it gives, its reads leave what is watched, and its writes leave the authorizations
  -- and, but for the one that sets it, the administrator.
  pub entry_points-Consent :
      (from spender to : Address) (to_mux : MuxedAddress Address) (amount : ℤ)
      (live_until_ledger : ℕ) (authorize : Bool) (s : S)
      → Asks j (j.admin s) (j.admin s) s (mint li host to amount s)
        × Asks j (j.admin s) (j.admin s) s (clawback li host from amount s)
        × Asks j (j.admin s) (j.admin s) s (set_authorized li host to authorize s)
        × Asks j (j.admin s) to s (set_admin li host to s)
        × Asks j from (j.admin s) s (
            transfer host.balance_host mux_host host.require_auth host.extend_instance
              transfer_event from to_mux amount s)
        × Asks j from (j.admin s) s (approve li host from spender amount live_until_ledger s)
        × Asks j from (j.admin s) s (burn li host from amount s)
        × Asks j spender (j.admin s) s (transfer_from li host spender from to amount s)
        × Asks j spender (j.admin s) s (burn_from li host spender from amount s)
  entry_points-Consent from spender to to_mux amount live authorize s = (
    mint-Asks li host j laws to amount s,
    clawback-Asks li host j laws from amount s,
    set_authorized-Asks li host j laws to authorize s,
    set_admin-Asks li host j laws to s,
    transfer-Asks li host j laws mux_host transfer_event transfer_laws from to_mux amount s,
    approve-Asks li host j laws from spender amount live s,
    burn-Asks li host j laws from amount s,
    transfer_from-Asks li host j laws from spender to amount s,
    burn_from-Asks li host j laws from spender amount s,
  )
