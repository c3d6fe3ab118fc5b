-- ===== src/Asset/Contract/Journal.antt =====
-- What is watched while an entry point of the Stellar asset contract runs: the authorizations that were
-- asked for and given, each with the number of writes before it, the writes, and the administrator on record.
pub mod Classic
pub mod Allowance
pub mod Balance
pub mod Flags
use rs_soroban_env.Prelude.{ℕ, ◌≡◌, ap, Option, List, ◌∷◌}
use rs_soroban_env.Prelude.Int.{ℤ}
use rs_soroban_env.Errors.{ok}
use rs_soroban_env.Errors.Exec.{Exec}
use rs_soroban_env.Errors.Preserves.{Preserves}
use rs_soroban_env.Asset.Transfer.{MuxHost}
use rs_soroban_env.Asset.Contract.{ContractHost, Event}
use rs_soroban_env.Asset.Contract.Journal.Allowance.{DataLaws}
use rs_soroban_env.Asset.Contract.Journal.Balance.{BalanceLaws}

pub record Journal (S Address : Type 0) : Type 0 where
  pub asked : S → List (Address × ℕ)
  pub writes : S → ℕ
  pub admin : S → Address

module _ {S Address : Type 0} where
  -- All that is watched, and all but the number of writes.
  abbrev pub still : Journal S Address → S → ℕ × List (Address × ℕ) × Address
  still j s = (j.writes s, j.asked s, j.admin s)

  abbrev pub seen : Journal S Address → S → List (Address × ℕ) × Address
  seen j s = (j.asked s, j.admin s)

  pub coarser : (j : Journal S Address) (s t : S) → still j s ≡ still j t → seen j s ≡ seen j t
  coarser j s t h = ap (λ v. (v.1, v.2)) h

  -- Reading changes nothing that is watched. A write counts as one, and leaves the authorizations and the
  -- administrator, but for the one that sets the administrator. An authorization that is given is recorded.
  pub record JournalLaws (host : ContractHost S Address) (j : Journal S Address) : Type 0 where
    pub balances : BalanceLaws host.balance_host (still j) (seen j)
    pub allowances : DataLaws host.allowances (still j) (seen j)
    pub issuing : (n : ℕ) (a : Address) → Preserves (still j) (host.is_issuer n a)
    pub cloning : Preserves (still j) host.charge_clone
    pub reading_admin : Preserves (still j) host.get_admin
    pub admin_read : (a : Address) (s : S) → (host.get_admin s).0 ≡ ok a → a ≡ j.admin s
    pub extending : Preserves (seen j) host.extend_instance
    pub emitting : (event : Event Address) → Preserves (seen j) (host.emit event)
    pub asking :
        (a : Address) (s : S)
        → (host.require_auth a s).0 ≡ ok tt
        → seen j (host.require_auth a s).1 ≡ ((a, j.writes s) ∷ j.asked s, j.admin s)
    pub appointing :
        (a : Address) (s : S)
        → (host.put_admin a s).0 ≡ ok tt
        → seen j (host.put_admin a s).1 ≡ (j.asked s, a)

  -- Reading the parts of a muxed address, and the event of a transfer.
  pub record TransferLaws (mux_host : MuxHost S Address)
      (transfer_event : Address → Address → Option ℕ → ℤ → Exec S (Unit {0}))
      (j : Journal S Address) : Type 0 where
    pub addressing :
        (object : ℕ) → Preserves (still j) (mux_host.get_address_from_muxed_address object)
    pub numbering : (object : ℕ) → Preserves (seen j) (mux_host.get_id_from_muxed_address object)
    pub announcing :
        (from to : Address) (id : Option ℕ) (amount : ℤ)
        → Preserves (seen j) (transfer_event from to id amount)
