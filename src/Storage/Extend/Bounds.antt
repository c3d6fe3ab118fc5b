-- ===== src/Storage/Extend/Bounds.antt =====
-- How long an extension lets an entry live.
use rs_soroban_env.Prelude.{
  ℕ, ◌+◌, ◌-◌, ◌≤◌, ◌≡◌, Option, none, some, ◌⊎◌, inl, inr, arith, Option-cases,
}
use rs_soroban_env.Prelude.Words.{u32_max, checked_add_u32}
use rs_soroban_env.Errors.{ok}
use rs_soroban_env.Storage.Ledger.{
  LedgerEntryType, LedgerInfo, max_live_until_ledger, max_live_until_ledger_checked,
  get_key_durability,
}
use rs_soroban_env.Storage.Ledger.ContractDataDurability.{temporary, persistent}
use rs_soroban_env.Storage.Extend.{clamp, extended_live_until}

-- If an extension gives an old and a new last ledger, the old one is the entry's own and not past,
-- and the new one is at most the network's maximum, which a `u32` holds; it is exactly the ledger
-- asked for, or the key is persistent and it is the maximum, below the ledger asked for.
pub extended_live_until_lem :
    (li : LedgerInfo) (key_type : LedgerEntryType) (old : Option ℕ) (extend_to before after : ℕ)
    → extended_live_until li key_type old extend_to ≡ ok (before, after)
    → (old ≡ some before)
      × (li.sequence_number ≤ before)
      × (after ≤ li.sequence_number + (li.max_entry_ttl - 1))
      × (after ≤ u32_max)
      × ((after ≡ li.sequence_number + extend_to)
          ⊎ ((get_key_durability key_type ≡ some persistent)
              × (after ≡ li.sequence_number + (li.max_entry_ttl - 1))
              × (after ≤ li.sequence_number + extend_to)))
unfolding extended_live_until clamp checked_add_u32 max_live_until_ledger
    max_live_until_ledger_checked
extended_live_until_lem li key_type none extend_to before after h = ground arith
extended_live_until_lem li key_type (some old) extend_to before after h =
    elim (Option-cases (get_key_durability key_type)) [
      | inl e ↦ ground (arith, e, h)
      | inr (persistent, e) ↦ ground (arith, e, h)
      | inr (temporary, e) ↦ ground (arith, e, h)
    ]
