-- ===== src/Storage/Tests.antt =====
-- A small ledger and the theorems on it.
use rs_soroban_env.Prelude.{
  ℕ, ◌+◌, ◌-◌, ◌≤◌, ◌≡◌, refl, compare, Option, some, false, List, [], ◌∷◌, arith, ◌⊎◌, inl,
}
use rs_soroban_env.Prelude.Words.{u32_max}
use rs_soroban_env.Errors.{ok, err, is_ok}
use rs_soroban_env.Errors.Exec.{pure}
use rs_soroban_env.Errors.Computes.{Computes, pure-Computes}
use rs_soroban_env.OrdMap.Order.{IsSorted}
use rs_soroban_env.OrdMap.Order.Numbers.{by_number}
use rs_soroban_env.OrdMap.Ops.{Context}
use rs_soroban_env.OrdMap.Ops.Find.{Lawful}
use rs_soroban_env.Storage.Ledger.{LedgerEntryType, LedgerInfo, get_key_durability}
use rs_soroban_env.Storage.Ledger.ContractDataDurability.{persistent}
use rs_soroban_env.Storage.Footprint.{AccessType, footprint_exceeded, record_access, enforce_access}
use rs_soroban_env.Storage.Footprint.AccessType.{read_only, read_write}
use rs_soroban_env.Storage.Footprint.Recorded.{recorded, record_access_lem}
use rs_soroban_env.Storage.Access.{
  Storage, Host, EntryWithLiveUntil, put_opt, put, get, try_get_full,
}
use rs_soroban_env.Storage.Access.FootprintMode.{enforcing}
use rs_soroban_env.Storage.Access.Enforced.{put_opt-outside, try_get_full-outside}
use rs_soroban_env.Storage.Extend.{extended_live_until, extend_ttl}
use rs_soroban_env.Storage.Extend.Bounds.{extended_live_until_lem}

-- A context that charges nothing and counts the comparisons.
abbrev counting : (V : Type 0) → Context ℕ ℕ V
counting V = record {
  entry_size = 8;
  charge_mem_cpy = λ n. pure tt;
  charge_deep_clone = λ m. pure tt;
  metered_clone = pure;
  compare = λ a b comparisons. (ok (compare a b), comparisons + 1);
}

abbrev Any : ℕ → Type 0
Any s = Unit

counting-Lawful : (V : Type 0) → Lawful (counting V) by_number Any
counting-Lawful V = record {
  charging = λ n. pure-Computes Any tt;
  cloning = λ m. pure-Computes Any tt;
  copying = λ v. pure-Computes Any v;
  comparing = λ a b. record { outcome = λ s. inl refl; free = λ s h. (refl, tt) };
}

abbrev ledger : LedgerInfo
ledger = record {
  sequence_number = 100;
  min_temp_entry_ttl = 16;
  min_persistent_entry_ttl = 64;
  max_entry_ttl = 1000;
}

abbrev host : Host ℕ ℕ ℕ
host = record {
  footprint_ctx = counting AccessType;
  map_ctx = counting (Option (EntryWithLiveUntil ℕ));
  key_type = λ k. LedgerEntryType.contract_data persistent;
  entry_type = λ e. LedgerEntryType.contract_data persistent;
  ledger_info = ledger;
  recording_mode = false;
}

abbrev footprint : List (ℕ × AccessType)
footprint = (1, read_only) ∷ (3, read_write) ∷ []

footprint-IsSorted : IsSorted by_number footprint
footprint-IsSorted = ((refl, tt), (tt, tt))

abbrev storage : Storage ℕ ℕ ℕ
storage = record {
  footprint = footprint;
  mode = enforcing;
  map = (1, some (10, some 120)) ∷ (3, some (30, some 130)) ∷ [];
  host = 0;
}

read_within : (get host 1 storage).0 ≡ ok 10
unfolding get
read_within = refl

write_within :
    (put host 3 31 (some 130) storage).1.map
    ≡ (1, some (10, some 120)) ∷ (3, some (31, some 130)) ∷ []
unfolding put
write_within = refl

extend_within :
    (extend_ttl host 3 50 2000 storage).1.map
    ≡ (1, some (10, some 120)) ∷ (3, some (30, some 1099)) ∷ []
unfolding extend_ttl
extend_within = refl

record_access_lem_example :
    Computes Any
      (record_access (counting AccessType) footprint 2 read_only)
      (ok (recorded by_number footprint 2 read_only))
    × IsSorted by_number (recorded by_number footprint 2 read_only)
    × Computes Any
        (enforce_access
          (counting AccessType)
          (recorded by_number footprint 2 read_only)
          2
          read_write)
        (err footprint_exceeded)
record_access_lem_example =
    record_access_lem (counting AccessType) by_number Any (counting-Lawful AccessType) footprint 2
      read_only 2 read_write footprint-IsSorted (omega arith)

put_opt-outside_example :
    let out = put_opt host 1 (some (11, some 120)) storage in
    (is_ok out.0 ≡ false) × (out.1.map ≡ storage.map) × (out.1.footprint ≡ storage.footprint)
put_opt-outside_example =
    put_opt-outside host by_number Any (counting-Lawful AccessType) storage 1 (some (11, some 120))
      refl refl footprint-IsSorted refl

try_get_full-outside_example :
    let out = try_get_full host 2 storage in
    (is_ok out.0 ≡ false) × (out.1.map ≡ storage.map) × (out.1.footprint ≡ storage.footprint)
try_get_full-outside_example =
    try_get_full-outside host by_number Any (counting-Lawful AccessType) storage 2 refl
      footprint-IsSorted refl

clamped : extended_live_until ledger LedgerEntryType.contract_code (some 130) 2000 ≡ ok (130, 1099)
unfolding extended_live_until
clamped = refl

extended_live_until_lem_example :
    ◌≡◌ {A = Option ℕ} (some 130) (some 130)
    × (100 ≤ 130)
    × (1099 ≤ 100 + (1000 - 1))
    × (1099 ≤ u32_max)
    × ((1099 ≡ 100 + 2000)
        ⊎ ((get_key_durability LedgerEntryType.contract_code ≡ some persistent)
            × (1099 ≡ 100 + (1000 - 1))
            × (1099 ≤ 100 + 2000)))
extended_live_until_lem_example =
    extended_live_until_lem ledger LedgerEntryType.contract_code (some 130) 2000 130 1099 clamped
