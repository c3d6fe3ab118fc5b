-- ===== src/Storage/Access.antt =====
-- `Storage` of soroban-env-host/src/storage.rs. `decorate_storage_error` leaves type and code of an
-- error as they are, so it is the identity here.
pub mod Enforced
use rs_soroban_env.Prelude.{
  ℕ, ◌-◌, Option, none, some, Bool, true, false, List, [], ltb, leb, if◌then◌else◌, ◌&&◌, not,
}
use rs_soroban_env.Prelude.Words.{checked_add_u32}
use rs_soroban_env.Errors.{Result, ok, err, error, ScErrorType, ScErrorCode, Error, ok_or}
use rs_soroban_env.Errors.Exec.{Exec, ◌>>=◌, ◌>>◌, pure, throw, lift, modify}
use rs_soroban_env.OrdMap.Ops
use rs_soroban_env.OrdMap.Ops.{Context}
use rs_soroban_env.Storage.Ledger.{
  LedgerEntryType, LedgerInfo, ContractDataDurability, min_live_until_ledger_checked,
  max_live_until_ledger, get_key_durability, check_supported_ledger_type,
}
use rs_soroban_env.Storage.Ledger.ContractDataDurability.{temporary, persistent}
use rs_soroban_env.Storage.Footprint.{AccessType, record_access, enforce_access}
use rs_soroban_env.Storage.Footprint.AccessType.{read_only, read_write}

abbrev pub internal_error : Error
internal_error = error ScErrorType.storage ScErrorCode.internal_error

abbrev pub missing_value : Error
missing_value = error ScErrorType.storage ScErrorCode.missing_value

-- `EntryWithLiveUntil`.
abbrev pub EntryWithLiveUntil : Type 0 → Type 0
EntryWithLiveUntil E = E × Option ℕ

-- A recording mode holds its snapshot source, by the source's `get`.
pub data FootprintMode (K E : Type 0) : Type 0 where
  recording : (K → Result (Option (EntryWithLiveUntil E))) → FootprintMode K E
  enforcing : FootprintMode K E

-- `Storage`, and the host's state `S` with the budget, which the operations take beside it.
pub record Storage (S K E : Type 0) : Type 0 where
  pub footprint : List (K × AccessType)
  pub mode : FootprintMode K E
  pub map : List (K × Option (EntryWithLiveUntil E))
  pub host : S

-- What the operations use of the host, of XDR and of the build: `recording_mode` is the feature.
pub record Host (S K E : Type 0) : Type 0 where
  pub footprint_ctx : Context S K AccessType
  pub map_ctx : Context S K (Option (EntryWithLiveUntil E))
  pub key_type : K → LedgerEntryType
  pub entry_type : E → LedgerEntryType
  pub ledger_info : LedgerInfo
  pub recording_mode : Bool

-- `Storage::with_recording_footprint`.
unfoldable pub with_recording_footprint :
    {S K E : Type 0} → (K → Result (Option (EntryWithLiveUntil E))) → S → Storage S K E
with_recording_footprint src host = record {
  footprint = [];
  mode = recording src;
  map = [];
  host = host;
}

-- `Storage::with_enforcing_footprint_and_map`.
unfoldable pub with_enforcing_footprint_and_map :
    {S K E : Type 0}
    → List (K × AccessType)
    → List (K × Option (EntryWithLiveUntil E))
    → S
    → Storage S K E
with_enforcing_footprint_and_map footprint map host = record {
  footprint = footprint;
  mode = enforcing;
  map = map;
  host = host;
}

module _ {S K E : Type 0} (h : Host S K E) where
  -- A step on the host's state.
  abbrev pub on_host : {A : Type 0} → Exec S A → Exec (Storage S K E) A
  on_host step s = let (r, host) = step s.host in (r, record s { host = host })

  unfoldable pub record_in_footprint : K → AccessType → Exec (Storage S K E) (Unit {0})
  unfolding record_access
  record_in_footprint key ty s =
      (on_host (record_access h.footprint_ctx s.footprint key ty) >>= λ footprint.
      modify λ s'. record s' { footprint = footprint })
        s

  unfoldable pub enforce_in_footprint : K → AccessType → Exec (Storage S K E) (Unit {0})
  unfolding enforce_access
  enforce_in_footprint key ty s = on_host (enforce_access h.footprint_ctx s.footprint key ty) s

  unfoldable pub map_get : K → Exec (Storage S K E) (Option (Option (EntryWithLiveUntil E)))
  unfolding Ops.get
  map_get key s = on_host (Ops.get h.map_ctx s.map key) s

  unfoldable pub map_insert : K → Option (EntryWithLiveUntil E) → Exec (Storage S K E) (Unit {0})
  unfolding Ops.insert
  map_insert key val s =
      (on_host (Ops.insert h.map_ctx s.map key val) >>= λ map. modify λ s'. record s' { map = map })
        s

  unfoldable pub restore : K → E → Exec (Storage S K E) (Unit {0})
  unfolding record_in_footprint map_insert min_live_until_ledger_checked
  restore key entry = do
    record_in_footprint key read_write
    new_live_until ←
        lift λ _. ok_or (min_live_until_ledger_checked h.ledger_info persistent) internal_error
    map_insert key (some (entry, some new_live_until))

  -- An entry whose TTL has passed: a temporary one is gone, a persistent one is restored.
  unfoldable pub expire :
      K → E → Option ℕ → ContractDataDurability → Exec (Storage S K E) (Unit {0})
  unfolding restore map_insert
  expire key entry none durability = throw internal_error
  expire key entry (some live_until) temporary =
      if ltb live_until h.ledger_info.sequence_number then map_insert key none else pure tt
  expire key entry (some live_until) persistent =
      if ltb live_until h.ledger_info.sequence_number then (restore key entry) else pure tt

  unfoldable pub handle_found :
      K → Option (Option (EntryWithLiveUntil E)) → Exec (Storage S K E) (Unit {0})
  unfolding expire get_key_durability
  handle_found key (some (some (entry, live_until))) = elim (get_key_durability (h.key_type key)) [
    | none ↦ pure tt
    | some durability ↦ expire key entry live_until durability
  ]
  handle_found key (some none) = pure tt
  handle_found key none = pure tt

  unfoldable pub handle_maybe_expired_entry : K → Exec (Storage S K E) (Unit {0})
  unfolding map_get handle_found
  handle_maybe_expired_entry key = do found ← map_get key; handle_found key found

  -- The calls under `#[cfg(feature = "recording_mode")]`.
  abbrev pub if_recording_mode : Exec (Storage S K E) (Unit {0}) → Exec (Storage S K E) (Unit {0})
  if_recording_mode step = if h.recording_mode then step else pure tt

  -- The read through to the snapshot.
  unfoldable pub load : K → Result (Option (EntryWithLiveUntil E)) → Exec (Storage S K E) (Unit {0})
  unfolding Ops.contains_key map_insert
  load key value s =
      (on_host (Ops.contains_key h.map_ctx s.map key) >>= λ present.
      if present then pure tt else ((lift λ _. value) >>= λ v. map_insert key v))
        s

  unfoldable pub prepare_read_only_access : K → Exec (Storage S K E) (Unit {0})
  unfolding record_in_footprint enforce_in_footprint load handle_maybe_expired_entry
  prepare_read_only_access key s = elim s.mode [
    | recording get ↦
        (record_in_footprint key read_only
            >> load key (get key)
            >> record_in_footprint key read_only
            >> handle_maybe_expired_entry key)
          s
    | enforcing ↦ enforce_in_footprint key read_only s
  ]

  -- `try_get_full_helper`, and `try_get_full`.
  unfoldable pub try_get_full : K → Exec (Storage S K E) (Option (EntryWithLiveUntil E))
  unfolding check_supported_ledger_type prepare_read_only_access map_get
  try_get_full key = do
    lift λ _. check_supported_ledger_type (h.key_type key)
    prepare_read_only_access key
    found ← map_get key
    lift λ _. ok_or found internal_error

  unfoldable pub get_with_live_until_ledger : K → Exec (Storage S K E) (EntryWithLiveUntil E)
  unfolding try_get_full
  get_with_live_until_ledger key = do found ← try_get_full key; lift λ _. ok_or found missing_value

  unfoldable pub get : K → Exec (Storage S K E) E
  unfolding try_get_full
  get key = do found ← try_get_full key; pair ← lift λ _. ok_or found missing_value; pure pair.0

  unfoldable pub has : K → Exec (Storage S K E) Bool
  unfolding try_get_full
  has key = do found ← try_get_full key; pure (elim found [ none ↦ false | some _ ↦ true ])

  unfoldable pub check_entry : Option (EntryWithLiveUntil E) → Result (Unit {0})
  unfolding check_supported_ledger_type
  check_entry none = ok tt
  check_entry (some le) = check_supported_ledger_type (h.entry_type le.0)

  unfoldable pub access_for_write : K → Exec (Storage S K E) (Unit {0})
  unfolding record_in_footprint enforce_in_footprint
  access_for_write key s = elim s.mode [
    | recording _ ↦ record_in_footprint key read_write s
    | enforcing ↦ enforce_in_footprint key read_write s
  ]

  -- `put_opt_helper`, and `put_opt`.
  unfoldable pub put_opt : K → Option (EntryWithLiveUntil E) → Exec (Storage S K E) (Unit {0})
  unfolding check_supported_ledger_type check_entry handle_maybe_expired_entry access_for_write
      map_insert
  put_opt key val = do
    lift λ _. check_supported_ledger_type (h.key_type key)
    lift λ _. check_entry val
    if_recording_mode (handle_maybe_expired_entry key)
    access_for_write key
    map_insert key val

  unfoldable pub put : K → E → Option ℕ → Exec (Storage S K E) (Unit {0})
  unfolding put_opt
  put key val live_until_ledger = put_opt key (some (val, live_until_ledger))

  unfoldable pub del : K → Exec (Storage S K E) (Unit {0})
  unfolding put_opt
  del key = put_opt key none

  unfoldable pub try_get : K → Exec (Storage S K E) (Option E)
  unfolding try_get_full
  try_get key = do
    found ← try_get_full key
    pure (elim found [ none ↦ none | some pair ↦ some pair.0 ])

  -- Whether a snapshot value is live.
  unfoldable pub is_live : Option (EntryWithLiveUntil E) → Bool
  is_live none = false
  is_live (some (_, none)) = true
  is_live (some (_, some live_until)) = leb h.ledger_info.sequence_number live_until

  unfoldable pub is_key_live_in_snapshot : K → Storage S K E → Result Bool
  unfolding is_live
  is_key_live_in_snapshot key s = elim s.mode [
    | recording snapshot ↦ elim (snapshot key) [
      | err e ↦ err e
      | ok snapshot_value ↦ ok (is_live snapshot_value)
    ]
    | enforcing ↦ err internal_error
  ]
