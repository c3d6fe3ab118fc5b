-- ===== src/Storage/Footprint.antt =====
-- `Footprint` of soroban-env-host/src/storage.rs, a `MeteredOrdMap` from keys to accesses.
pub mod Recorded
use rs_soroban_env.Prelude.{Option, none, some, List}
use rs_soroban_env.Errors.{error, ScErrorType, ScErrorCode, Error}
use rs_soroban_env.Errors.Exec.{Exec, ◌>>=◌, pure, throw}
use rs_soroban_env.OrdMap.Ops.{Context, get, insert}

pub data AccessType : Type 0 where
  read_only read_write : AccessType

abbrev pub footprint_exceeded : Error
footprint_exceeded = error ScErrorType.storage ScErrorCode.exceeded_limit

module _ {S K : Type 0} (ctx : Context S K AccessType) where
  -- The footprint after the access.
  unfoldable pub record_existing :
      List (K × AccessType) → K → AccessType → Option AccessType → Exec S (List (K × AccessType))
  unfolding insert
  record_existing footprint key read_only (some read_only) = pure footprint
  record_existing footprint key read_write (some read_only) = insert ctx footprint key read_write
  record_existing footprint key read_only (some read_write) = pure footprint
  record_existing footprint key read_write (some read_write) = pure footprint
  record_existing footprint key ty none = insert ctx footprint key ty

  unfoldable pub record_access :
      List (K × AccessType) → K → AccessType → Exec S (List (K × AccessType))
  unfolding get record_existing
  record_access footprint key ty = do
    existing ← get ctx footprint key
    record_existing footprint key ty existing

  unfoldable pub enforce_existing : AccessType → Option AccessType → Exec S (Unit {0})
  enforce_existing read_only (some read_only) = pure tt
  enforce_existing read_write (some read_only) = throw footprint_exceeded
  enforce_existing read_only (some read_write) = pure tt
  enforce_existing read_write (some read_write) = pure tt
  enforce_existing ty none = throw footprint_exceeded

  unfoldable pub enforce_access : List (K × AccessType) → K → AccessType → Exec S (Unit {0})
  unfolding get enforce_existing
  enforce_access footprint key ty = do
    existing ← get ctx footprint key
    enforce_existing ty existing
