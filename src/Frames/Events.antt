-- ===== src/Frames/Events.antt =====
-- The events buffer of soroban-env-host/src/events/internal.rs. A host object is its handle's payload.
use rs_soroban_env.Prelude.{ℕ, zero, suc, Bool, if◌then◌else◌, Option, List, [], ◌∷◌, ◌++◌}
use rs_soroban_env.Errors.{ok, err}
use rs_soroban_env.Errors.Exec.{Exec}

pub record InternalContractEvent : Type 0 where
  pub type_ : ℕ
  pub contract_id : Option ℕ
  pub topics : ℕ
  pub data_ : ℕ

pub data InternalDiagnosticArg (ScVal : Type 0) : Type 0 where
  host_val : ℕ → InternalDiagnosticArg ScVal
  xdr_val : ScVal → InternalDiagnosticArg ScVal

pub record InternalDiagnosticEvent (ContractId ScVal : Type 0) : Type 0 where
  pub contract_id : Option ContractId
  pub topics : List (InternalDiagnosticArg ScVal)
  pub args : List (InternalDiagnosticArg ScVal)

pub data InternalEvent (ContractId ScVal : Type 0) : Type 0 where
  contract : InternalContractEvent → InternalEvent ContractId ScVal
  diagnostic : InternalDiagnosticEvent ContractId ScVal → InternalEvent ContractId ScVal

pub data EventError : Type 0 where
  from_failed_call from_successful_call : EventError

-- The buffer: events in their order, each with the state of the call that it is from.
abbrev pub InternalEventsBuffer : Type 0 → Type 0 → Type 0
InternalEventsBuffer ContractId ScVal = List (InternalEvent ContractId ScVal × EventError)

-- `rollback`: the events from an index on are marked as events of failed calls.
unfoldable pub rollback : {E : Type 0} → ℕ → List (E × EventError) → List (E × EventError)
rollback n [] = []
rollback zero ((e, _) ∷ vec) = (e, from_failed_call) ∷ rollback zero vec
rollback (suc events) (entry ∷ vec) = entry ∷ rollback events vec

-- What the buffer uses of the host: whether diagnostics are on, and the charge for a push, to the budget
-- or in shadow mode.
pub record EventHost (R : Type 0) : Type 0 where
  pub is_debug : R → Bool
  pub charge_push : Exec R (Unit {0})
  pub charge_push_shadow : Exec R (Unit {0})

module _ {ContractId ScVal R : Type 0} (host : EventHost R) where
  abbrev pub push_event :
      Exec R (Unit {0})
      → InternalEvent ContractId ScVal
      → Exec (InternalEventsBuffer ContractId ScVal × R) (Unit {0})
  push_event charge e (vec, r) =
      let (res, r') = charge r in
      elim res [
        | err failure ↦ (err failure, (vec, r'))
        | ok _ ↦ (ok tt, (vec ++ ((e, from_successful_call) ∷ []), r'))
      ]

  -- A diagnostic event is pushed in debug mode, which drops the error of a failed push.
  unfoldable pub record_event :
      InternalEvent ContractId ScVal → Exec (InternalEventsBuffer ContractId ScVal × R) (Unit {0})
  record_event (contract c) s = push_event host.charge_push (contract c) s
  record_event (diagnostic d) (vec, r) =
      let (_, s') = push_event host.charge_push_shadow (diagnostic d) (vec, r) in
      (ok tt, if host.is_debug r then s' else (vec, r))
