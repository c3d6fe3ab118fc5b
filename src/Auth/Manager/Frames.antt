-- ===== src/Auth/Manager/Frames.antt =====
-- The frames of `AuthorizationManager` in soroban-env-host/src/auth.rs, in its enforcing mode: frames
-- pushed on the trackers, snapshots, and the pop that may roll back to one.
pub mod Held
use rs_soroban_env.Prelude.{
  ℕ, Bool, true, false, ltb, ◌==◌, if◌then◌else◌, Option, none, some, List, [], ◌∷◌, ◌++◌, length,
}
use rs_soroban_env.Errors.{Error, Result, ok, err}
use rs_soroban_env.Errors.Exec.{Exec, ◌>>=◌, ◌>>◌, pure}
use rs_soroban_env.Auth.Function.{AuthStackFrame, contract, create_contract_host_fn, AuthHost}
use rs_soroban_env.Auth.Invocation.{AuthorizedInvocationSnapshot, auth_internal}
use rs_soroban_env.Auth.Tracker.{InvocationTracker, snapshot_tracker, rollback_tracker}
use rs_soroban_env.Auth.Tracker
use rs_soroban_env.Auth.Account.{
  AccountAuthorizationTracker, AccountAuthorizationTrackerSnapshot, beside,
}
use rs_soroban_env.Auth.Account
use rs_soroban_env.Auth.Manager.{Cell, InvokerContractAuthorizationTracker, AuthorizationManager}

pub record AuthorizationManagerSnapshot : Type 0 where
  pub account_trackers_snapshot : List (Option AccountAuthorizationTrackerSnapshot)
  pub invoker_contract_tracker_root_snapshots : List AuthorizedInvocationSnapshot

-- The frames of the host, as authorization tells them apart: a contract with its function, or a host
-- function, for which there is no frame here.
pub data HostFrame : Type 0 where
  host_function : HostFrame
  contract_call : ℕ → ℕ → HostFrame

-- A step that an error stops, and then the steps for the others; with the charge of a bulk of entries
-- first, `metered_collect`.
abbrev pub collect_cons : {S A : Type 0} → Exec S A → Exec S (List A) → Exec S (List A)
collect_cons first others = first >>= λ a. others >>= λ l. pure (a ∷ l)

module _ {S CreateArgs : Type 0} (host : AuthHost S CreateArgs) where
  -- Cells that are borrowed are in the middle of authentication: they are skipped.
  unfoldable pub push_cells :
      List (Cell CreateArgs) → S → Result (Unit {0}) × (List (Cell CreateArgs) × S)
  unfolding Account.push_frame
  push_cells [] s = (ok tt, ([], s))
  push_cells (c ∷ cells) s =
      let next = push_cells cells in
      let (res, (tracker, s₁)) = Account.push_frame host (c.tracker, s) in
      if c.is_borrowed
      then (let (res', (cells', s₂)) = next s in (res', (c ∷ cells', s₂)))
      else elim res [
        | err e ↦ (err e, (record c { tracker = tracker } ∷ cells, s₁))
        | ok _ ↦
            let (res', (cells', s₂)) = next s₁ in
            (res', (record c { tracker = tracker } ∷ cells', s₂))
      ]

  unfoldable pub push_invokers :
      List (InvokerContractAuthorizationTracker CreateArgs)
      → S
      → Result (Unit {0}) × (List (InvokerContractAuthorizationTracker CreateArgs) × S)
  unfolding Tracker.push_frame
  push_invokers [] s = (ok tt, ([], s))
  push_invokers (t ∷ ts) s =
      let next = push_invokers ts in
      let (res, (tracker, s₁)) = Tracker.push_frame host (t.invocation_tracker, s) in
      elim res [
        | err e ↦ (err e, (record t { invocation_tracker = tracker } ∷ ts, s₁))
        | ok _ ↦
            let (res', (ts', s₂)) = next s₁ in
            (res', (record t { invocation_tracker = tracker } ∷ ts', s₂))
      ]

  unfoldable pub push_tracker_frame : Exec (AuthorizationManager CreateArgs × S) (Unit {0})
  unfolding push_cells push_invokers
  push_tracker_frame (m, s) =
      let (res, (cells, s₁)) = push_cells m.account_trackers s in
      let (res', (ts, s₂)) = push_invokers m.invoker_contract_trackers s₁ in
      let m' = record m { account_trackers = cells } in
      elim res [
        | err e ↦ (err e, (m', s₁))
        | ok _ ↦ (res', (record m' { invoker_contract_trackers = ts }, s₂))
      ]

  -- A frame on the call stack.
  unfoldable pub push_call :
      AuthStackFrame CreateArgs → Exec (AuthorizationManager CreateArgs × S) (Unit {0})
  push_call frame (m, s) = (ok tt, (record m { call_stack = m.call_stack ++ (frame ∷ []) }, s))

  unfoldable pub push_create_contract_host_fn_frame :
      CreateArgs → Exec (AuthorizationManager CreateArgs × S) (Unit {0})
  unfolding push_call push_tracker_frame
  push_create_contract_host_fn_frame args =
      beside host.charge_push >> push_call (create_contract_host_fn args) >> push_tracker_frame

  unfoldable pub snapshot_cells :
      List (Cell CreateArgs) → Exec S (List (Option AccountAuthorizationTrackerSnapshot))
  unfolding Account.snapshot
  snapshot_cells [] = pure []
  snapshot_cells (c ∷ cells) =
      let next = snapshot_cells cells in
      collect_cons
        (if c.is_borrowed
          then pure none
          else (Account.snapshot host c.tracker >>= λ snap. pure (some snap)))
        next

  unfoldable pub snapshot_invokers :
      List (InvokerContractAuthorizationTracker CreateArgs)
      → Exec S (List AuthorizedInvocationSnapshot)
  unfolding snapshot_tracker
  snapshot_invokers [] = pure []
  snapshot_invokers (t ∷ ts) =
      let next = snapshot_invokers ts in
      collect_cons
        (λ s. let (res, (_, s')) = snapshot_tracker host (t.invocation_tracker, s) in (res, s'))
        next

  unfoldable pub snapshot : AuthorizationManager CreateArgs → Exec S AuthorizationManagerSnapshot
  unfolding snapshot_cells snapshot_invokers
  snapshot m = host.charge_collect (length m.account_trackers) >>= λ _.
      snapshot_cells m.account_trackers >>= λ cells.
      host.charge_collect (length m.invoker_contract_trackers) >>= λ _.
      snapshot_invokers m.invoker_contract_trackers >>= λ invokers. pure (record {
        account_trackers_snapshot = cells;
        invoker_contract_tracker_root_snapshots = invokers;
      })

  -- `push_frame`, with `add_contract_address` the host's way to make an address object of a contract.
  unfoldable pub push_frame :
      (ℕ → Exec S ℕ)
      → HostFrame
      → Exec (AuthorizationManager CreateArgs × S) AuthorizationManagerSnapshot
  unfolding push_call push_tracker_frame snapshot
  push_frame add_contract_address host_function (m, s) = beside (snapshot m) (m, s)
  push_frame add_contract_address (contract_call id name) (m, s) =
      (beside host.charge_clone >>= λ _. beside (add_contract_address id) >>= λ address.
      beside host.charge_push >>= λ _.
      push_call (contract (record { contract_address = address; function_name = name })) >>= λ _.
      push_tracker_frame >>= λ _. λ (m', s'). beside (snapshot m') (m', s'))
        (m, s)
