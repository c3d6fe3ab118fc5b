-- ===== src/Auth/Manager.antt =====
-- `AuthorizationManager` of soroban-env-host/src/auth.rs, in its enforcing mode: the call stack, the
-- trackers of accounts, and the trackers of contracts that authorized calls further down. The call stack
-- has its top last, as in the source. A `RefCell` is its content and whether it is mutably borrowed.
pub mod Authorized
pub mod Frames
pub mod Pop
use rs_soroban_env.Prelude.{
  ℕ, zero, suc, Bool, true, false, ◌&&◌, not, if◌then◌else◌, Option, none, some, List, [], ◌∷◌,
  ◌++◌, length, get_elem?, set, Ordering,
}
use rs_soroban_env.Errors.{Error, Result, ok, err}
use rs_soroban_env.Errors.Exec.{Exec, ◌>>=◌, ◌>>◌, pure, throw}
use rs_soroban_env.Auth.Function.{
  AuthStackFrame, contract, create_contract_host_fn, AuthorizedFunction, AuthHost, is_eq,
  to_authorized_function,
}
use rs_soroban_env.Auth.Invocation.{auth_internal}
use rs_soroban_env.Auth.Tracker.{InvocationTracker, if_equal, maybe_extend_invocation_match}
use rs_soroban_env.Auth.Tracker
use rs_soroban_env.Auth.Account.{
  AccountAuthorizationTracker, AccountHost, auth_invalid_action, beside, maybe_authorize_invocation,
}
use rs_soroban_env.Auth.Account

pub record Cell (CreateArgs : Type 0) : Type 0 where
  pub tracker : AccountAuthorizationTracker CreateArgs
  pub is_borrowed : Bool

pub record InvokerContractAuthorizationTracker (CreateArgs : Type 0) : Type 0 where
  pub contract_address : ℕ
  pub invocation_tracker : InvocationTracker CreateArgs

pub record AuthorizationManager (CreateArgs : Type 0) : Type 0 where
  pub call_stack : List (AuthStackFrame CreateArgs)
  pub account_trackers : List (Cell CreateArgs)
  pub invoker_contract_trackers : List (InvokerContractAuthorizationTracker CreateArgs)

unfoldable pub new_enforcing_without_authorizations :
    {CreateArgs : Type 0} → AuthorizationManager CreateArgs
new_enforcing_without_authorizations = record {
  call_stack = [];
  account_trackers = [];
  invoker_contract_trackers = [];
}

-- The top of the call stack, and the frame below it.
abbrev pub last_frame : {F : Type 0} → List F → Option F
last_frame [] = none
last_frame (f ∷ []) = some f
last_frame (f ∷ g ∷ fs) = last_frame (g ∷ fs)

abbrev pub invoker_frame : {F : Type 0} → List F → Option F
invoker_frame [] = none
invoker_frame (f ∷ []) = none
invoker_frame (f ∷ g ∷ []) = some f
invoker_frame (f ∷ g ∷ h ∷ fs) = invoker_frame (g ∷ h ∷ fs)

-- Whether the tracker is in use higher up and free for the current frame.
unfoldable pub is_waiting : {CreateArgs : Type 0} → InvocationTracker CreateArgs → Bool
unfolding Tracker.is_active Tracker.current_frame_is_already_matched
is_waiting t = Tracker.is_active t && not (Tracker.current_frame_is_already_matched t)

module _ {S CreateArgs : Type 0} (host : AuthHost S CreateArgs) where
  -- The loop over the trackers of invoker contracts.
  unfoldable pub authorize_by_invoker :
      ℕ
      → AuthorizedFunction CreateArgs
      → List (InvokerContractAuthorizationTracker CreateArgs)
      → S
      → Result Bool × (List (InvokerContractAuthorizationTracker CreateArgs) × S)
  unfolding maybe_extend_invocation_match
  authorize_by_invoker address function [] s = (ok false, ([], s))
  authorize_by_invoker address function (t ∷ ts) s =
      let next = authorize_by_invoker address function ts in
      let (order, s₁) = host.compare_address t.contract_address address s in
      let (res, (tracker, s₂)) =
        maybe_extend_invocation_match host function true (t.invocation_tracker, s₁) in
      let t' = record t { invocation_tracker = tracker } in
      if_equal order (λ e. (err e, (t ∷ ts, s₁)))
        (elim res [
          | err e ↦ (err e, (t' ∷ ts, s₂))
          | ok true ↦ (ok true, (t' ∷ ts, s₂))
          | ok false ↦ let (res', (ts', s₃)) = next s₂ in (res', (t' ∷ ts', s₃))
        ])
        (let (res', (ts', s₃)) = next s₁ in (res', (t ∷ ts', s₃)))

  -- Whether the frame below the current one is of the contract with this address.
  unfoldable pub is_direct_invoker : ℕ → Option (AuthStackFrame CreateArgs) → Exec S Bool
  is_direct_invoker address none = pure false
  is_direct_invoker address (some (create_contract_host_fn _)) = pure false
  is_direct_invoker address (some (contract invoker)) =
      host.compare_address invoker.contract_address address >>= λ order. pure (is_eq order)

  -- A stack of one call has no invoker, also none further up.
  unfoldable pub maybe_check_invoker_contract_auth :
      ℕ → AuthorizedFunction CreateArgs → Exec (AuthorizationManager CreateArgs × S) Bool
  unfolding is_direct_invoker authorize_by_invoker
  maybe_check_invoker_contract_auth address function (m, s) =
      let frame = invoker_frame m.call_stack in
      let (direct, s₁) = is_direct_invoker address frame s in
      let (res, (ts, s₂)) = authorize_by_invoker address function m.invoker_contract_trackers s₁ in
      elim frame [
        | none ↦ (ok false, (m, s))
        | some _ ↦ elim direct [
          | err e ↦ (err e, (m, s₁))
          | ok true ↦ (ok true, (m, s₁))
          | ok false ↦ (res, (record m { invoker_contract_trackers = ts }, s₂))
        ]
      ]

  -- The loop that looks for a tracker of the address that is in use higher up.
  unfoldable pub find_active_tracker : ℕ → List (Cell CreateArgs) → Exec S Bool
  unfolding is_waiting
  find_active_tracker address [] = pure false
  find_active_tracker address (c ∷ cells) =
      let next = find_active_tracker address cells in
      if c.is_borrowed
      then next
      else (host.compare_address c.tracker.address address >>= λ order.
          if is_eq order && is_waiting c.tracker.invocation_tracker then pure true else next)

module _ {S CreateArgs : Type 0}
    (host : AccountHost (AuthorizationManager CreateArgs) S CreateArgs) where
  -- A cell's tracker is borrowed while it authorizes, and what it is then is written back.
  unfoldable pub authorize_in_cell :
      AuthorizedFunction CreateArgs
      → Bool
      → ℕ
      → AccountAuthorizationTracker CreateArgs
      → Exec (AuthorizationManager CreateArgs × S) Bool
  unfolding maybe_authorize_invocation
  authorize_in_cell function allow_matching_root index tracker (m, s) =
      let held = record m {
        account_trackers =
            set m.account_trackers index (record { tracker = tracker; is_borrowed = true });
      } in
      let (res, (tracker', (m', s'))) =
        maybe_authorize_invocation host function allow_matching_root (tracker, (held, s)) in
      (
        res,
        (
          record m' {
            account_trackers =
                set m'.account_trackers index (record { tracker = tracker'; is_borrowed = false });
          },
          s',
        ),
      )

  -- What a tracker of the address makes of the call, or else the rest of the loop.
  unfoldable pub try_tracker :
      AuthorizedFunction CreateArgs
      → Bool
      → ℕ
      → AccountAuthorizationTracker CreateArgs
      → Exec (AuthorizationManager CreateArgs × S) (Unit {0})
      → Ordering
      → Exec (AuthorizationManager CreateArgs × S) (Unit {0})
  unfolding authorize_in_cell
  try_tracker function allow_matching_root index tracker next order =
      if is_eq order
      then (authorize_in_cell function allow_matching_root index tracker >>= λ found.
          if found then pure tt else next)
      else next

  unfoldable pub try_cell :
      ℕ
      → AuthorizedFunction CreateArgs
      → Bool
      → ℕ
      → Option (Cell CreateArgs)
      → Exec (AuthorizationManager CreateArgs × S) (Unit {0})
      → Exec (AuthorizationManager CreateArgs × S) (Unit {0})
  unfolding try_tracker
  try_cell address function allow_matching_root index none next = throw auth_invalid_action
  try_cell address function allow_matching_root index (some c) next =
      if c.is_borrowed
      then next
      else (beside (host.auth_host.compare_address c.tracker.address address)
          >>= try_tracker function allow_matching_root index c.tracker next)

  -- The loop over the cells, from an index on: the vector is as long as it was when the loop began.
  unfoldable pub try_cells :
      ℕ
      → AuthorizedFunction CreateArgs
      → Bool
      → ℕ
      → ℕ
      → Exec (AuthorizationManager CreateArgs × S) (Unit {0})
  unfolding try_cell
  try_cells address function allow_matching_root zero index (m, s) =
      (err auth_invalid_action, (m, s))
  try_cells address function allow_matching_root (suc left) index (m, s) =
      try_cell address function allow_matching_root index (get_elem? m.account_trackers index)
        (try_cells address function allow_matching_root left (suc index)) (m, s)

  unfoldable pub require_auth_enforcing :
      ℕ → AuthorizedFunction CreateArgs → Exec (AuthorizationManager CreateArgs × S) (Unit {0})
  unfolding find_active_tracker try_cells
  require_auth_enforcing address function (m, s) =
      (beside (find_active_tracker host.auth_host address m.account_trackers)
          >>= λ has_active_tracker.
              try_cells address function (not has_active_tracker) (length m.account_trackers) 0)
        (m, s)

  unfoldable pub require_auth_internal :
      ℕ → AuthorizedFunction CreateArgs → Exec (AuthorizationManager CreateArgs × S) (Unit {0})
  unfolding maybe_check_invoker_contract_auth require_auth_enforcing
  require_auth_internal address function =
      maybe_check_invoker_contract_auth host.auth_host address function >>= λ by_invoker.
      if by_invoker then pure tt else require_auth_enforcing address function

  unfoldable pub require_auth : ℕ → List ℕ → Exec (AuthorizationManager CreateArgs × S) (Unit {0})
  unfolding to_authorized_function require_auth_internal
  require_auth address args (m, s) = elim (last_frame m.call_stack) [
    | none ↦ (err auth_internal, (m, s))
    | some frame ↦
        (beside (to_authorized_function host.auth_host frame args)
            >>= require_auth_internal address)
          (m, s)
  ]
