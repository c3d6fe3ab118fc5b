-- ===== src/Auth/Manager/Pop.antt =====
-- The pop of a frame of `AuthorizationManager` in soroban-env-host/src/auth.rs, in its enforcing mode,
-- and the rollback to a snapshot. An error keeps what was rolled back before it.
pub mod Undone
use rs_soroban_env.Prelude.{
  Bool, true, false, ltb, ◌==◌, if◌then◌else◌, Option, none, some, List, [], ◌∷◌, ◌++◌, length, map,
  take,
}
use rs_soroban_env.Errors.{Error, Result, ok, err}
use rs_soroban_env.Auth.Invocation.{AuthorizedInvocationSnapshot, auth_internal}
use rs_soroban_env.Auth.Tracker.{InvocationTracker, rollback_tracker, is_empty}
use rs_soroban_env.Auth.Tracker
use rs_soroban_env.Auth.Account.{AccountAuthorizationTracker, AccountAuthorizationTrackerSnapshot}
use rs_soroban_env.Auth.Account
use rs_soroban_env.Auth.Manager.{Cell, InvokerContractAuthorizationTracker, AuthorizationManager}
use rs_soroban_env.Auth.Manager.Frames.{AuthorizationManagerSnapshot}

-- `pop`, of a vector.
abbrev pub drop_last_frame : {F : Type 0} → List F → List F
drop_last_frame [] = []
drop_last_frame (f ∷ []) = []
drop_last_frame (f ∷ g ∷ fs) = f ∷ drop_last_frame (g ∷ fs)

-- A step on the head of a list, and the steps on the others where it succeeded.
abbrev pub and_then :
    {A : Type 0}
    → Result (Unit {0}) × A
    → List A
    → Result (Unit {0}) × List A
    → Result (Unit {0}) × List A
and_then (err e, a) others next = (err e, a ∷ others)
and_then (ok _, a) others (res, next) = (res, a ∷ next)

module _ {CreateArgs : Type 0} where
  unfoldable pub rollback_cell :
      Cell CreateArgs
      → Option AccountAuthorizationTrackerSnapshot
      → Result (Unit {0}) × Cell CreateArgs
  unfolding Account.rollback
  rollback_cell c none = (ok tt, c)
  rollback_cell c (some snap) =
      let (res, tracker) = Account.rollback c.tracker snap in
      if c.is_borrowed then (err auth_internal, c) else (res, record c { tracker = tracker })

  unfoldable pub rollback_cells :
      List (Cell CreateArgs)
      → List (Option AccountAuthorizationTrackerSnapshot)
      → Result (Unit {0}) × List (Cell CreateArgs)
  unfolding rollback_cell
  rollback_cells [] snaps = (ok tt, [])
  rollback_cells (c ∷ cells) [] = (err auth_internal, c ∷ cells)
  rollback_cells (c ∷ cells) (snap ∷ snaps) =
      and_then (rollback_cell c snap) cells (rollback_cells cells snaps)

  unfoldable pub rollback_invoker :
      InvokerContractAuthorizationTracker CreateArgs
      → AuthorizedInvocationSnapshot
      → Result (Unit {0}) × InvokerContractAuthorizationTracker CreateArgs
  unfolding rollback_tracker
  rollback_invoker t snap =
      let (res, tracker) = rollback_tracker t.invocation_tracker snap in
      (res, record t { invocation_tracker = tracker })

  -- The trackers made since the snapshot are dropped.
  unfoldable pub rollback_invokers :
      List (InvokerContractAuthorizationTracker CreateArgs)
      → List AuthorizedInvocationSnapshot
      → Result (Unit {0}) × List (InvokerContractAuthorizationTracker CreateArgs)
  unfolding rollback_invoker
  rollback_invokers [] snaps = (ok tt, [])
  rollback_invokers (t ∷ ts) [] = (ok tt, [])
  rollback_invokers (t ∷ ts) (snap ∷ snaps) =
      and_then (rollback_invoker t snap) (take (length snaps) ts) (rollback_invokers ts snaps)

  unfoldable pub rollback_all_cells :
      List (Cell CreateArgs)
      → List (Option AccountAuthorizationTrackerSnapshot)
      → Result (Unit {0}) × List (Cell CreateArgs)
  unfolding rollback_cells
  rollback_all_cells cells snaps =
      if length cells == length snaps
      then rollback_cells cells snaps
      else (err auth_internal, cells)

  unfoldable pub rollback_all_invokers :
      List (InvokerContractAuthorizationTracker CreateArgs)
      → List AuthorizedInvocationSnapshot
      → Result (Unit {0}) × List (InvokerContractAuthorizationTracker CreateArgs)
  unfolding rollback_invokers
  rollback_all_invokers ts snaps =
      if ltb (length ts) (length snaps) then (err auth_internal, ts) else rollback_invokers ts snaps

  unfoldable pub rollback :
      AuthorizationManager CreateArgs
      → AuthorizationManagerSnapshot
      → Result (Unit {0}) × AuthorizationManager CreateArgs
  unfolding rollback_all_cells rollback_all_invokers
  rollback m snap =
      let (res, cells) = rollback_all_cells m.account_trackers snap.account_trackers_snapshot in
      let (res', ts) =
        rollback_all_invokers m.invoker_contract_trackers
          snap.invoker_contract_tracker_root_snapshots in
      let m' = record m { account_trackers = cells } in
      elim res [ err e ↦ (err e, m') | ok _ ↦ (res', record m' { invoker_contract_trackers = ts }) ]

  unfoldable pub pop_cell : Cell CreateArgs → Cell CreateArgs
  unfolding Account.pop_frame
  pop_cell c = if c.is_borrowed then c else record c { tracker = Account.pop_frame c.tracker }

  unfoldable pub pop_invoker :
      InvokerContractAuthorizationTracker CreateArgs
      → InvokerContractAuthorizationTracker CreateArgs
  unfolding Tracker.pop_frame
  pop_invoker t = record t { invocation_tracker = Tracker.pop_frame t.invocation_tracker }

  unfoldable pub is_out_of_scope : InvokerContractAuthorizationTracker CreateArgs → Bool
  unfolding is_empty
  is_out_of_scope t = is_empty t.invocation_tracker

  -- The loop that pops the trackers that went out of scope, from the top.
  unfoldable pub pop_out_of_scope :
      List (InvokerContractAuthorizationTracker CreateArgs)
      → List (InvokerContractAuthorizationTracker CreateArgs)
  unfolding is_out_of_scope
  pop_out_of_scope [] = []
  pop_out_of_scope (t ∷ ts) = elim (pop_out_of_scope ts) [
    | [] ↦ if is_out_of_scope t then [] else t ∷ []
    | u ∷ us ↦ t ∷ u ∷ us
  ]

  -- The pop of a call's frame: a stack that is empty has only frames of host functions above it.
  unfoldable pub pop_call : AuthorizationManager CreateArgs → AuthorizationManager CreateArgs
  unfolding pop_cell pop_invoker pop_out_of_scope
  pop_call m = elim m.call_stack [
    | [] ↦ m
    | f ∷ fs ↦ record {
      call_stack = drop_last_frame (f ∷ fs);
      account_trackers = map pop_cell m.account_trackers;
      invoker_contract_trackers = pop_out_of_scope (map pop_invoker m.invoker_contract_trackers);
    }
  ]

  unfoldable pub pop_frame :
      AuthorizationManager CreateArgs
      → Option AuthorizationManagerSnapshot
      → Result (Unit {0}) × AuthorizationManager CreateArgs
  unfolding rollback pop_call
  pop_frame m none = (ok tt, pop_call m)
  pop_frame m (some snap) =
      let (res, m') = rollback m snap in
      elim res [ err e ↦ (err e, m') | ok _ ↦ (ok tt, pop_call m') ]
