-- ===== src/Auth/Invocation.antt =====
-- `AuthorizedInvocation` of soroban-env-host/src/auth.rs: a tree of authorized invocations.
pub mod Shape
use rs_soroban_env.Prelude.{
  ℕ, zero, suc, Bool, true, false, List, [], ◌∷◌, ◌==◌, if◌then◌else◌, Ordering,
}
use rs_soroban_env.Errors.{Error, Result, ok, err, error, ScErrorType, ScErrorCode}
use rs_soroban_env.Errors.Exec.{Exec, ◌>>=◌, pure}
use rs_soroban_env.Auth.Function.{AuthorizedFunction, AuthHost}

mutual
  -- The function, the sub-invocations, and whether it is exhausted.
  pub data AuthorizedInvocation (CreateArgs : Type 0) : Type 0 where
    invocation :
        AuthorizedFunction CreateArgs
        → SubInvocations CreateArgs
        → Bool
        → AuthorizedInvocation CreateArgs

  pub data SubInvocations (CreateArgs : Type 0) : Type 0 where
    nil : SubInvocations CreateArgs
    cons : AuthorizedInvocation CreateArgs → SubInvocations CreateArgs → SubInvocations CreateArgs

mutual
  pub data AuthorizedInvocationSnapshot : Type 0 where
    snapshot_of : Bool → SubSnapshots → AuthorizedInvocationSnapshot

  pub data SubSnapshots : Type 0 where
    nil : SubSnapshots
    cons : AuthorizedInvocationSnapshot → SubSnapshots → SubSnapshots

pub data MatchState : Type 0 where
  unmatched root_match : MatchState
  sub_match : ℕ → MatchState

abbrev pub auth_internal : Error
auth_internal = error ScErrorType.auth ScErrorCode.internal_error

abbrev pub count_subs : {CreateArgs : Type 0} → SubInvocations CreateArgs → ℕ
count_subs SubInvocations.nil = 0
count_subs (SubInvocations.cons i subs) = suc (count_subs subs)

abbrev pub count_snapshots : SubSnapshots → ℕ
count_snapshots SubSnapshots.nil = 0
count_snapshots (SubSnapshots.cons s snaps) = suc (count_snapshots snaps)

abbrev pub is_exhausted : {CreateArgs : Type 0} → AuthorizedInvocation CreateArgs → Bool
is_exhausted (invocation f subs exhausted) = exhausted

module _ {S CreateArgs : Type 0} (host : AuthHost S CreateArgs) where
  unfoldable mutual
    pub snapshot : AuthorizedInvocation CreateArgs → Exec S AuthorizedInvocationSnapshot
    snapshot (invocation f subs exhausted) = host.charge_collect (count_subs subs) >>= λ _.
        snapshot_subs subs >>= λ snaps. pure (snapshot_of exhausted snaps)

    pub snapshot_subs : SubInvocations CreateArgs → Exec S SubSnapshots
    snapshot_subs SubInvocations.nil = pure SubSnapshots.nil
    snapshot_subs (SubInvocations.cons i subs) =
        snapshot i >>= λ s. snapshot_subs subs >>= λ snaps. pure (SubSnapshots.cons s snaps)

-- An error keeps what was rolled back before it.
unfoldable mutual
  pub rollback :
      {CreateArgs : Type 0}
      → AuthorizedInvocation CreateArgs
      → AuthorizedInvocationSnapshot
      → Result (Unit {0}) × AuthorizedInvocation CreateArgs
  rollback (invocation f subs exhausted) (snapshot_of was_exhausted snaps) =
      let (res, subs') = rollback_subs subs snaps in
      if count_subs subs == count_snapshots snaps
      then (res, invocation f subs' was_exhausted)
      else (err auth_internal, invocation f subs was_exhausted)

  pub rollback_subs :
      {CreateArgs : Type 0}
      → SubInvocations CreateArgs
      → SubSnapshots
      → Result (Unit {0}) × SubInvocations CreateArgs
  rollback_subs SubInvocations.nil snaps = (ok tt, SubInvocations.nil)
  rollback_subs (SubInvocations.cons i subs) SubSnapshots.nil = (ok tt, SubInvocations.cons i subs)
  rollback_subs (SubInvocations.cons i subs) (SubSnapshots.cons s snaps) =
      let (res, i') = rollback i s in
      let (res', subs') = rollback_subs subs snaps in
      elim res [
        | err e ↦ (err e, SubInvocations.cons i' subs)
        | ok _ ↦ (res', SubInvocations.cons i' subs')
      ]

-- A step on a sub-invocation in place: `get_mut`.
unfoldable pub at_index :
    {S CreateArgs A : Type 0}
    → ℕ
    → Exec (AuthorizedInvocation CreateArgs × S) A
    → Exec (SubInvocations CreateArgs × S) A
at_index n step (SubInvocations.nil, s) = (err auth_internal, (SubInvocations.nil, s))
at_index zero step (SubInvocations.cons i subs, s) =
    let (res, (i', s')) = step (i, s) in (res, (SubInvocations.cons i' subs, s'))
at_index (suc n) step (SubInvocations.cons i subs, s) =
    let (res, (subs', s')) = at_index n step (subs, s) in (res, (SubInvocations.cons i subs', s'))

-- `last_authorized_invocation_mut`, and the caller's step on the node that it returns. The matches are
-- those from `call_stack_id` on.
unfoldable pub at_last_authorized_invocation :
    {S CreateArgs A : Type 0}
    → List MatchState
    → Exec (AuthorizedInvocation CreateArgs × S) A
    → Exec (AuthorizedInvocation CreateArgs × S) A
unfolding at_index
at_last_authorized_invocation [] step s = step s
at_last_authorized_invocation (unmatched ∷ matches) step s =
    at_last_authorized_invocation matches step s
at_last_authorized_invocation (root_match ∷ matches) step s = (err auth_internal, s)
at_last_authorized_invocation (sub_match i ∷ matches) step (invocation f subs exhausted, s) =
    let (res, (subs', s')) = at_index i (at_last_authorized_invocation matches step) (subs, s) in
    (res, (invocation f subs' exhausted, s'))
