-- ===== src/Auth/Manager/Frames/Held.antt =====
-- What a snapshot of the manager holds: the flags of the trees, and the verifications.
use rs_soroban_env.Prelude.{
  ◌≡◌, refl, subst, Bool, true, false, if◌then◌else◌, Option, none, some, List, [], ◌∷◌, length,
  arith,
}
use rs_soroban_env.Errors.{Result, ok, err}
use rs_soroban_env.Errors.Exec.{◌>>=◌, pure}
use rs_soroban_env.Errors.Kept.{after_any}
use rs_soroban_env.Auth.Function.{AuthHost}
use rs_soroban_env.Auth.Invocation.{AuthorizedInvocation, AuthorizedInvocationSnapshot}
use rs_soroban_env.Auth.Invocation
use rs_soroban_env.Auth.Invocation.Shape.{flags, Returns, then_lem, both_lem, snapshot-Returns}
use rs_soroban_env.Auth.Tracker.{snapshot_tracker}
use rs_soroban_env.Auth.Account.{AccountAuthorizationTracker, AccountAuthorizationTrackerSnapshot}
use rs_soroban_env.Auth.Account
use rs_soroban_env.Auth.Manager.{Cell, InvokerContractAuthorizationTracker, AuthorizationManager}
use rs_soroban_env.Auth.Manager.Frames.{
  AuthorizationManagerSnapshot, snapshot_cells, snapshot_invokers, snapshot,
}

abbrev pub held :
    List (Option AccountAuthorizationTrackerSnapshot)
    → List AuthorizedInvocationSnapshot
    → AuthorizationManagerSnapshot
held x y = record { account_trackers_snapshot = x; invoker_contract_tracker_root_snapshots = y }

module _ {CreateArgs : Type 0} where
  -- What it holds of a cell; nothing where the tracker is borrowed.
  abbrev pub held_of : Cell CreateArgs → Option AccountAuthorizationTrackerSnapshot
  held_of c =
      if c.is_borrowed
      then none
      else some (record {
        invocation_tracker_root_snapshot =
            flags c.tracker.invocation_tracker.root_authorized_invocation;
        verified = c.tracker.verified;
      })

  abbrev pub held_of_cells :
      List (Cell CreateArgs) → List (Option AccountAuthorizationTrackerSnapshot)
  held_of_cells [] = []
  held_of_cells (c ∷ cells) = held_of c ∷ held_of_cells cells

  abbrev pub held_of_invokers :
      List (InvokerContractAuthorizationTracker CreateArgs) → List AuthorizedInvocationSnapshot
  held_of_invokers [] = []
  held_of_invokers (t ∷ ts) =
      flags t.invocation_tracker.root_authorized_invocation ∷ held_of_invokers ts

  abbrev pub held_of_manager : AuthorizationManager CreateArgs → AuthorizationManagerSnapshot
  held_of_manager m =
      held (held_of_cells m.account_trackers) (held_of_invokers m.invoker_contract_trackers)

pub returned :
    {S A : Type 0} {a : A} (out : Result A × S) (b : A) → Returns a out → out.0 ≡ ok b → b ≡ a
returned (ok c, s) b h p = ground (arith, h, p)
returned (err e, s) b h p = absurd (cc)

module _ {S CreateArgs : Type 0} (host : AuthHost S CreateArgs) where
  account-snapshot-Returns :
      (t : AccountAuthorizationTracker CreateArgs) (s : S)
      → Returns
          (record {
            invocation_tracker_root_snapshot =
                flags t.invocation_tracker.root_authorized_invocation;
            verified = t.verified;
          })
          (Account.snapshot host t s)
  unfolding Account.snapshot snapshot_tracker
  account-snapshot-Returns t s =
      then_lem (λ root. record { invocation_tracker_root_snapshot = root; verified = t.verified })
        (flags t.invocation_tracker.root_authorized_invocation)
        (Invocation.snapshot host t.invocation_tracker.root_authorized_invocation s)
        (snapshot-Returns host t.invocation_tracker.root_authorized_invocation s)

  cell-Returns :
      (c : Cell CreateArgs) (s : S) (borrowed : Bool)
      → Returns (held_of (record c { is_borrowed = borrowed })) (
          (if borrowed
              then pure none
              else (Account.snapshot host c.tracker >>= λ snap. pure (some snap)))
            s)
  cell-Returns c s true = refl
  cell-Returns c s false =
      then_lem some _ (Account.snapshot host c.tracker s) (account-snapshot-Returns c.tracker s)

  snapshot_cells-Returns :
      (cells : List (Cell CreateArgs)) (s : S)
      → Returns (held_of_cells cells) (snapshot_cells host cells s)
  unfolding snapshot_cells
  snapshot_cells-Returns [] s = refl
  snapshot_cells-Returns (c ∷ cells) s =
      both_lem ◌∷◌ (held_of c) (held_of_cells cells) _ (snapshot_cells host cells)
        (cell-Returns c s c.is_borrowed) (snapshot_cells-Returns cells _)

  snapshot_invokers-Returns :
      (ts : List (InvokerContractAuthorizationTracker CreateArgs)) (s : S)
      → Returns (held_of_invokers ts) (snapshot_invokers host ts s)
  unfolding snapshot_invokers snapshot_tracker
  snapshot_invokers-Returns [] s = refl
  snapshot_invokers-Returns (t ∷ ts) s =
      both_lem ◌∷◌ (flags t.invocation_tracker.root_authorized_invocation) (held_of_invokers ts) _
        (snapshot_invokers host ts)
        (snapshot-Returns host t.invocation_tracker.root_authorized_invocation s)
        (snapshot_invokers-Returns ts _)

  invokers-Returns :
      (m : AuthorizationManager CreateArgs) (x : List (Option AccountAuthorizationTrackerSnapshot))
      (s : S)
      → x ≡ held_of_cells m.account_trackers
      → Returns
          (held_of_manager m)
          ((snapshot_invokers host m.invoker_contract_trackers >>= λ y. pure (held x y)) s)
  invokers-Returns m x s e =
      subst
        (λ z.
          Returns (held z (held_of_invokers m.invoker_contract_trackers))
            ((snapshot_invokers host m.invoker_contract_trackers >>= λ y. pure (held x y)) s))
        e
        (then_lem (held x) (held_of_invokers m.invoker_contract_trackers)
          (snapshot_invokers host m.invoker_contract_trackers s)
          (snapshot_invokers-Returns m.invoker_contract_trackers s))

  -- A snapshot that succeeds holds what the manager has.
  pub snapshot-Returns_held :
      (m : AuthorizationManager CreateArgs) (s : S)
      → Returns (held_of_manager m) (snapshot host m s)
  unfolding snapshot
  snapshot-Returns_held m s =
      let P : Result AuthorizationManagerSnapshot × S → Type 0 = Returns (held_of_manager m) in
      let invokers = λ (x : List (Option AccountAuthorizationTrackerSnapshot)) (u : Unit {0}).
        snapshot_invokers host m.invoker_contract_trackers >>= λ y. pure (held x y) in
      let charge = host.charge_collect (length m.invoker_contract_trackers) in
      after_any P (λ u. snapshot_cells host m.account_trackers >>= λ x. charge >>= invokers x)
        (host.charge_collect (length m.account_trackers)) s (λ e h. tt)
        (λ u h.
          after_any P (λ x. charge >>= invokers x) (snapshot_cells host m.account_trackers) _
            (λ e h₁. tt)
            (λ x h₁.
              after_any P (invokers x) charge _ (λ e h₂. tt)
                (λ v h₂.
                  invokers-Returns m x _
                    (returned _ x (snapshot_cells-Returns m.account_trackers _) h₁))))
