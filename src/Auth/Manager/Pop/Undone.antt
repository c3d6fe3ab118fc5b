-- ===== src/Auth/Manager/Pop/Undone.antt =====
-- What a rollback to a snapshot of the manager undoes.
use rs_soroban_env.Prelude.{
  ◌≡◌, refl, sym, ap, subst, Bool, true, false, ltb, ◌==◌, if◌then◌else◌, ◌⊎◌, inl, inr, List, [],
  ◌∷◌, length, take, suc, arith,
}
use mathlib.Core.Path.{ap₂}
use rs_soroban_env.Errors.{Result, ok}
use rs_soroban_env.Auth.Function.{AuthHost}
use rs_soroban_env.Auth.Invocation.Shape.{SameShape}
use rs_soroban_env.Auth.Tracker.{InvocationTracker}
use rs_soroban_env.Auth.Tracker.Restored.{restored, rollback_tracker-flags}
use rs_soroban_env.Auth.Account.{AccountAuthorizationTracker, AccountAuthorizationTrackerSnapshot}
use rs_soroban_env.Auth.Account
use rs_soroban_env.Auth.Manager.{Cell, InvokerContractAuthorizationTracker, AuthorizationManager}
use rs_soroban_env.Auth.Manager.Frames.{AuthorizationManagerSnapshot, snapshot}
use rs_soroban_env.Auth.Manager.Frames.Held.{
  held_of, held_of_cells, held_of_invokers, held_of_manager, returned, snapshot-Returns_held,
}
use rs_soroban_env.Auth.Manager.Pop.{
  and_then, rollback_cell, rollback_cells, rollback_invoker, rollback_invokers, rollback_all_cells,
  rollback_all_invokers, rollback,
}

module _ {CreateArgs : Type 0} where
  -- A cell that was free at the snapshot is free again, with a tree of the same shape.
  abbrev pub SameCell : Cell CreateArgs → Cell CreateArgs → Type 0
  SameCell before now =
      (before.is_borrowed ≡ true)
      ⊎ ((before.is_borrowed ≡ false)
          × (now.is_borrowed ≡ false)
          × SameShape before.tracker.invocation_tracker.root_authorized_invocation
              now.tracker.invocation_tracker.root_authorized_invocation)

  abbrev pub SameCells : List (Cell CreateArgs) → List (Cell CreateArgs) → Type 0
  SameCells [] [] = Unit
  SameCells [] (c ∷ cells) = ⊥
  SameCells (b ∷ bs) [] = ⊥
  SameCells (b ∷ bs) (c ∷ cells) = SameCell b c × SameCells bs cells

  -- The trackers of invoker contracts that there were at the snapshot, and newer ones above them.
  abbrev pub SameInvokers :
      List (InvokerContractAuthorizationTracker CreateArgs)
      → List (InvokerContractAuthorizationTracker CreateArgs)
      → Type 0
  SameInvokers [] ts = Unit
  SameInvokers (b ∷ bs) [] = ⊥
  SameInvokers (b ∷ bs) (t ∷ ts) =
      SameShape b.invocation_tracker.root_authorized_invocation
        t.invocation_tracker.root_authorized_invocation
      × SameInvokers bs ts

  -- What a rollback makes of the trackers there are, from those there were.
  abbrev pub undone_cell : Cell CreateArgs → Cell CreateArgs → Cell CreateArgs
  undone_cell before now = if before.is_borrowed then now else record now {
    tracker = record now.tracker {
      invocation_tracker =
          restored now.tracker.invocation_tracker
            before.tracker.invocation_tracker.root_authorized_invocation;
      verified = before.tracker.verified;
    };
  }

  abbrev pub undone_cells : List (Cell CreateArgs) → List (Cell CreateArgs) → List (Cell CreateArgs)
  undone_cells [] cells = []
  undone_cells (b ∷ bs) [] = []
  undone_cells (b ∷ bs) (c ∷ cells) = undone_cell b c ∷ undone_cells bs cells

  abbrev pub undone_invokers :
      List (InvokerContractAuthorizationTracker CreateArgs)
      → List (InvokerContractAuthorizationTracker CreateArgs)
      → List (InvokerContractAuthorizationTracker CreateArgs)
  undone_invokers [] ts = []
  undone_invokers (b ∷ bs) [] = []
  undone_invokers (b ∷ bs) (t ∷ ts) =
      record t {
        invocation_tracker =
            restored t.invocation_tracker b.invocation_tracker.root_authorized_invocation;
      }
      ∷ undone_invokers bs ts

  rollback_cell-held_of :
      (b c : Cell CreateArgs) (borrowed : Bool)
      → SameCell (record b { is_borrowed = borrowed }) c
      → rollback_cell c (held_of (record b { is_borrowed = borrowed }))
        ≡ (ok tt, undone_cell (record b { is_borrowed = borrowed }) c)
  unfolding rollback_cell Account.rollback
  rollback_cell-held_of b c true h = refl
  rollback_cell-held_of b c false (inl e) = absurd (cc)
  rollback_cell-held_of b c false (inr (_, free, shape)) = ground (
    arith,
    free,
    rollback_tracker-flags c.tracker.invocation_tracker
        b.tracker.invocation_tracker.root_authorized_invocation shape,
  )

  rollback_cells-held_of_cells :
      (bs cells : List (Cell CreateArgs))
      → SameCells bs cells
      → (rollback_cells cells (held_of_cells bs) ≡ (ok tt, undone_cells bs cells))
        × (length cells ≡ length (held_of_cells bs))
  unfolding rollback_cells
  rollback_cells-held_of_cells [] [] h = (refl, refl)
  rollback_cells-held_of_cells [] (c ∷ cells) h = absurd h
  rollback_cells-held_of_cells (b ∷ bs) [] h = absurd h
  rollback_cells-held_of_cells (b ∷ bs) (c ∷ cells) (h, hs) =
      let (p, q) = rollback_cells-held_of_cells bs cells hs in
      (ap₂ (λ x y. and_then x cells y) (rollback_cell-held_of b c b.is_borrowed h) p, ap suc q)

  rollback_invokers-held_of_invokers :
      (bs ts : List (InvokerContractAuthorizationTracker CreateArgs))
      → SameInvokers bs ts
      → (rollback_invokers ts (held_of_invokers bs) ≡ (ok tt, undone_invokers bs ts))
        × (ltb (length ts) (length (held_of_invokers bs)) ≡ false)
  unfolding rollback_invokers rollback_invoker
  rollback_invokers-held_of_invokers [] [] h = (refl, refl)
  rollback_invokers-held_of_invokers [] (t ∷ ts) h = (refl, ground arith)
  rollback_invokers-held_of_invokers (b ∷ bs) [] h = absurd h
  rollback_invokers-held_of_invokers (b ∷ bs) (t ∷ ts) (h, hs) =
      let (p, q) = rollback_invokers-held_of_invokers bs ts hs in
      let e =
        rollback_tracker-flags t.invocation_tracker b.invocation_tracker.root_authorized_invocation
          h in
      (
        ap₂
            (λ (x : Result (Unit {0}) × InvocationTracker CreateArgs) y.
              and_then (x.0, record t { invocation_tracker = x.1 })
                (take (length (held_of_invokers bs)) ts) y)
            e p,
        ground (arith, q),
      )

  -- The call stack is not rolled back: a pop takes the frame off it.
  abbrev pub undone :
      AuthorizationManager CreateArgs
      → AuthorizationManager CreateArgs
      → AuthorizationManager CreateArgs
  undone before now = record now {
    account_trackers = undone_cells before.account_trackers now.account_trackers;
    invoker_contract_trackers =
        undone_invokers before.invoker_contract_trackers now.invoker_contract_trackers;
  }

  rollback-held_of_manager :
      (before now : AuthorizationManager CreateArgs)
      → SameCells before.account_trackers now.account_trackers
      → SameInvokers before.invoker_contract_trackers now.invoker_contract_trackers
      → rollback now (held_of_manager before) ≡ (ok tt, undone before now)
  unfolding rollback rollback_all_cells rollback_all_invokers
  rollback-held_of_manager before now h k =
      let (p, q) = rollback_cells-held_of_cells before.account_trackers now.account_trackers h in
      let (p', q') =
        rollback_invokers-held_of_invokers before.invoker_contract_trackers
          now.invoker_contract_trackers k in
      let same : (length now.account_trackers == length (held_of_cells before.account_trackers))
          ≡ true =
        ground (arith, q) in
      ground (arith, same, p, p', q')

module _ {S CreateArgs : Type 0} (host : AuthHost S CreateArgs) where
  -- A snapshot of the manager, and a rollback to it where each tracker that was free is free again with a
  -- tree of the same shape, and where the trackers of invoker contracts have newer ones above them: the
  -- rollback succeeds, restores trees and verifications, and drops the newer trackers.
  pub rollback-snapshot :
      (before now : AuthorizationManager CreateArgs) (s : S) (snap : AuthorizationManagerSnapshot)
      → (snapshot host before s).0 ≡ ok snap
      → SameCells before.account_trackers now.account_trackers
      → SameInvokers before.invoker_contract_trackers now.invoker_contract_trackers
      → rollback now snap ≡ (ok tt, undone before now)
  rollback-snapshot before now s snap p h k =
      subst (λ x. rollback now x ≡ (ok tt, undone before now))
        (sym (returned _ snap (snapshot-Returns_held host before s) p))
        (rollback-held_of_manager before now h k)
