-- ===== src/Auth/Tracker/Restored.antt =====
-- A tracker rolled back to the flags of a tree.
use rs_soroban_env.Prelude.{◌≡◌, false, if◌then◌else◌, none, arith}
use rs_soroban_env.Errors.{ok}
use rs_soroban_env.Auth.Invocation.{AuthorizedInvocation, is_exhausted}
use rs_soroban_env.Auth.Invocation.Shape.{SameShape, rollback-flags, flags}
use rs_soroban_env.Auth.Tracker.{InvocationTracker, rollback_tracker}

module _ {CreateArgs : Type 0} where
  -- A tracker with a tree as it was: the root's frame is forgotten where the root is not exhausted.
  unfoldable pub restored :
      InvocationTracker CreateArgs → AuthorizedInvocation CreateArgs → InvocationTracker CreateArgs
  restored t root =
      if is_exhausted root then record t { root_authorized_invocation = root } else record t {
        root_authorized_invocation = root;
        root_exhausted_frame = none;
        is_fully_processed = false;
      }

  -- Rolled back to the flags of a tree of its shape, a tracker has that tree again.
  pub rollback_tracker-flags :
      (t : InvocationTracker CreateArgs) (root : AuthorizedInvocation CreateArgs)
      → SameShape root t.root_authorized_invocation
      → rollback_tracker t (flags root) ≡ (ok tt, restored t root)
  unfolding rollback_tracker restored
  rollback_tracker-flags t root h =
      ground (arith, rollback-flags root t.root_authorized_invocation h)
