-- ===== src/Auth/Tracker/Runs.antt =====
-- Sequences of operations on a tracker: frames pushed and popped, and attempts to extend the match.
use rs_soroban_env.Prelude.{
  suc, ◌+◌, ◌≡◌, ◌≢◌, refl, sym, ap, subst, Bool, true, false, List, [], ◌∷◌, length, arith,
}
use rs_soroban_env.Errors.{Result, ok, err}
use rs_soroban_env.Auth.Function.{AuthorizedFunction, AuthHost}
use rs_soroban_env.Auth.Invocation.{
  AuthorizedInvocation, AuthorizedInvocationSnapshot, SubInvocations,
}
use rs_soroban_env.Auth.Invocation.Shape.{
  SameShape, SameSubs, SameShape-refl, SameSubs-refl, SameShape-trans, Returns, snapshot-Returns,
  flags, remaining, remaining_subs,
}
use rs_soroban_env.Auth.Tracker.{
  InvocationTracker, snapshot_tracker, is_nil, push_frame, pop_frame, maybe_extend_invocation_match,
  rollback_tracker,
}
use rs_soroban_env.Auth.Tracker.Restored.{restored, rollback_tracker-flags}
use rs_soroban_env.Auth.Tracker.Uses.{Used, UsedSubs, here, below, first, later}
use rs_soroban_env.Auth.Tracker.Extended.{Extended, maybe_extend_invocation_match-Extended}

module _ {S CreateArgs : Type 0} (host : AuthHost S CreateArgs)
    (function : AuthorizedFunction CreateArgs) where
  mutual
    unfolding remaining

    pub Used-remaining :
        {a b : AuthorizedInvocation CreateArgs}
        → Used host function a b
        → remaining a ≡ suc (remaining b)
    Used-remaining (here s p) = omega arith
    Used-remaining (below u) = omega (arith, UsedSubs-remaining_subs u)

    UsedSubs-remaining_subs :
        {a b : SubInvocations CreateArgs}
        → UsedSubs host function a b
        → remaining_subs a ≡ suc (remaining_subs b)
    UsedSubs-remaining_subs (first u) = omega (arith, Used-remaining u)
    UsedSubs-remaining_subs (later u) = omega (arith, UsedSubs-remaining_subs u)

  mutual
    unfolding SameShape

    pub Used-SameShape :
        {a b : AuthorizedInvocation CreateArgs} → Used host function a b → SameShape a b
    Used-SameShape (here {f} {subs} s p) = (refl, SameSubs-refl subs)
    Used-SameShape (below u) = (refl, UsedSubs-SameSubs u)

    UsedSubs-SameSubs :
        {a b : SubInvocations CreateArgs} → UsedSubs host function a b → SameSubs a b
    UsedSubs-SameSubs (first {i} {i'} {subs} u) = (Used-SameShape u, SameSubs-refl subs)
    UsedSubs-SameSubs (later {i} u) = (SameShape-refl i, UsedSubs-SameSubs u)

pop_frame_keeps :
    {CreateArgs : Type 0} (t : InvocationTracker CreateArgs)
    → (pop_frame t).root_authorized_invocation ≡ t.root_authorized_invocation
unfolding pop_frame
pop_frame_keeps t = refl

module _ {S CreateArgs : Type 0} (host : AuthHost S CreateArgs) where
  -- What happens to a tracker between two moments: frames pushed and popped, with the functions whose
  -- match was extended, first to last. A match is extended in a frame.
  pub data Steps
      : List (AuthorizedFunction CreateArgs)
        → InvocationTracker CreateArgs
        → S
        → InvocationTracker CreateArgs
        → S
        → Type 0 where
    done : (t : InvocationTracker CreateArgs) (s : S) → Steps [] t s t s
    entered :
        (fs : List (AuthorizedFunction CreateArgs)) (t : InvocationTracker CreateArgs) (s : S)
        (t' : InvocationTracker CreateArgs) (s' : S)
        → Steps fs (push_frame host (t, s)).1.0 (push_frame host (t, s)).1.1 t' s'
        → Steps fs t s t' s'
    left :
        (fs : List (AuthorizedFunction CreateArgs)) (t : InvocationTracker CreateArgs) (s : S)
        (t' : InvocationTracker CreateArgs) (s' : S)
        → Steps fs (pop_frame t) s t' s'
        → Steps fs t s t' s'
    used :
        (f : AuthorizedFunction CreateArgs) (allow : Bool)
        (fs : List (AuthorizedFunction CreateArgs)) (t : InvocationTracker CreateArgs) (s : S)
        (t' : InvocationTracker CreateArgs) (s' : S)
        → is_nil t.match_stack ≡ false
        → (maybe_extend_invocation_match host f allow (t, s)).0 ≡ ok true
        → Steps fs
            (maybe_extend_invocation_match host f allow (t, s)).1.0
            (maybe_extend_invocation_match host f allow (t, s)).1.1
            t'
            s'
        → Steps (f ∷ fs) t s t' s'
    refused :
        (f : AuthorizedFunction CreateArgs) (allow : Bool)
        (fs : List (AuthorizedFunction CreateArgs)) (t : InvocationTracker CreateArgs) (s : S)
        (t' : InvocationTracker CreateArgs) (s' : S)
        → is_nil t.match_stack ≡ false
        → (maybe_extend_invocation_match host f allow (t, s)).0 ≢ ok true
        → Steps fs
            (maybe_extend_invocation_match host f allow (t, s)).1.0
            (maybe_extend_invocation_match host f allow (t, s)).1.1
            t'
            s'
        → Steps fs t s t' s'

  -- What the functions granted leave of the tree.
  unfoldable pub Spent :
      List (AuthorizedFunction CreateArgs)
      → AuthorizedInvocation CreateArgs
      → AuthorizedInvocation CreateArgs
      → Type 0
  Spent fs a b = (length fs + remaining b ≡ remaining a) × SameShape a b

  Spent-SameShape :
      (fs : List (AuthorizedFunction CreateArgs)) (a b : AuthorizedInvocation CreateArgs)
      → Spent fs a b
      → SameShape a b
  unfolding Spent
  Spent-SameShape fs a b (n, shape) = shape

  Used-Spent :
      (f : AuthorizedFunction CreateArgs) (fs : List (AuthorizedFunction CreateArgs))
      (a b c : AuthorizedInvocation CreateArgs)
      → Used host f a b
      → Spent fs b c
      → Spent (f ∷ fs) a c
  unfolding Spent
  Used-Spent f fs a b c u (n, h) =
      (omega (arith, n, Used-remaining host f u), SameShape-trans a b c (Used-SameShape host f u) h)

  Extended-Used :
      (f : AuthorizedFunction CreateArgs) (t : InvocationTracker CreateArgs)
      (out : Result Bool × (InvocationTracker CreateArgs × S))
      → Extended host f t out
      → out.0 ≡ ok true
      → Used host f t.root_authorized_invocation out.1.0.root_authorized_invocation
  Extended-Used f t (ok true, (t', s)) (u, _, _) e = u
  Extended-Used f t (ok false, (t', s)) p e = absurd (cc)
  Extended-Used f t (err x, (t', s)) p e = absurd (cc)

  Extended-refused :
      (f : AuthorizedFunction CreateArgs) (t : InvocationTracker CreateArgs)
      (out : Result Bool × (InvocationTracker CreateArgs × S))
      → Extended host f t out
      → out.0 ≢ ok true
      → t ≡ out.1.0
  Extended-refused f t (ok true, (t', s)) p e = absurd (e refl)
  Extended-refused f t (ok false, (t', s)) p e = p
  Extended-refused f t (err x, (t', s)) p e = p

  push_frame_keeps :
      (t : InvocationTracker CreateArgs) (s : S)
      → (push_frame host (t, s)).1.0.root_authorized_invocation ≡ t.root_authorized_invocation
  unfolding push_frame
  push_frame_keeps t s = ground arith

  -- Over any sequence of frames pushed, frames popped and attempts in a frame to extend the match, the
  -- tree keeps its shape, and each function granted has taken one of its nodes: their number and the
  -- number of nodes that remain make up the number of nodes there were.
  pub Steps-Spent :
      {fs : List (AuthorizedFunction CreateArgs)} {t : InvocationTracker CreateArgs} {s : S}
      {t' : InvocationTracker CreateArgs} {s' : S}
      → Steps fs t s t' s'
      → Spent fs t.root_authorized_invocation t'.root_authorized_invocation
  Steps-Spent (done t s) =
      unfold Spent in (omega arith, SameShape-refl t.root_authorized_invocation)
  Steps-Spent (entered fs t s t' s' h) =
      subst (λ root. Spent fs root t'.root_authorized_invocation) (push_frame_keeps t s)
        (Steps-Spent h)
  Steps-Spent (left fs t s t' s' h) =
      subst (λ root. Spent fs root t'.root_authorized_invocation) (pop_frame_keeps t)
        (Steps-Spent h)
  Steps-Spent (used f allow fs t s t' s' n e h) =
      Used-Spent f fs _ _ _
        (Extended-Used f t _ (maybe_extend_invocation_match-Extended host f allow t s n) e)
        (Steps-Spent h)
  Steps-Spent (refused f allow fs t s t' s' n e h) =
      subst
        (λ (x : InvocationTracker CreateArgs).
          Spent fs x.root_authorized_invocation t'.root_authorized_invocation)
        (sym (Extended-refused f t _ (maybe_extend_invocation_match-Extended host f allow t s n) e))
        (Steps-Spent h)

  result_lem :
      (a : AuthorizedInvocationSnapshot) (out : Result AuthorizedInvocationSnapshot × S) (s : S)
      → Returns a out
      → Returns a (out.0, s)
  result_lem a (ok b, s') s p = p
  result_lem a (err e, s') s p = tt

  snapshot_tracker_lem :
      (t : InvocationTracker CreateArgs) (s : S) (snap : AuthorizedInvocationSnapshot)
      → (snapshot_tracker host (t, s)).0 ≡ ok snap
      → snap ≡ flags t.root_authorized_invocation
  unfolding snapshot_tracker
  snapshot_tracker_lem t s snap p =
      subst (λ r. Returns (flags t.root_authorized_invocation) (r, s)) p
        (result_lem _ _ s (snapshot-Returns host t.root_authorized_invocation s))

  -- A snapshot, any sequence of steps, and a rollback to the snapshot: it succeeds, the tree is what it
  -- was at the snapshot, and the match stack is what the steps left.
  pub rollback_tracker-snapshot_tracker :
      {fs : List (AuthorizedFunction CreateArgs)} {t : InvocationTracker CreateArgs} (s : S)
      {s₁ : S} {t' : InvocationTracker CreateArgs} {s' : S} (snap : AuthorizedInvocationSnapshot)
      → snapshot_tracker host (t, s) ≡ (ok snap, (t, s₁))
      → Steps fs t s₁ t' s'
      → rollback_tracker t' snap ≡ (ok tt, restored t' t.root_authorized_invocation)
  rollback_tracker-snapshot_tracker {fs} {t} s {s₁} {t'} {s'} snap p h =
      let shape = Spent-SameShape fs _ _ (Steps-Spent h) in
      subst (λ x. rollback_tracker t' x ≡ (ok tt, restored t' t.root_authorized_invocation))
        (sym (snapshot_tracker_lem t s snap (ap (λ out. out.0) p)))
        (rollback_tracker-flags t' t.root_authorized_invocation shape)
