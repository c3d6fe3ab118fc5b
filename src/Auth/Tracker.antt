-- ===== src/Auth/Tracker.antt =====
-- `InvocationTracker` of soroban-env-host/src/auth.rs: an authorized tree matched against the calls made.
-- The match stack has its top last, as in the source.
pub mod Uses
pub mod Extended
pub mod Restored
pub mod Runs
use rs_soroban_env.Prelude.{
  ℕ, zero, suc, ◌+◌, ◌-◌, Bool, true, false, ◌&&◌, not, leb, ◌==◌, if◌then◌else◌, Option, none,
  some, List, [], ◌∷◌, ◌++◌, length, Ordering, replicate,
}
use rs_soroban_env.Errors.{Error, Result, ok, err, error, ScErrorType, ScErrorCode}
use rs_soroban_env.Errors.Exec.{Exec, ◌>>=◌, pure, throw}
use rs_soroban_env.Auth.Function.{AuthorizedFunction, AuthHost, is_eq, compare_function}
use rs_soroban_env.Auth.Invocation.{
  AuthorizedInvocation, invocation, SubInvocations, MatchState, unmatched, root_match, sub_match,
  AuthorizedInvocationSnapshot, auth_internal, is_exhausted, count_subs, snapshot, rollback,
  at_last_authorized_invocation,
}

pub record InvocationTracker (CreateArgs : Type 0) : Type 0 where
  pub root_authorized_invocation : AuthorizedInvocation CreateArgs
  pub match_stack : List MatchState
  pub root_exhausted_frame : Option ℕ
  pub is_fully_processed : Bool

-- `InvocationTracker::new`.
unfoldable pub new_tracker :
    {CreateArgs : Type 0} → AuthorizedInvocation CreateArgs → InvocationTracker CreateArgs
new_tracker root = record {
  root_authorized_invocation = root;
  match_stack = [];
  root_exhausted_frame = none;
  is_fully_processed = false;
}

abbrev pub is_matched : MatchState → Bool
is_matched unmatched = false
is_matched root_match = true
is_matched (sub_match _) = true

-- `last`, `pop` and a write through `last_mut`, of a vector.
abbrev pub last_or : MatchState → List MatchState → MatchState
last_or default [] = default
last_or default (m ∷ ms) = last_or m ms

abbrev pub drop_last : List MatchState → List MatchState
drop_last [] = []
drop_last (m ∷ []) = []
drop_last (m ∷ m' ∷ ms) = m ∷ drop_last (m' ∷ ms)

abbrev pub set_last : List MatchState → MatchState → List MatchState
set_last [] new = []
set_last (m ∷ []) new = new ∷ []
set_last (m ∷ m' ∷ ms) new = m ∷ set_last (m' ∷ ms) new

abbrev pub is_nil : List MatchState → Bool
is_nil [] = true
is_nil (m ∷ ms) = false

-- The part of the stack above the root's match, where there is one.
unfoldable pub above_root : List MatchState → Result (Option (List MatchState))
above_root [] = ok none
above_root (root_match ∷ matches) = ok (some matches)
above_root (sub_match _ ∷ matches) = err auth_internal
above_root (unmatched ∷ matches) = above_root matches

-- What follows a comparison: its error, or one of two ways on.
abbrev pub if_equal : {A : Type 0} → Result Ordering → (Error → A) → A → A → A
if_equal (err e) failed equal other = failed e
if_equal (ok order) failed equal other = if is_eq order then equal else other

unfoldable pub push_frame :
    {S CreateArgs : Type 0}
    → AuthHost S CreateArgs
    → Exec (InvocationTracker CreateArgs × S) (Unit {0})
push_frame host (t, s) =
    let (res, s') = host.charge_push s in
    elim res [
      | err e ↦ (err e, (t, s'))
      | ok _ ↦ (ok tt, (record t { match_stack = t.match_stack ++ (unmatched ∷ []) }, s'))
    ]

abbrev pub is_popped : Option ℕ → List MatchState → Bool
is_popped none stack = false
is_popped (some frame) stack = leb (length stack) frame

unfoldable pub pop_frame :
    {CreateArgs : Type 0} → InvocationTracker CreateArgs → InvocationTracker CreateArgs
pop_frame t =
    let stack = drop_last t.match_stack in
    record t {
      match_stack = stack;
      is_fully_processed =
          if is_popped t.root_exhausted_frame stack then true else t.is_fully_processed;
    }

unfoldable pub is_empty : {CreateArgs : Type 0} → InvocationTracker CreateArgs → Bool
is_empty t = is_nil t.match_stack

unfoldable pub is_active : {CreateArgs : Type 0} → InvocationTracker CreateArgs → Bool
is_active t = is_exhausted t.root_authorized_invocation && not t.is_fully_processed

unfoldable pub current_frame_is_already_matched :
    {CreateArgs : Type 0} → InvocationTracker CreateArgs → Bool
current_frame_is_already_matched t = is_matched (last_or unmatched t.match_stack)

module _ {S CreateArgs : Type 0} (host : AuthHost S CreateArgs) where
  -- The loop over the sub-invocations: the first that is not exhausted and whose function is this one.
  unfoldable pub match_subs :
      AuthorizedFunction CreateArgs → ℕ → Exec (SubInvocations CreateArgs × S) MatchState
  unfolding compare_function
  match_subs function index (SubInvocations.nil, s) = (ok unmatched, (SubInvocations.nil, s))
  match_subs function index (SubInvocations.cons (invocation f ss true) subs, s) =
      let (found, (subs', s')) = match_subs function (suc index) (subs, s) in
      (found, (SubInvocations.cons (invocation f ss true) subs', s'))
  match_subs function index (SubInvocations.cons (invocation f ss false) subs, s) =
      let (res, s₁) = compare_function host f function s in
      let (found, (subs', s₂)) = match_subs function (suc index) (subs, s₁) in
      if_equal res (λ e. (err e, (SubInvocations.cons (invocation f ss false) subs, s₁)))
        (ok (sub_match index), (SubInvocations.cons (invocation f ss true) subs, s₁))
        (found, (SubInvocations.cons (invocation f ss false) subs', s₂))

  unfoldable pub match_children :
      AuthorizedFunction CreateArgs → Exec (AuthorizedInvocation CreateArgs × S) MatchState
  unfolding match_subs
  match_children function (invocation f subs exhausted, s) =
      let (res, (subs', s')) = match_subs function 0 (subs, s) in
      (res, (invocation f subs' exhausted, s'))

  -- The root's own match, for a tracker with none in its stack.
  unfoldable pub match_root :
      AuthorizedFunction CreateArgs
      → Bool
      → AuthorizedInvocation CreateArgs
      → Exec (InvocationTracker CreateArgs × S) MatchState
  unfolding compare_function
  match_root function allow_matching_root (invocation f subs exhausted) (t, s) =
      let (res, s') = compare_function host f function s in
      if not exhausted && allow_matching_root
      then if_equal res (λ e. (err e, (t, s')))
          (
            ok root_match,
            (
              record t {
                root_authorized_invocation = invocation f subs true;
                root_exhausted_frame = some (length t.match_stack - 1);
              },
              s',
            ),
          )
          (ok unmatched, (t, s'))
      else (ok unmatched, (t, s))

  unfoldable pub find_match :
      AuthorizedFunction CreateArgs
      → Bool
      → Result (Option (List MatchState))
      → Exec (InvocationTracker CreateArgs × S) MatchState
  unfolding at_last_authorized_invocation match_children match_root
  find_match function allow_matching_root (err e) (t, s) = (err e, (t, s))
  find_match function allow_matching_root (ok none) (t, s) =
      match_root function allow_matching_root t.root_authorized_invocation (t, s)
  find_match function allow_matching_root (ok (some matches)) (t, s) =
      let (res, (root, s')) =
        at_last_authorized_invocation matches (match_children function)
          (t.root_authorized_invocation, s) in
      (res, (record t { root_authorized_invocation = root }, s'))

  -- The write of a match to the top of the stack.
  unfoldable pub write_match : MatchState → Exec (InvocationTracker CreateArgs × S) Bool
  write_match new (t, s) =
      if is_matched new
      then (if is_nil t.match_stack
          then (err auth_internal, (t, s))
          else (ok true, (record t { match_stack = set_last t.match_stack new }, s)))
      else (ok false, (t, s))

  unfoldable pub maybe_extend_invocation_match :
      AuthorizedFunction CreateArgs → Bool → Exec (InvocationTracker CreateArgs × S) Bool
  unfolding current_frame_is_already_matched above_root find_match write_match
  maybe_extend_invocation_match function allow_matching_root (t, s) =
      if current_frame_is_already_matched t
      then (ok false, (t, s))
      else (find_match function allow_matching_root (above_root t.match_stack) >>= write_match)
          (t, s)

  unfoldable pub snapshot_tracker :
      Exec (InvocationTracker CreateArgs × S) AuthorizedInvocationSnapshot
  unfolding snapshot
  snapshot_tracker (t, s) =
      let (res, s') = snapshot host t.root_authorized_invocation s in (res, (t, s'))

unfoldable pub rollback_tracker :
    {CreateArgs : Type 0}
    → InvocationTracker CreateArgs
    → AuthorizedInvocationSnapshot
    → Result (Unit {0}) × InvocationTracker CreateArgs
unfolding rollback
rollback_tracker t snap =
    let (res, root) = rollback t.root_authorized_invocation snap in
    let t' = record t { root_authorized_invocation = root } in
    elim res [
      | err e ↦ (err e, t')
      | ok _ ↦ (
        ok tt,
        if is_exhausted root
            then t'
            else record t' { root_exhausted_frame = none; is_fully_processed = false },
      )
    ]
