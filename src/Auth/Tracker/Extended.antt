-- ===== src/Auth/Tracker/Extended.antt =====
-- What `maybe_extend_invocation_match` does to a tracker.
use rs_soroban_env.Prelude.{
  suc, ◌≡◌, refl, ap, ◌∙◌, Option, none, some, Bool, Bool-cases, inl, inr, true, false, List, [],
  ◌∷◌, length, ◌-◌,
}
use rs_soroban_env.Errors.{Result, ok, err}
use rs_soroban_env.Errors.Exec.{◌>>=◌}
use rs_soroban_env.Auth.Function.{AuthorizedFunction, AuthHost, compare_function}
use rs_soroban_env.Auth.Invocation.{
  AuthorizedInvocation, invocation, MatchState, unmatched, root_match, sub_match,
}
use rs_soroban_env.Auth.Tracker.{
  InvocationTracker, match_children, match_root, find_match, above_root, write_match,
  maybe_extend_invocation_match, is_nil, last_or, set_last, current_frame_is_already_matched,
  is_matched,
}
use rs_soroban_env.Auth.Tracker.Uses.{
  Used, here, After, After-within, if_equal_lem, match_children-After,
  at_last_authorized_invocation-After,
}

-- A stack that is not empty has its top whatever the default.
last_lem :
    (m a b : MatchState) (stack : List MatchState)
    → last_or a (set_last (b ∷ stack) m) ≡ last_or unmatched (set_last (b ∷ stack) m)
last_lem m a b [] = refl
last_lem m a b (c ∷ stack) = refl

-- A write to the top of a stack.
set_last_lem :
    (m : MatchState) (stack : List MatchState)
    → is_nil stack ≡ false
    → (last_or unmatched (set_last stack m) ≡ m) × (length (set_last stack m) ≡ length stack)
set_last_lem m [] n = absurd (cc)
set_last_lem m (a ∷ []) n = (refl, refl)
set_last_lem m (a ∷ b ∷ stack) n =
    let (p, q) = set_last_lem m (b ∷ stack) refl in (last_lem m a b stack ∙ p, ap suc q)

module _ {S CreateArgs : Type 0} (host : AuthHost S CreateArgs)
    (function : AuthorizedFunction CreateArgs) where
  -- A node of the tree is used up, and the match stack stays.
  unfoldable pub UsedIn : InvocationTracker CreateArgs → InvocationTracker CreateArgs → Type 0
  UsedIn t t' =
      Used host function t.root_authorized_invocation t'.root_authorized_invocation
      × (t'.match_stack ≡ t.match_stack)

  match_root-After :
      (allow : Bool) (root : AuthorizedInvocation CreateArgs) (t : InvocationTracker CreateArgs)
      (s : S)
      → After UsedIn
          (record t { root_authorized_invocation = root })
          (match_root host function allow root
            (record t { root_authorized_invocation = root }, s)).0
          (match_root host function allow root
            (record t { root_authorized_invocation = root }, s)).1.0
  unfolding match_root UsedIn
  match_root-After false (invocation f subs true) t s = refl
  match_root-After true (invocation f subs true) t s = refl
  match_root-After false (invocation f subs false) t s = refl
  match_root-After true (invocation f subs false) t s =
      let t' = record t { root_authorized_invocation = invocation f subs false } in
      let (res, s') = compare_function host f function s in
      if_equal_lem
        (λ (out : Result MatchState × (InvocationTracker CreateArgs × S)).
          After UsedIn t' out.0 out.1.0)
        res (λ e. (err e, (t', s')))
        (
          ok root_match,
          (
            record t' {
              root_authorized_invocation = invocation f subs true;
              root_exhausted_frame = some (length t.match_stack - 1);
            },
            s',
          ),
        )
        (ok unmatched, (t', s')) (λ e. refl) (λ p. (here s p, refl)) refl

  find_match-After :
      (allow : Bool) (matches : Result (Option (List MatchState)))
      (t : InvocationTracker CreateArgs) (s : S)
      → After UsedIn t
          (find_match host function allow matches (t, s)).0
          (find_match host function allow matches (t, s)).1.0
  unfolding find_match UsedIn
  find_match-After allow (err e) t s = refl
  find_match-After allow (ok none) t s = match_root-After allow t.root_authorized_invocation t s
  find_match-After allow (ok (some matches)) t s =
      After-within (Used host function) UsedIn
        (λ root. record t { root_authorized_invocation = root }) (λ a b u. (u, refl)) _ _ _
        (at_last_authorized_invocation-After host function matches (match_children host function)
          (match_children-After host function) t.root_authorized_invocation s)

  -- What an attempt to extend the match does: it uses one node up and the frame is matched then, or it
  -- leaves the tracker as it was.
  abbrev pub Extended :
      InvocationTracker CreateArgs → Result Bool × (InvocationTracker CreateArgs × S) → Type 0
  Extended t (ok true, (t', s)) =
      Used host function t.root_authorized_invocation t'.root_authorized_invocation
      × (current_frame_is_already_matched t' ≡ true)
      × (length t'.match_stack ≡ length t.match_stack)
  Extended t (ok false, (t', s)) = t ≡ t'
  Extended t (err _, (t', s)) = t ≡ t'

  write_match-Extended :
      (t t' : InvocationTracker CreateArgs) (s : S) (m : MatchState)
      → is_matched m ≡ true
      → is_nil t.match_stack ≡ false
      → UsedIn t t'
      → Extended t (write_match host m (t', s))
  unfolding write_match UsedIn current_frame_is_already_matched
  write_match-Extended t t' s m h n (u, p) =
      let n' : is_nil t'.match_stack ≡ false = ap is_nil p ∙ n in
      let (q, l) = set_last_lem m t'.match_stack n' in
      rw (h, n') (u, ap is_matched q ∙ h, l ∙ ap length p)

  write_found_lem :
      (t t' : InvocationTracker CreateArgs) (s : S) (r : Result MatchState)
      → is_nil t.match_stack ≡ false
      → After UsedIn t r t'
      → Extended t (((λ _. (r, (t', s))) >>= write_match host) (t', s))
  write_found_lem t t' s (ok unmatched) n p = unfold write_match in p
  write_found_lem t t' s (ok root_match) n p = write_match-Extended t t' s root_match refl n p
  write_found_lem t t' s (ok (sub_match i)) n p = write_match-Extended t t' s (sub_match i) refl n p
  write_found_lem t t' s (err e) n p = p

  -- An attempt to extend the match that returns true exhausts exactly one node of the authorized tree,
  -- one that was not exhausted and whose function the host compares as equal to the function called,
  -- keeps the height of the match stack and leaves the frame matched; one that returns false or an error
  -- leaves the tracker as it was. The match stack is not empty.
  pub maybe_extend_invocation_match-Extended :
      (allow_matching_root : Bool) (t : InvocationTracker CreateArgs) (s : S)
      → is_nil t.match_stack ≡ false
      → Extended t (maybe_extend_invocation_match host function allow_matching_root (t, s))
  unfolding maybe_extend_invocation_match
  maybe_extend_invocation_match-Extended allow t s n =
      let matches = above_root t.match_stack in
      let (r, (t', s')) = find_match host function allow matches (t, s) in
      elim (Bool-cases (current_frame_is_already_matched t)) [
        | inl e ↦ rw e refl
        | inr e ↦ rw e (write_found_lem t t' s' r n (find_match-After allow matches t s))
      ]
