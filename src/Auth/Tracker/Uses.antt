-- ===== src/Auth/Tracker/Uses.antt =====
-- Which authorized node a match uses up.
use rs_soroban_env.Prelude.{ℕ, zero, suc, ◌≡◌, refl, ap, Bool, true, false, List, [], ◌∷◌, Ordering}
use Prim.Native.Nat.Ordering.{lt, eq, gt}
use rs_soroban_env.Errors.{Error, Result, ok, err}
use rs_soroban_env.Errors.Exec.{Exec}
use rs_soroban_env.Auth.Function.{AuthorizedFunction, AuthHost, compare_function}
use rs_soroban_env.Auth.Invocation.{
  AuthorizedInvocation, invocation, SubInvocations, MatchState, unmatched, root_match, sub_match,
  at_index, at_last_authorized_invocation,
}
use rs_soroban_env.Auth.Tracker.{match_subs, match_children, if_equal}

-- What a match did to the tree: a match used a part of it up, and all else left it as it was.
abbrev pub After : {T : Type 0} → (T → T → Type 0) → T → Result MatchState → T → Type 0
After U a (ok unmatched) b = a ≡ b
After U a (ok root_match) b = U a b
After U a (ok (sub_match _)) b = U a b
After U a (err _) b = a ≡ b

-- The same, seen from where the part stands.
pub After-within :
    {T T' : Type 0} (U : T → T → Type 0) (V : T' → T' → Type 0) (g : T → T')
    → ((a b : T) → U a b → V (g a) (g b))
    → (a b : T) (r : Result MatchState) → After U a r b
    → After V (g a) r (g b)
After-within U V g h a b (ok unmatched) p = ap g p
After-within U V g h a b (ok root_match) p = h a b p
After-within U V g h a b (ok (sub_match _)) p = h a b p
After-within U V g h a b (err _) p = ap g p

pub if_equal_lem :
    {A : Type 0} (P : A → Type 0) (r : Result Ordering) (failed : Error → A) (equal other : A)
    → ((e : Error) → P (failed e))
    → (r ≡ ok eq → P equal)
    → P other
    → P (if_equal r failed equal other)
if_equal_lem P (err e) failed equal other p q o = p e
if_equal_lem P (ok lt) failed equal other p q o = o
if_equal_lem P (ok eq) failed equal other p q o = q refl
if_equal_lem P (ok gt) failed equal other p q o = o

module _ {S CreateArgs : Type 0} (host : AuthHost S CreateArgs)
    (function : AuthorizedFunction CreateArgs) where
  mutual
    -- One node that was not exhausted and has this function is exhausted now.
    pub data Used : AuthorizedInvocation CreateArgs → AuthorizedInvocation CreateArgs → Type 0 where
      here :
          {f : AuthorizedFunction CreateArgs} {subs : SubInvocations CreateArgs} (s : S)
          → (compare_function host f function s).0 ≡ ok eq
          → Used (invocation f subs false) (invocation f subs true)
      below :
          {f : AuthorizedFunction CreateArgs} {exhausted : Bool}
          {subs subs' : SubInvocations CreateArgs}
          → UsedSubs subs subs'
          → Used (invocation f subs exhausted) (invocation f subs' exhausted)

    pub data UsedSubs : SubInvocations CreateArgs → SubInvocations CreateArgs → Type 0 where
      first :
          {i i' : AuthorizedInvocation CreateArgs} {subs : SubInvocations CreateArgs}
          → Used i i'
          → UsedSubs (SubInvocations.cons i subs) (SubInvocations.cons i' subs)
      later :
          {i : AuthorizedInvocation CreateArgs} {subs subs' : SubInvocations CreateArgs}
          → UsedSubs subs subs'
          → UsedSubs (SubInvocations.cons i subs) (SubInvocations.cons i subs')

  match_subs-After :
      (index : ℕ) (subs : SubInvocations CreateArgs) (s : S)
      → After UsedSubs subs
          (match_subs host function index (subs, s)).0
          (match_subs host function index (subs, s)).1.0
  unfolding match_subs
  match_subs-After index SubInvocations.nil s = refl
  match_subs-After index (SubInvocations.cons (invocation f ss true) subs) s =
      After-within UsedSubs UsedSubs (SubInvocations.cons (invocation f ss true)) (λ a b u. later u)
        _ _ _ (match_subs-After (suc index) subs s)
  match_subs-After index (SubInvocations.cons (invocation f ss false) subs) s =
      let kept = SubInvocations.cons (invocation f ss false) in
      let (res, s₁) = compare_function host f function s in
      let rest = match_subs host function (suc index) (subs, s₁) in
      if_equal_lem
        (λ (out : Result MatchState × (SubInvocations CreateArgs × S)).
          After UsedSubs (kept subs) out.0 out.1.0)
        res (λ e. (err e, (kept subs, s₁)))
        (ok (sub_match index), (SubInvocations.cons (invocation f ss true) subs, s₁))
        (rest.0, (kept rest.1.0, rest.1.1)) (λ e. refl) (λ p. first (here s p))
        (After-within UsedSubs UsedSubs kept (λ a b u. later u) _ _ _
          (match_subs-After (suc index) subs s₁))

  pub match_children-After :
      (i : AuthorizedInvocation CreateArgs) (s : S)
      → After Used i
          (match_children host function (i, s)).0
          (match_children host function (i, s)).1.0
  unfolding match_children
  match_children-After (invocation f subs exhausted) s =
      After-within UsedSubs Used (λ x. invocation f x exhausted) (λ a b u. below u) _ _ _
        (match_subs-After 0 subs s)

  at_index-After :
      (n : ℕ) (step : Exec (AuthorizedInvocation CreateArgs × S) MatchState)
      → ((i : AuthorizedInvocation CreateArgs) (s : S)
          → After Used i (step (i, s)).0 (step (i, s)).1.0)
      → (subs : SubInvocations CreateArgs) (s : S)
      → After UsedSubs subs (at_index n step (subs, s)).0 (at_index n step (subs, s)).1.0
  unfolding at_index
  at_index-After zero step h SubInvocations.nil s = refl
  at_index-After (suc n) step h SubInvocations.nil s = refl
  at_index-After zero step h (SubInvocations.cons i subs) s =
      After-within Used UsedSubs (λ x. SubInvocations.cons x subs) (λ a b u. first u) _ _ _ (h i s)
  at_index-After (suc n) step h (SubInvocations.cons i subs) s =
      After-within UsedSubs UsedSubs (SubInvocations.cons i) (λ a b u. later u) _ _ _
        (at_index-After n step h subs s)

  pub at_last_authorized_invocation-After :
      (matches : List MatchState) (step : Exec (AuthorizedInvocation CreateArgs × S) MatchState)
      → ((i : AuthorizedInvocation CreateArgs) (s : S)
          → After Used i (step (i, s)).0 (step (i, s)).1.0)
      → (i : AuthorizedInvocation CreateArgs) (s : S)
      → After Used i
          (at_last_authorized_invocation matches step (i, s)).0
          (at_last_authorized_invocation matches step (i, s)).1.0
  unfolding at_last_authorized_invocation
  at_last_authorized_invocation-After [] step h i s = h i s
  at_last_authorized_invocation-After (unmatched ∷ ms) step h i s =
      at_last_authorized_invocation-After ms step h i s
  at_last_authorized_invocation-After (root_match ∷ ms) step h i s = refl
  at_last_authorized_invocation-After (sub_match n ∷ ms) step h (invocation f subs exhausted) s =
      After-within UsedSubs Used (λ x. invocation f x exhausted) (λ a b u. below u) _ _ _
        (at_index-After n (at_last_authorized_invocation ms step)
          (at_last_authorized_invocation-After ms step h) subs s)
