-- ===== src/Auth/Manager/Authorized.antt =====
-- What a call that passes `require_auth_enforcing` was authorized by.
use rs_soroban_env.Prelude.{
  ℕ, zero, suc, ◌≡◌, refl, sym, ap, ◌∙◌, subst, Bool, true, false, if◌then◌else◌, not, Option, none,
  some, List, [], ◌∷◌, length, get_elem?, set, Ordering, arith,
}
use Prim.Native.Nat.Ordering.{lt, eq, gt}
use mathlib.Core.Path.{ap₂}
use rs_soroban_env.Errors.{Result, ok, err}
use rs_soroban_env.Errors.Exec.{Exec, ◌>>=◌, pure}
use rs_soroban_env.Errors.Kept.{after_any}
use rs_soroban_env.Auth.Function.{AuthorizedFunction}
use rs_soroban_env.Auth.Tracker.{is_nil}
use rs_soroban_env.Auth.Account.{AccountAuthorizationTracker, AccountHost, beside}
use rs_soroban_env.Auth.Account.Granted.{Granted, maybe_authorize_invocation-Granted}
use rs_soroban_env.Auth.Manager.{
  Cell, AuthorizationManager, authorize_in_cell, try_tracker, try_cell, try_cells,
  find_active_tracker, require_auth_enforcing,
}

-- The trackers have an entry for the current frame.
abbrev pub InFrame : {CreateArgs : Type 0} → List (Cell CreateArgs) → Type 0
InFrame [] = Unit
InFrame (c ∷ cells) = (is_nil c.tracker.invocation_tracker.match_stack ≡ false) × InFrame cells

InFrame-get_elem? :
    {CreateArgs : Type 0} (cells : List (Cell CreateArgs)) (i : ℕ) (c : Cell CreateArgs)
    → InFrame cells
    → get_elem? cells i ≡ some c
    → is_nil c.tracker.invocation_tracker.match_stack ≡ false
InFrame-get_elem? [] i c h e = absurd (cc)
InFrame-get_elem? (d ∷ cells) zero c (p, h) e = ground (arith, p, e)
InFrame-get_elem? (d ∷ cells) (suc i) c (p, h) e = InFrame-get_elem? cells i c h e

-- A cell that is borrowed and given back as it was.
set-set-get_elem? :
    {A : Type 0} (xs : List A) (i : ℕ) (v w : A)
    → get_elem? xs i ≡ some v
    → set (set xs i w) i v ≡ xs
set-set-get_elem? [] i v w e = refl
set-set-get_elem? (x ∷ xs) zero v w e = ground (arith, e)
set-set-get_elem? (x ∷ xs) (suc i) v w e = ap (λ ys. x ∷ ys) (set-set-get_elem? xs i v w e)

module _ {S CreateArgs : Type 0} (host : AccountHost (AuthorizationManager CreateArgs) S CreateArgs)
    (address : ℕ) (function : AuthorizedFunction CreateArgs) where
  -- The manager while a cell's tracker is borrowed, and with a tracker given back.
  abbrev pub with_cell :
      AuthorizationManager CreateArgs → ℕ → Cell CreateArgs → AuthorizationManager CreateArgs
  with_cell m index cell = record m { account_trackers = set m.account_trackers index cell }

  abbrev pub give_back :
      ℕ
      → AccountAuthorizationTracker CreateArgs × (AuthorizationManager CreateArgs × S)
      → AuthorizationManager CreateArgs × S
  give_back index (t, (m, s)) = (with_cell m index (record { tracker = t; is_borrowed = false }), s)

  -- One tracker granted the call: it was free, of this address, and is free again as the grant left it.
  pub record Authorized (m : AuthorizationManager CreateArgs)
      (after : AuthorizationManager CreateArgs × S) : Type 0 where
    pub index : ℕ
    pub tracker : AccountAuthorizationTracker CreateArgs
    pub free :
        get_elem? m.account_trackers index
        ≡ some (record { tracker = tracker; is_borrowed = false })
    pub compared_at : S
    pub same_address :
        (host.auth_host.compare_address tracker.address address compared_at).0 ≡ ok eq
    pub tracker_after : AccountAuthorizationTracker CreateArgs
    pub state_after : AuthorizationManager CreateArgs × S
    pub granted :
        Granted host function tracker
          (with_cell m index (record { tracker = tracker; is_borrowed = true }))
          (ok true, (tracker_after, state_after))
    pub given_back : after ≡ give_back index (tracker_after, state_after)

  abbrev pub IfAuthorized :
      AuthorizationManager CreateArgs
      → Result (Unit {0}) × (AuthorizationManager CreateArgs × S)
      → Type 0
  IfAuthorized m (ok _, after) = Authorized m after
  IfAuthorized m (err _, after) = Unit

  module _ (m : AuthorizationManager CreateArgs)
      (next : Exec (AuthorizationManager CreateArgs × S) (Unit {0}))
      (rest : (s : S) → IfAuthorized m (next (m, s))) (index : ℕ)
      (tracker : AccountAuthorizationTracker CreateArgs)
      (free : get_elem? m.account_trackers index
        ≡ some (record { tracker = tracker; is_borrowed = false })) where
    after_attempt :
        (s₁ : S)
        → (host.auth_host.compare_address tracker.address address s₁).0 ≡ ok eq
        → (out : Result Bool
            × (AccountAuthorizationTracker CreateArgs × (AuthorizationManager CreateArgs × S)))
        → Granted host function tracker
            (with_cell m index (record { tracker = tracker; is_borrowed = true }))
            out
        → IfAuthorized m (
            ((λ _. (out.0, give_back index out.1)) >>= λ found. if found then pure tt else next)
              (give_back index out.1))
    after_attempt s₁ same (ok true, (t, (m', s))) h = record {
      index = index;
      tracker = tracker;
      free = free;
      compared_at = s₁;
      same_address = same;
      tracker_after = t;
      state_after = (m', s);
      granted = h;
      given_back = refl;
    }
    after_attempt s₁ same (ok false, (t, (m', s))) (p, q) =
        let back : with_cell m' index (record { tracker = t; is_borrowed = false }) ≡ m =
          sym (ap₂ (λ x y. with_cell x index (record { tracker = y; is_borrowed = false })) q p)
          ∙ ap (λ cells. record m { account_trackers = cells })
              (set-set-get_elem? m.account_trackers index _ _ free) in
        subst (λ x. IfAuthorized m (next (x, s))) (sym back) (rest s)
    after_attempt s₁ same (err e, (t, (m', s))) h = tt

    try_tracker-IfAuthorized :
        InFrame m.account_trackers
        → (s₁ s : S) (order : Ordering)
        → (host.auth_host.compare_address tracker.address address s₁).0 ≡ ok order
        → (allow_matching_root : Bool)
        → IfAuthorized m
            (try_tracker host function allow_matching_root index tracker next order (m, s))
    unfolding try_tracker authorize_in_cell
    try_tracker-IfAuthorized framed s₁ s lt same allow = rest s
    try_tracker-IfAuthorized framed s₁ s gt same allow = rest s
    try_tracker-IfAuthorized framed s₁ s eq same allow = after_attempt s₁ same _ (
        maybe_authorize_invocation-Granted host function allow tracker
          (with_cell m index (record { tracker = tracker; is_borrowed = true })) s
          (InFrame-get_elem? m.account_trackers index _ framed free))

  by_borrow :
      (m : AuthorizationManager CreateArgs)
      → InFrame m.account_trackers
      → (next : Exec (AuthorizationManager CreateArgs × S) (Unit {0}))
      → ((s : S) → IfAuthorized m (next (m, s)))
      → (index : ℕ) (allow_matching_root : Bool) (tracker : AccountAuthorizationTracker CreateArgs)
        (is_borrowed : Bool)
      → get_elem? m.account_trackers index
        ≡ some (record { tracker = tracker; is_borrowed = is_borrowed })
      → (s : S)
      → IfAuthorized m (
          (if is_borrowed
              then next
              else (beside (host.auth_host.compare_address tracker.address address)
                  >>= try_tracker host function allow_matching_root index tracker next))
            (m, s))
  by_borrow m framed next rest index allow tracker true e s = rest s
  by_borrow m framed next rest index allow tracker false e s =
      after_any (IfAuthorized m) (try_tracker host function allow index tracker next)
        (beside (host.auth_host.compare_address tracker.address address)) (m, s) (λ x h. tt)
        (λ order h.
          try_tracker-IfAuthorized m next rest index tracker e framed s
            (host.auth_host.compare_address tracker.address address s).1 order h allow)

  try_cell-IfAuthorized :
      (m : AuthorizationManager CreateArgs)
      → InFrame m.account_trackers
      → (next : Exec (AuthorizationManager CreateArgs × S) (Unit {0}))
      → ((s : S) → IfAuthorized m (next (m, s)))
      → (index : ℕ) (allow_matching_root : Bool) (cell : Option (Cell CreateArgs))
      → get_elem? m.account_trackers index ≡ cell
      → (s : S)
      → IfAuthorized m (try_cell host address function allow_matching_root index cell next (m, s))
  unfolding try_cell
  try_cell-IfAuthorized m framed next rest index allow none e s = tt
  try_cell-IfAuthorized m framed next rest index allow (some c) e s =
      by_borrow m framed next rest index allow c.tracker c.is_borrowed e s

  try_cells-IfAuthorized :
      (m : AuthorizationManager CreateArgs)
      → InFrame m.account_trackers
      → (allow_matching_root : Bool) (left index : ℕ) (s : S)
      → IfAuthorized m (try_cells host address function allow_matching_root left index (m, s))
  unfolding try_cells
  try_cells-IfAuthorized m framed allow zero index s = tt
  try_cells-IfAuthorized m framed allow (suc left) index s =
      try_cell-IfAuthorized m framed (try_cells host address function allow left (suc index))
        (λ s'. try_cells-IfAuthorized m framed allow left (suc index) s') index allow
        (get_elem? m.account_trackers index) refl s

  -- Where each tracker has an entry for the current frame: a call that passes was granted by the tracker of
  -- one account. It was not borrowed, its address compared as equal to the one required, it used up a
  -- node of its tree for this function, it was verified before or by an authentication in this call,
  -- and it was given back to its place as the grant left it.
  pub require_auth_enforcing-IfAuthorized :
      (m : AuthorizationManager CreateArgs) (s : S)
      → InFrame m.account_trackers
      → IfAuthorized m (require_auth_enforcing host address function (m, s))
  unfolding require_auth_enforcing
  require_auth_enforcing-IfAuthorized m s framed =
      after_any (IfAuthorized m)
        (λ has_active_tracker.
          try_cells host address function (not has_active_tracker) (length m.account_trackers) 0)
        (beside (find_active_tracker host.auth_host address m.account_trackers)) (m, s) (λ e h. tt)
        (λ active h. try_cells-IfAuthorized m framed (not active) (length m.account_trackers) 0 _)
