-- ===== src/Auth/Account/Granted.antt =====
-- What the tracker of an account grants: the authorization of one call, and what it verified for it.
use rs_soroban_env.Prelude.{◌≡◌, refl, ap, Bool, true, false, if◌then◌else◌, ◌⊎◌, inl, inr, arith}
use rs_soroban_env.Errors.{Result, ok, err}
use rs_soroban_env.Errors.Exec.{◌>>=◌, ◌>>◌}
use rs_soroban_env.Errors.Kept.{after_any}
use rs_soroban_env.Auth.Function.{AuthorizedFunction}
use rs_soroban_env.Auth.Tracker.{InvocationTracker, is_nil, current_frame_is_already_matched}
use rs_soroban_env.Auth.Tracker.Uses.{Used}
use rs_soroban_env.Auth.Tracker.Extended.{Extended, maybe_extend_invocation_match-Extended}
use rs_soroban_env.Auth.Account.{
  AccountAuthorizationTracker, AccountHost, map_err, decorate, authenticate,
  verify_and_consume_nonce, verify, verify_match, maybe_authorize_invocation,
}
use rs_soroban_env.Auth.Account.Nonce.{Usable, IfUsable, verify_and_consume_nonce-IfUsable}

module _ {M S CreateArgs : Type 0} (host : AccountHost M S CreateArgs) where
  -- The tracker was authenticated, and may be used.
  pub record Checked (t : AccountAuthorizationTracker CreateArgs) (after : M × S) : Type 0 where
    pub begun_at : M × S
    pub authenticated_at : M × S
    pub authenticated : authenticate host t begun_at ≡ (ok tt, authenticated_at)
    pub usable : Usable host t authenticated_at after

  abbrev pub IfChecked :
      AccountAuthorizationTracker CreateArgs → Result (Unit {0}) × (M × S) → Type 0
  IfChecked t (ok _, after) = Checked t after
  IfChecked t (err _, after) = Unit

  map_err_ok :
      (t : AccountAuthorizationTracker CreateArgs) (s : M × S) (u : Unit {0})
      → (map_err decorate (authenticate host t) s).0 ≡ ok u
      → authenticate host t s ≡ (ok tt, (authenticate host t s).1)
  map_err_ok t s u p = ground (arith, p)

  IfUsable-IfChecked :
      (t : AccountAuthorizationTracker CreateArgs) (s s₁ : M × S)
      → authenticate host t s ≡ (ok tt, s₁)
      → (out : Result (Unit {0}) × (M × S)) → IfUsable host t s₁ out
      → IfChecked t out
  IfUsable-IfChecked t s s₁ e (ok u, after) h = record {
    begun_at = s;
    authenticated_at = s₁;
    authenticated = e;
    usable = h;
  }
  IfUsable-IfChecked t s s₁ e (err x, after) h = tt

  authenticated-IfChecked :
      (t : AccountAuthorizationTracker CreateArgs) (s : M × S)
      → IfChecked t ((map_err decorate (authenticate host t) >> verify_and_consume_nonce host t) s)
  authenticated-IfChecked t s =
      after_any (IfChecked t) (λ u. verify_and_consume_nonce host t)
        (map_err decorate (authenticate host t)) s (λ e h. tt)
        (λ u h.
          IfUsable-IfChecked t s (authenticate host t s).1 (map_err_ok t s u h) _
            (verify_and_consume_nonce-IfUsable host t (authenticate host t s).1))

  -- The same tracker, with its match extended.
  abbrev pub moved :
      AccountAuthorizationTracker CreateArgs
      → AccountAuthorizationTracker CreateArgs
      → AccountAuthorizationTracker CreateArgs
  moved t t' = record t { invocation_tracker = t'.invocation_tracker }

  -- What an attempt of an account's tracker to authorize a function did.
  abbrev pub Granted :
      AuthorizedFunction CreateArgs
      → AccountAuthorizationTracker CreateArgs
      → M
      → Result Bool × (AccountAuthorizationTracker CreateArgs × (M × S))
      → Type 0
  Granted function t m (ok true, (t', after)) =
      Used host.auth_host function t.invocation_tracker.root_authorized_invocation
        t'.invocation_tracker.root_authorized_invocation
      × (current_frame_is_already_matched t'.invocation_tracker ≡ true)
      × (t' ≡ record (moved t t') { verified = true })
      × ((t.verified ≡ true) ⊎ Checked (moved t t') after)
  Granted function t m (ok false, (t', after)) = (t ≡ t') × (m ≡ after.0)
  Granted function t m (err _, (t', after)) = t' ≡ moved t t'

  module _ (function : AuthorizedFunction CreateArgs) (t : AccountAuthorizationTracker CreateArgs)
      (m : M) where
    by_result :
        (tracker : InvocationTracker CreateArgs) (s : M × S)
        → Used host.auth_host function t.invocation_tracker.root_authorized_invocation
            tracker.root_authorized_invocation
        → current_frame_is_already_matched tracker ≡ true
        → (verified : Bool) → t.verified ≡ verified
        → (out : Result (Unit {0}) × (M × S))
        → IfChecked (record t { invocation_tracker = tracker }) out
        → Granted function t m (
            if verified
            then (ok true, (record t { invocation_tracker = tracker }, s))
            else elim out.0 [
              | err e ↦ (err e, (record t { invocation_tracker = tracker }, out.1))
              | ok _ ↦
                  (ok true, (record t { invocation_tracker = tracker; verified = true }, out.1))
            ])
    by_result tracker s u h true e out c =
        (u, h, ap (λ b. record t { invocation_tracker = tracker; verified = b }) e, inl e)
    by_result tracker s u h false e (ok v, after) c = (u, h, refl, inr c)
    by_result tracker s u h false e (err x, after) c = refl

    verify-Granted :
        (tracker : InvocationTracker CreateArgs) (s : M × S)
        → Used host.auth_host function t.invocation_tracker.root_authorized_invocation
            tracker.root_authorized_invocation
        → current_frame_is_already_matched tracker ≡ true
        → Granted function t m (verify host (record t { invocation_tracker = tracker }, s))
    unfolding verify
    verify-Granted tracker s u h =
        by_result tracker s u h t.verified refl _
          (authenticated-IfChecked (record t { invocation_tracker = tracker }) s)

    after_match :
        (out : Result Bool × (InvocationTracker CreateArgs × S))
        → Extended host.auth_host function t.invocation_tracker out
        → Granted function t m (
            ((λ _. (out.0, (record t { invocation_tracker = out.1.0 }, (m, out.1.1))))
                >>= verify_match host)
              (record t { invocation_tracker = out.1.0 }, (m, out.1.1)))
    unfolding verify_match
    after_match (ok true, (tracker, s)) (u, h, _) = verify-Granted tracker (m, s) u h
    after_match (ok false, (tracker, s)) p = (ap (λ x. record t { invocation_tracker = x }) p, refl)
    after_match (err x, (tracker, s)) p = refl

  -- An account's tracker that authorizes a call uses up one node of its tree, of the function called, and
  -- was verified: before, or in this call, by an authentication that succeeded and then, unless it is of
  -- the transaction's source account, a timely signature and a nonce of its address stored for the first time. One that
  -- returns false is left as it was, with all the rest of the manager, and one that fails keeps its
  -- address, signature, nonce and verification. There is a frame.
  pub maybe_authorize_invocation-Granted :
      (function : AuthorizedFunction CreateArgs) (allow_matching_root : Bool)
      (t : AccountAuthorizationTracker CreateArgs) (m : M) (s : S)
      → is_nil t.invocation_tracker.match_stack ≡ false
      → Granted function t m
          (maybe_authorize_invocation host function allow_matching_root (t, (m, s)))
  unfolding maybe_authorize_invocation
  maybe_authorize_invocation-Granted function allow t m s n = after_match function t m _ (
      maybe_extend_invocation_match-Extended host.auth_host function allow t.invocation_tracker s n)
