-- ===== src/Auth/Account.antt =====
-- `AccountAuthorizationTracker` and `Host::consume_nonce` of soroban-env-host/src/auth.rs: the tree that
-- an address authorized, its signature and its nonce. Signatures, payloads and storage keys are numbers;
-- what the host does outside auth.rs is an argument.
pub mod Nonce
pub mod Granted
use rs_soroban_env.Prelude.{ℕ, max, Bool, true, false, ltb, if◌then◌else◌, Option, none, some}
use rs_soroban_env.Prelude.Int.{ℤ}
use rs_soroban_env.Errors.{Error, Result, ok, err, error, ScErrorType, ScErrorCode}
use rs_soroban_env.Errors.Exec.{Exec, ◌>>=◌, ◌>>◌, pure, throw, lift}
use rs_soroban_env.Storage.Ledger.{
  LedgerInfo, ContractDataDurability, temporary, persistent, max_live_until_ledger,
  get_min_live_until_ledger,
}
use rs_soroban_env.Frames.Run.{is_recoverable}
use rs_soroban_env.Auth.Function.{AuthorizedFunction, AuthHost}
use rs_soroban_env.Auth.Invocation.{
  AuthorizedInvocation, AuthorizedInvocationSnapshot, auth_internal,
}
use rs_soroban_env.Auth.Tracker.{
  InvocationTracker, maybe_extend_invocation_match, snapshot_tracker, rollback_tracker,
}
use rs_soroban_env.Auth.Tracker

pub record AccountAuthorizationTracker (CreateArgs : Type 0) : Type 0 where
  pub address : ℕ
  pub invocation_tracker : InvocationTracker CreateArgs
  pub signature : ℕ
  pub is_transaction_source_account : Bool
  pub verified : Bool
  pub nonce : Option (ℤ × ℕ)

pub record AccountAuthorizationTrackerSnapshot : Type 0 where
  pub invocation_tracker_root_snapshot : AuthorizedInvocationSnapshot
  pub verified : Bool

pub data ScAddress : Type 0 where
  account : ℕ → ScAddress
  contract : ℕ → ScAddress
  other_address : ScAddress

-- The host's part in the authorization of an account: its comparisons, the address behind an object, the
-- hash of what was signed, the two ways to check a signature, and the storage of nonces. Custom accounts
-- run contracts, which may reach all of the manager `M`; comparisons and charges do not.
pub record AccountHost (M S CreateArgs : Type 0) : Type 0 where
  pub auth_host : AuthHost S CreateArgs
  pub scaddress_from_address : ℕ → Exec (M × S) ScAddress
  pub signature_payload : ℤ → ℕ → AuthorizedInvocation CreateArgs → Exec (M × S) ℕ
  pub check_account_authentication : ℕ → ℕ → ℕ → Exec (M × S) (Unit {0})
  pub check_account_contract_auth :
      ℕ → ℕ → ℕ → AuthorizedInvocation CreateArgs → Exec (M × S) (Unit {0})
  pub ledger_info : M × S → Result LedgerInfo
  pub storage_key_for_address : ScAddress → ℤ → Exec (M × S) ℕ
  pub has : ℕ → Exec (M × S) Bool
  pub charge_entry : Exec (M × S) (Unit {0})
  pub put : ℕ → ℕ → Exec (M × S) (Unit {0})

abbrev pub auth_invalid_action : Error
auth_invalid_action = error ScErrorType.auth ScErrorCode.invalid_action

abbrev pub auth_invalid_input : Error
auth_invalid_input = error ScErrorType.auth ScErrorCode.invalid_input

abbrev pub auth_existing_value : Error
auth_existing_value = error ScErrorType.auth ScErrorCode.existing_value

-- `map_err` on a failed authentication.
unfoldable pub decorate : Error → Error
unfolding is_recoverable
decorate e = if is_recoverable e then auth_invalid_action else e

abbrev pub map_err : {S A : Type 0} → (Error → Error) → Exec S A → Exec S A
map_err f m s = let (res, s') = m s in (elim res [ err e ↦ err (f e) | ok a ↦ ok a ], s')

abbrev pub bind_ledger : {A : Type 0} → Result LedgerInfo → (LedgerInfo → Result A) → Result A
bind_ledger (err e) f = err e
bind_ledger (ok li) f = f li

-- A step beside a part of the state that it does not reach.
abbrev pub beside : {M S A : Type 0} → Exec S A → Exec (M × S) A
beside step (m, s) = let (res, s') = step s in (res, (m, s'))

module _ {M S CreateArgs : Type 0} (host : AccountHost M S CreateArgs) where
  -- The entry of a nonce lives as long as the signature, and at least as long as a temporary entry.
  unfoldable pub store_nonce : ℕ → ℕ → Bool → Exec (M × S) (Unit {0})
  store_nonce key live_until true = throw auth_existing_value
  store_nonce key live_until false = host.charge_entry >> host.put key live_until

  unfoldable pub consume_nonce : ℕ → ℤ → ℕ → Exec (M × S) (Unit {0})
  unfolding get_min_live_until_ledger store_nonce
  consume_nonce address nonce live_until_ledger =
      host.scaddress_from_address address >>= λ sc_address.
      beside host.auth_host.charge_clone
      >> beside host.auth_host.charge_clone
      >> (host.storage_key_for_address sc_address nonce >>= λ key.
          lift
            (λ s. bind_ledger (host.ledger_info s) (λ li. get_min_live_until_ledger li temporary))
          >>= λ least. host.has key >>= store_nonce key (max live_until_ledger least))

  unfoldable pub check_latest : ℕ → ℕ → Exec (M × S) (Unit {0})
  check_latest live_until_ledger latest =
      if ltb latest live_until_ledger then throw auth_invalid_input else pure tt

  -- The checks of the ledger that a signature is for.
  unfoldable pub check_expiration : ℕ → LedgerInfo → Exec (M × S) (Unit {0})
  unfolding max_live_until_ledger check_latest
  check_expiration live_until_ledger li =
      if ltb live_until_ledger li.sequence_number
      then throw auth_invalid_input
      else (lift (λ s. bind_ledger (host.ledger_info s) max_live_until_ledger)
          >>= check_latest live_until_ledger)

  unfoldable pub verify_nonce : ℕ → Option (ℤ × ℕ) → Exec (M × S) (Unit {0})
  unfolding check_expiration consume_nonce
  verify_nonce address none = throw auth_internal
  verify_nonce address (some (nonce, live_until_ledger)) =
      lift host.ledger_info
      >>= check_expiration live_until_ledger
      >> consume_nonce address nonce live_until_ledger

  unfoldable pub verify_and_consume_nonce :
      AccountAuthorizationTracker CreateArgs → Exec (M × S) (Unit {0})
  unfolding verify_nonce
  verify_and_consume_nonce t =
      if t.is_transaction_source_account then pure tt else verify_nonce t.address t.nonce

  unfoldable pub get_signature_payload : AccountAuthorizationTracker CreateArgs → Exec (M × S) ℕ
  get_signature_payload t = elim t.nonce [
    | none ↦ throw auth_internal
    | some (nonce, live_until_ledger) ↦
        host.signature_payload nonce live_until_ledger
          t.invocation_tracker.root_authorized_invocation
  ]

  unfoldable pub check_signature :
      AccountAuthorizationTracker CreateArgs → ScAddress → ℕ → Exec (M × S) (Unit {0})
  check_signature t (account acc) payload =
      host.check_account_authentication acc payload t.signature
  check_signature t (contract id) payload =
      host.check_account_contract_auth id payload t.signature
        t.invocation_tracker.root_authorized_invocation
  check_signature t other_address payload =
      throw (error ScErrorType.object ScErrorCode.internal_error)

  unfoldable pub authenticate : AccountAuthorizationTracker CreateArgs → Exec (M × S) (Unit {0})
  unfolding get_signature_payload check_signature
  authenticate t =
      if t.is_transaction_source_account
      then pure tt
      else (host.scaddress_from_address t.address >>= λ sc_addr.
          get_signature_payload t >>= check_signature t sc_addr)

  -- The verification of a tracker that has found a match.
  unfoldable pub verify : Exec (AccountAuthorizationTracker CreateArgs × (M × S)) Bool
  unfolding decorate authenticate verify_and_consume_nonce
  verify (t, s) =
      let (res, s') = (map_err decorate (authenticate t) >> verify_and_consume_nonce t) s in
      if t.verified then (ok true, (t, s)) else elim res [
        | err e ↦ (err e, (t, s'))
        | ok _ ↦ (ok true, (record t { verified = true }, s'))
      ]

  unfoldable pub verify_match : Bool → Exec (AccountAuthorizationTracker CreateArgs × (M × S)) Bool
  unfolding verify
  verify_match false = pure false
  verify_match true = verify

  unfoldable pub maybe_authorize_invocation :
      AuthorizedFunction CreateArgs
      → Bool
      → Exec (AccountAuthorizationTracker CreateArgs × (M × S)) Bool
  unfolding maybe_extend_invocation_match verify_match
  maybe_authorize_invocation function allow_matching_root (t, (m, s)) =
      let (res, (tracker, s₁)) =
        maybe_extend_invocation_match host.auth_host function allow_matching_root
          (t.invocation_tracker, s) in
      ((λ _. (res, (record t { invocation_tracker = tracker }, (m, s₁)))) >>= verify_match)
        (record t { invocation_tracker = tracker }, (m, s₁))

module _ {S CreateArgs : Type 0} (host : AuthHost S CreateArgs) where
  unfoldable pub push_frame : Exec (AccountAuthorizationTracker CreateArgs × S) (Unit {0})
  unfolding Tracker.push_frame
  push_frame (t, s) =
      let (res, (tracker, s')) = Tracker.push_frame host (t.invocation_tracker, s) in
      (res, (record t { invocation_tracker = tracker }, s'))

  unfoldable pub snapshot :
      AccountAuthorizationTracker CreateArgs → Exec S AccountAuthorizationTrackerSnapshot
  unfolding snapshot_tracker
  snapshot t s =
      let (res, (tracker, s')) = snapshot_tracker host (t.invocation_tracker, s) in
      elim res [
        | err e ↦ (err e, s')
        | ok root ↦
            (ok (record { invocation_tracker_root_snapshot = root; verified = t.verified }), s')
      ]

unfoldable pub pop_frame :
    {CreateArgs : Type 0}
    → AccountAuthorizationTracker CreateArgs
    → AccountAuthorizationTracker CreateArgs
unfolding Tracker.pop_frame
pop_frame t = record t { invocation_tracker = Tracker.pop_frame t.invocation_tracker }

unfoldable pub rollback :
    {CreateArgs : Type 0}
    → AccountAuthorizationTracker CreateArgs
    → AccountAuthorizationTrackerSnapshot
    → Result (Unit {0}) × AccountAuthorizationTracker CreateArgs
unfolding rollback_tracker
rollback t snap =
    let (res, tracker) =
      rollback_tracker t.invocation_tracker snap.invocation_tracker_root_snapshot in
    elim res [
      | err e ↦ (err e, record t { invocation_tracker = tracker })
      | ok _ ↦ (ok tt, record t { invocation_tracker = tracker; verified = snap.verified })
    ]
