-- ===== src/Auth/Tests.antt =====
-- Authorization in a small host: states count the charges, and a signature is the payload itself.
use rs_soroban_env.Prelude.{
  ℕ, ◌≡◌, refl, ◌+◌, suc, compare, Ordering, Bool, true, false, ◌==◌, if◌then◌else◌, none, some,
  List, [], ◌∷◌, inr,
}
use Prim.Native.Nat.Ordering.{lt, eq, gt}
use rs_soroban_env.Prelude.Int.{pos}
use rs_soroban_env.Errors.{Result, ok, err}
use rs_soroban_env.Storage.Ledger.{LedgerInfo}
use rs_soroban_env.Auth.Function.{AuthorizedFunction, AuthHost, contract_fn, contract}
use rs_soroban_env.Auth.Invocation.{
  AuthorizedInvocation, invocation, SubInvocations, unmatched, root_match,
}
use rs_soroban_env.Auth.Tracker.{
  InvocationTracker, new_tracker, maybe_extend_invocation_match, push_frame, pop_frame,
}
use rs_soroban_env.Auth.Tracker.Runs.{Steps, done, entered, left, used, Spent, Steps-Spent}
use rs_soroban_env.Auth.Account.{
  AccountAuthorizationTracker, AccountHost, account, contract, auth_invalid_action,
  maybe_authorize_invocation,
}
use rs_soroban_env.Auth.Account.Granted.{Granted, maybe_authorize_invocation-Granted}
use rs_soroban_env.Auth.Manager.{AuthorizationManager, require_auth_enforcing}
use rs_soroban_env.Auth.Manager.Authorized.{IfAuthorized, require_auth_enforcing-IfAuthorized}
use rs_soroban_env.Auth.Manager.Frames.{snapshot}
use rs_soroban_env.Auth.Manager.Frames.Held.{held_of_manager}
use rs_soroban_env.Auth.Manager.Pop
use rs_soroban_env.Auth.Manager.Pop.{rollback}
use rs_soroban_env.Auth.Invocation.Shape.{SameShape, flags}
use rs_soroban_env.Auth.Manager.Pop.Undone.{undone, rollback-snapshot}

abbrev compare_lists : List ℕ → List ℕ → Ordering
compare_lists [] [] = eq
compare_lists [] (y ∷ ys) = lt
compare_lists (x ∷ xs) [] = gt
compare_lists (x ∷ xs) (y ∷ ys) = elim (compare x y) [
  | lt ↦ lt
  | gt ↦ gt
  | eq ↦ compare_lists xs ys
]

abbrev small_host : AuthHost ℕ ℕ
small_host = record {
  compare_address = λ a b s. (ok (compare a b), s);
  compare_symbol = λ a b s. (ok (compare a b), s);
  compare_args = λ a b s. (ok (compare_lists a b), s);
  compare_create_args = λ a b s. (ok (compare a b), s);
  charge_clone = λ s. (ok tt, suc s);
  charge_push = λ s. (ok tt, suc s);
  charge_collect = λ n s. (ok tt, s + n);
}

abbrev ledger : LedgerInfo
ledger = record {
  sequence_number = 100;
  min_temp_entry_ttl = 16;
  min_persistent_entry_ttl = 64;
  max_entry_ttl = 1000;
}

abbrev check : ℕ → ℕ → Result (Unit {0})
check payload signature = if payload == signature then ok tt else err auth_invalid_action

abbrev account_host : AccountHost (AuthorizationManager ℕ) ℕ ℕ
account_host = record {
  auth_host = small_host;
  scaddress_from_address = λ a s. (ok (account a), s);
  signature_payload = λ nonce l root s. (ok (l + 7), s);
  check_account_authentication = λ acc payload signature s. (check payload signature, s);
  check_account_contract_auth = λ id payload signature root s. (check payload signature, s);
  ledger_info = λ s. ok ledger;
  storage_key_for_address = λ address nonce s. (ok 5, s);
  has = λ key s. (ok false, s);
  charge_entry = λ s. (ok tt, s);
  put = λ key live_until s. (ok tt, s);
}

abbrev payment : AuthorizedFunction ℕ
payment = contract_fn (record { contract_address = 3; function_name = 8; args = 1 ∷ 2 ∷ [] })

abbrev swap : AuthorizedFunction ℕ
swap = contract_fn (record { contract_address = 2; function_name = 9; args = [] })

abbrev tree : Bool → Bool → AuthorizedInvocation ℕ
tree swapped transferred =
    invocation swap
      (SubInvocations.cons (invocation payment SubInvocations.nil transferred) SubInvocations.nil)
      swapped

-- A swap that calls a payment: each uses up its node of the tree.
abbrev after_calls : InvocationTracker ℕ
after_calls = record {
  root_authorized_invocation = tree true true;
  match_stack = [];
  root_exhausted_frame = some 0;
  is_fully_processed = true;
}

calls : Steps small_host (swap ∷ payment ∷ []) (new_tracker (tree false false)) 0 after_calls 2
unfolding new_tracker maybe_extend_invocation_match push_frame pop_frame
calls = entered _ _ _ _ _ (
    used swap true _ _ _ _ _ refl refl (
      entered _ _ _ _ _ (
        used payment true _ _ _ _ _ refl refl
          (left _ _ _ _ _ (left _ _ _ _ _ (done after_calls 2))))))

Steps-Spent_example : Spent small_host (swap ∷ payment ∷ []) (tree false false) (tree true true)
Steps-Spent_example = unfold new_tracker in Steps-Spent small_host calls

-- The account 5 signed the tree until ledger 200.
abbrev signed : Bool → Bool → AccountAuthorizationTracker ℕ
signed swapped verified = record {
  address = 5;
  invocation_tracker = record {
    root_authorized_invocation = tree swapped false;
    match_stack = (if swapped then root_match else unmatched) ∷ [];
    root_exhausted_frame = if swapped then some 0 else none;
    is_fully_processed = false;
  };
  signature = 207;
  is_transaction_source_account = false;
  verified = verified;
  nonce = some (pos 77, 200);
}

abbrev manager : Bool → Bool → AuthorizationManager ℕ
manager swapped verified = record {
  call_stack = contract (record { contract_address = 2; function_name = 9 }) ∷ [];
  account_trackers = record { tracker = signed swapped verified; is_borrowed = false } ∷ [];
  invoker_contract_trackers = [];
}

maybe_authorize_invocation-Granted_example :
    Granted account_host swap (signed false false) (manager false false) (
      maybe_authorize_invocation account_host swap true
        (signed false false, (manager false false, 0)))
maybe_authorize_invocation-Granted_example =
    maybe_authorize_invocation-Granted account_host swap true (signed false false)
      (manager false false) 0 refl

-- The account's authorization is found, checked and used.
authorized :
    require_auth_enforcing account_host 5 swap (manager false false, 0)
    ≡ (ok tt, (manager true true, 2))
unfolding require_auth_enforcing
authorized = refl

-- It is not there for another function.
unauthorized :
    require_auth_enforcing account_host 5 payment (manager false false, 0)
    ≡ (err auth_invalid_action, (manager false false, 0))
unfolding require_auth_enforcing
unauthorized = refl

require_auth_enforcing-IfAuthorized_example :
    IfAuthorized account_host 5 swap
      (manager false false)
      (require_auth_enforcing account_host 5 swap (manager false false, 0))
require_auth_enforcing-IfAuthorized_example =
    require_auth_enforcing-IfAuthorized account_host 5 swap (manager false false) 0 (refl, tt)

abbrev restored_manager : AuthorizationManager ℕ
restored_manager = undone (manager false false) (manager true true)

rollback-snapshot_example :
    rollback (manager true true) (held_of_manager (manager false false)) ≡ (ok tt, restored_manager)
unfolding snapshot SameShape flags
rollback-snapshot_example =
    rollback-snapshot small_host (manager false false) (manager true true) 0
      (held_of_manager (manager false false)) refl (inr (refl, refl, (refl, ((refl, tt), tt))), tt)
      tt

-- After the pop, nothing is left of what the frame used.
undone_pop :
    Pop.pop_frame (manager true true) (some (held_of_manager (manager false false)))
    ≡ (ok tt, Pop.pop_call (manager false false))
unfolding Pop.pop_frame Pop.pop_call flags
undone_pop = refl
