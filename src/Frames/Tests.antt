-- ===== src/Frames/Tests.antt =====
-- A small host and the theorems on it.
use rs_soroban_env.Prelude.{
  List, ℕ, ◌+◌, ◌≡◌, refl, sym, true, ◌==◌, if◌then◌else◌, none, some, [], ◌∷◌, length,
}
use mathlib.Core.List.{append-nil}
use rs_soroban_env.Errors.{Error, Result, ok, err, error, ScErrorType, ScErrorCode, is_ok}
use rs_soroban_env.Errors.Exec.{Exec, pure}
use rs_soroban_env.Frames.Events.{from_failed_call, from_successful_call}
use rs_soroban_env.Frames.Stack.{Frame, Context, Host, Parts, TraceEvent, stellar_asset_contract}
use rs_soroban_env.Frames.Run.{with_frame, call_any_lifecycle_hook, invalid_action}
use rs_soroban_env.Frames.Calls.{Callee, stellar_asset, default_external_call, call_n_internal}
use rs_soroban_env.Frames.Run.Outcome.{Below, Framed, with_frame_lem}
use rs_soroban_env.Frames.Run.Programs.{Program, write, emit, give, then_, try_, run, run_lem}

abbrev AFrame : Type 0
AFrame = Frame ℕ ℕ ℕ

abbrev AContext : Type 0
AContext = Context ℕ ℕ ℕ ℕ

-- The rest of the host counts the steps that are charged; the map is a number, and 7 is an error value.
abbrev charged : Exec ℕ (Unit {0})
charged n = (ok tt, n + 1)

abbrev contract_error : Error
contract_error = error ScErrorType.contract (ScErrorCode.contract_code 3)

abbrev parts : Parts AFrame AContext ℕ ℕ ℕ (Unit {0}) ℕ
parts = record {
  push_frame = λ frame. charged;
  pop_frame = λ snapshot. charged;
  charge_clone_map = λ m. charged;
  charge_push = charged;
  charge_clone_id = λ id. charged;
  trace_hook = none;
  maybe_emulate_authentication = pure tt;
  instance_storage_map_to_scmap = λ entries n. (ok (length entries), n + 1);
  store_contract_instance = λ scmap id (m, n). (ok tt, (scmap, n + 1));
  error_of_val = λ v. if v == 7 then some contract_error else none;
}

abbrev start : Host ℕ ℕ ℕ ℕ ℕ ℕ ℕ
start = record {
  context_stack = [];
  storage = 10;
  events = (1, from_successful_call) ∷ [];
  rest = 0;
}

abbrev token : AFrame
token = stellar_asset_contract 5 0 [] 0

-- A write and an event, and a call that fails after its own.
abbrev program : Program ℕ ℕ AFrame
program =
    then_ (write (λ m. m + 1))
      (then_ (emit 2) (try_ token (then_ (write (λ m. m + 100)) (then_ (emit 3) (give (ok 7))))))

abbrev outcome : Result ℕ × Host ℕ ℕ ℕ ℕ ℕ ℕ ℕ
outcome = with_frame (λ vm. vm) parts token (run ℕ (λ vm. vm) (λ e. 9) parts program) start

-- The call that fails is undone, and the rest stays.
outcome_value : outcome.0 ≡ ok 9
unfolding with_frame run
outcome_value = refl

outcome_storage : outcome.1.storage ≡ 11
unfolding with_frame run
outcome_storage = refl

outcome_events :
    outcome.1.events
    ≡ (1, from_successful_call) ∷ (2, from_successful_call) ∷ (3, from_failed_call) ∷ []
unfolding with_frame run
outcome_events = refl

hook_ok :
    (event : TraceEvent AContext) (h : Host ℕ ℕ ℕ ℕ ℕ ℕ ℕ)
    → is_ok (call_any_lifecycle_hook (λ vm. vm) parts event h).0 ≡ true
unfolding call_any_lifecycle_hook
hook_ok event h = refl

unchanged : (h : Host ℕ ℕ ℕ ℕ ℕ ℕ ℕ) → Below h h
unchanged h = (refl, refl, ([], sym (append-nil h.events)))

with_frame_lem_example :
    Framed parts.error_of_val start
      (with_frame (λ vm. vm) parts token (λ (h : Host ℕ ℕ ℕ ℕ ℕ ℕ ℕ). (ok 7, h)) start)
with_frame_lem_example =
    with_frame_lem ℕ (λ vm. vm) parts (λ r. refl) (λ s. refl) hook_ok token
      (λ (h : Host ℕ ℕ ℕ ℕ ℕ ℕ ℕ). (ok 7, h)) unchanged start

run_lem_example :
    Below start (run ℕ (λ vm. vm) (λ e. 9) parts program start).1
    × Framed parts.error_of_val start
        (with_frame (λ vm. vm) parts token (run ℕ (λ vm. vm) (λ e. 9) parts program) start)
run_lem_example =
    run_lem ℕ (λ vm. vm) (λ e. 9) parts (λ r. refl) (λ s. refl) hook_ok program token start

abbrev callee : Callee ℕ ℕ ℕ ℕ ℕ ℕ (Host ℕ ℕ ℕ ℕ ℕ ℕ ℕ)
callee = record {
  is_same = ◌==◌;
  symbol_str = λ func n. (ok (b'f' ∷ []), n + 1);
  retrieve_instance = λ id (m, n). (ok id, (m, n + 1));
  executable = λ instance_. stellar_asset;
  charge_args = λ args. charged;
  instantiate_vm = λ id hash (m, n). (ok id, (m, n));
  invoke_function_raw = λ vm func args noop h. (ok func, h);
  call_stellar_asset = λ func args h. (ok (length args), h);
}

-- The host while contract 5 runs.
abbrev inside : Host ℕ ℕ ℕ ℕ ℕ ℕ ℕ
inside = record start { context_stack = record { frame = token; prng = none; storage = none } ∷ [] }

reentry_refused :
    (call_n_internal (λ vm. vm) parts callee 5 0 [] default_external_call inside).0
    ≡ err invalid_action
unfolding call_n_internal
reentry_refused = refl

other_called :
    (call_n_internal (λ vm. vm) parts callee 6 0 (1 ∷ 2 ∷ []) default_external_call inside).0 ≡ ok 2
unfolding call_n_internal
other_called = refl
