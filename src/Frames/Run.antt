-- ===== src/Frames/Run.antt =====
-- `with_frame` of soroban-env-host/src/host/frame.rs and the steps of its end, and `try_call` of
-- soroban-env-host/src/host.rs around a call.
pub mod Ends
pub mod Restored
pub mod Outcome
pub mod Programs
use rs_soroban_env.Prelude.{
  ℕ, ◌%◌, ◌^◌, Bool, true, false, if◌then◌else◌, not, ◌&&◌, ◌||◌, leb, ◌==◌, Option, none, some,
  List, [], ◌∷◌, length,
}
use rs_soroban_env.Errors.{Error, Result, ok, err, error, ScErrorType, ScErrorCode, is_ok}
use rs_soroban_env.Errors.Exec.{Exec, ◌>>=◌, pure, throw, lift}
use rs_soroban_env.Budget.Impl.{default_host_depth_limit}
use rs_soroban_env.Frames.Stack.{
  Frame, Context, Host, Parts, RollbackPoint, TraceEvent, push_ctx, pop_ctx, on_rest, on_storage,
  context_internal, push_context, pop_context, with_current_context_mut,
  get_current_contract_id_internal,
}

abbrev pub depth_exceeded : Error
depth_exceeded = error ScErrorType.context ScErrorCode.exceeded_limit

abbrev pub invalid_action : Error
invalid_action = error ScErrorType.context ScErrorCode.invalid_action

-- `Error::is_type` and `Error::is_code`, for the types and codes that are asked for here.
abbrev pub is_contract : ScErrorType → Bool
is_contract ScErrorType.contract = true
is_contract _ = false

abbrev pub is_storage_or_budget : ScErrorType → Bool
is_storage_or_budget ScErrorType.storage = true
is_storage_or_budget ScErrorType.budget = true
is_storage_or_budget _ = false

abbrev pub is_internal_error : ScErrorCode → Bool
is_internal_error ScErrorCode.internal_error = true
is_internal_error _ = false

abbrev pub is_exceeded_limit : ScErrorCode → Bool
is_exceeded_limit ScErrorCode.exceeded_limit = true
is_exceeded_limit _ = false

-- `HostError::is_recoverable`.
unfoldable pub is_recoverable : Error → Bool
is_recoverable e =
    if not (is_contract e.type_) && is_internal_error e.code
    then false
    else not (is_exceeded_limit e.code && is_storage_or_budget e.type_)

-- The result of a step, as a value.
abbrev pub catch : {S A : Type 0} → Exec S A → Exec S (Result A)
catch m s = let (res, s') = m s in (ok res, s')

-- What a frame's result becomes: `Ok(Error)` is an error.
unfoldable pub escalate : (ℕ → Option Error) → Result ℕ → Result ℕ
escalate error_of_val (err e) = err e
escalate error_of_val (ok v) = elim (error_of_val v) [
  | none ↦ ok v
  | some e ↦ if is_contract e.type_ then err e else err invalid_action
]

unfoldable pub updated_instance_storage :
    {Vm ContractId Instance Prng R ScMap : Type 0}
    → (List (ℕ × ℕ) → Exec R ScMap)
    → Exec (Context Vm ContractId Instance Prng × R) (Option ScMap)
updated_instance_storage to_scmap (ctx, r) = elim ctx.storage [
  | none ↦ (ok none, (ctx, r))
  | some storage ↦
      let (res, r') = to_scmap storage.map r in
      if storage.is_modified
      then (elim res [ err e ↦ err e | ok scmap ↦ ok (some scmap) ], (ctx, r'))
      else (ok none, (ctx, r))
]

abbrev pub rollback_if_err :
    {Map Snapshot : Type 0}
    → Result ℕ
    → RollbackPoint Map Snapshot
    → Option (RollbackPoint Map Snapshot)
rollback_if_err (err _) rp = some rp
rollback_if_err (ok _) rp = none

abbrev pub new_context :
    {Vm ContractId Instance Prng : Type 0}
    → Frame Vm ContractId Instance
    → Context Vm ContractId Instance Prng
new_context frame = record { frame = frame; prng = none; storage = none }

-- What `try_call` makes of a call's result; an error as a value is by the argument.
unfoldable pub recover : (Error → ℕ) → Result ℕ → Result ℕ
unfolding is_recoverable
recover to_val (ok rv) = ok rv
recover to_val (err e) =
    if is_recoverable e
    then (if is_contract e.type_ then ok (to_val e) else ok (to_val invalid_action))
    else err e

module _ {Vm ContractId Instance Prng Map R Snapshot ScMap E : Type 0}
    (vm_contract_id : Vm → ContractId)
    (parts : Parts
      (Frame Vm ContractId Instance)
      (Context Vm ContractId Instance Prng)
      Map
      R
      ContractId
      Snapshot
      ScMap) where
  unfoldable pub persist_updated :
      Option ScMap → Exec (Host Vm ContractId Instance Prng Map E R) (Unit {0})
  unfolding get_current_contract_id_internal
  persist_updated none = pure tt
  persist_updated (some scmap) = do
    id ← get_current_contract_id_internal parts vm_contract_id
    on_storage (parts.store_contract_instance scmap id)

  unfoldable pub persist_instance_storage :
      Exec (Host Vm ContractId Instance Prng Map E R) (Unit {0})
  unfolding with_current_context_mut updated_instance_storage persist_updated
  persist_instance_storage = do
    updated ←
        with_current_context_mut (updated_instance_storage parts.instance_storage_map_to_scmap)
    persist_updated updated

  -- A result that is no error becomes the error of a failed flush.
  unfoldable pub persist_if_ok :
      Result ℕ → Exec (Host Vm ContractId Instance Prng Map E R) (Result ℕ)
  unfolding persist_instance_storage
  persist_if_ok (err e) = pure (err e)
  persist_if_ok (ok v) = do
    flushed ← catch persist_instance_storage
    pure (elim flushed [ err e ↦ err e | ok _ ↦ ok v ])

  unfoldable pub call_any_lifecycle_hook :
      TraceEvent (Context Vm ContractId Instance Prng)
      → Exec (Host Vm ContractId Instance Prng Map E R) (Unit {0})
  call_any_lifecycle_hook event = elim parts.trace_hook [
    | none ↦ pure tt
    | some hook ↦ on_rest (hook event)
  ]

  -- The hook on the top context, if there is one.
  unfoldable pub hook_on_top :
      (Context Vm ContractId Instance Prng → TraceEvent (Context Vm ContractId Instance Prng))
      → Exec (Host Vm ContractId Instance Prng Map E R) (Unit {0})
  unfolding call_any_lifecycle_hook
  hook_on_top event h = elim h.context_stack [
    | [] ↦ (ok tt, h)
    | ctx ∷ _ ↦ call_any_lifecycle_hook (event ctx) h
  ]

  unfoldable pub check_depth : ℕ → Result ℕ → Exec (Host Vm ContractId Instance Prng Map E R) ℕ
  check_depth start_depth res h =
      if start_depth == length h.context_stack then (res, h) else (err context_internal, h)

  -- `with_frame` from the result of the closure on.
  unfoldable pub finish_frame :
      ℕ → RollbackPoint Map Snapshot → Result ℕ → Exec (Host Vm ContractId Instance Prng Map E R) ℕ
  unfolding persist_if_ok hook_on_top pop_context check_depth
  finish_frame start_depth rp escalated = do
    res ← persist_if_ok escalated
    _ ← hook_on_top (λ ctx. pop_ctx ctx res)
    _ ← pop_context parts (rollback_if_err res rp)
    check_depth start_depth res

  unfoldable pub run_frame :
      Frame Vm ContractId Instance
      → Exec (Host Vm ContractId Instance Prng Map E R) ℕ
      → ℕ
      → Exec (Host Vm ContractId Instance Prng Map E R) ℕ
  unfolding push_context hook_on_top escalate finish_frame
  run_frame frame f start_depth = do
    rp ← push_context parts (new_context frame)
    _ ← hook_on_top push_ctx
    res ← catch f
    finish_frame start_depth rp (escalate parts.error_of_val res)

  unfoldable pub with_frame :
      Frame Vm ContractId Instance
      → Exec (Host Vm ContractId Instance Prng Map E R) ℕ
      → Exec (Host Vm ContractId Instance Prng Map E R) ℕ
  unfolding run_frame
  with_frame frame f h =
      let start_depth = length h.context_stack in
      if leb default_host_depth_limit (start_depth % 2 ^ 32)
      then (err depth_exceeded, h)
      else run_frame frame f start_depth h

  unfoldable pub try_call :
      (Error → ℕ)
      → Exec (Host Vm ContractId Instance Prng Map E R) ℕ
      → Exec (Host Vm ContractId Instance Prng Map E R) ℕ
  unfolding recover
  try_call to_val call h = let (res, h') = call h in (recover to_val res, h')
