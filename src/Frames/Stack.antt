-- ===== src/Frames/Stack.antt =====
-- The context stack and rollback points of soroban-env-host/src/host/frame.rs. What a frame uses of the
-- authorization manager, the budget and the observers of the host are operations on the rest of the
-- host, an argument; errors are without their diagnostics.
use rs_soroban_env.Prelude.{ℕ, Bool, Option, none, some, List, [], ◌∷◌, length}
use rs_soroban_env.Errors.{Error, Result, ok, err, error, ScErrorType, ScErrorCode, ok_or}
use rs_soroban_env.Errors.Exec.{Exec, ◌>>=◌, pure, lift, modify}
use rs_soroban_env.Frames.Events.{EventError, rollback}

-- `Symbol`, `Val` and `Object` are payloads; a host function is its type's discriminant.
pub data Frame (Vm ContractId Instance : Type 0) : Type 0 where
  contract_vm :
      (vm : Vm) (fn_name : ℕ) (args : List ℕ) (instance_ : Instance) (relative_objects : List ℕ)
      → Frame Vm ContractId Instance
  host_function : ℕ → Frame Vm ContractId Instance
  stellar_asset_contract : ContractId → ℕ → List ℕ → Instance → Frame Vm ContractId Instance

pub record InstanceStorageMap : Type 0 where
  pub map : List (ℕ × ℕ)
  pub is_modified : Bool

pub record Context (Vm ContractId Instance Prng : Type 0) : Type 0 where
  pub frame : Frame Vm ContractId Instance
  pub prng : Option Prng
  pub storage : Option InstanceStorageMap

pub record RollbackPoint (Map Snapshot : Type 0) : Type 0 where
  pub storage : Map
  pub events : ℕ
  pub auth : Snapshot

pub data TraceEvent (C : Type 0) : Type 0 where
  push_ctx : C → TraceEvent C
  pop_ctx : C → Result ℕ → TraceEvent C

-- What the modelled methods change of the host. The stack has its top first.
pub record HostImpl (C Map E R : Type 0) : Type 0 where
  pub context_stack : List C
  pub storage : Map
  pub events : List (E × EventError)
  pub rest : R

-- What frames use of the authorization manager, the budget, the observers and the ledger. The
-- authentication that is emulated at the end of a recording run is a step that does nothing in others.
pub record Parts (F C Map R ContractId Snapshot ScMap : Type 0) : Type 0 where
  pub push_frame : F → Exec R Snapshot
  pub pop_frame : Option Snapshot → Exec R (Unit {0})
  pub charge_clone_map : Map → Exec R (Unit {0})
  pub charge_push : Exec R (Unit {0})
  pub charge_clone_id : ContractId → Exec R (Unit {0})
  pub trace_hook : Option (TraceEvent C → Exec R (Unit {0}))
  pub maybe_emulate_authentication : Exec (Map × R) (Unit {0})
  pub instance_storage_map_to_scmap : List (ℕ × ℕ) → Exec R ScMap
  pub store_contract_instance : ScMap → ContractId → Exec (Map × R) (Unit {0})
  pub error_of_val : ℕ → Option Error

abbrev pub context_internal : Error
context_internal = error ScErrorType.context ScErrorCode.internal_error

abbrev pub on_rest : {C Map E R A : Type 0} → Exec R A → Exec (HostImpl C Map E R) A
on_rest m h = let (res, r) = m h.rest in (res, record h { rest = r })

abbrev pub on_storage : {C Map E R A : Type 0} → Exec (Map × R) A → Exec (HostImpl C Map E R) A
on_storage m h =
    let (res, (map, r)) = m (h.storage, h.rest) in (res, record h { storage = map; rest = r })

module _ {Vm ContractId Instance : Type 0} (vm_contract_id : Vm → ContractId) where
  unfoldable pub frame_contract_id : Frame Vm ContractId Instance → Option ContractId
  frame_contract_id (contract_vm vm _ _ _ _) = some (vm_contract_id vm)
  frame_contract_id (host_function _) = none
  frame_contract_id (stellar_asset_contract id _ _ _) = some id

  unfoldable pub opt_frame_contract_id : Option (Frame Vm ContractId Instance) → Option ContractId
  unfolding frame_contract_id
  opt_frame_contract_id none = none
  opt_frame_contract_id (some frame) = frame_contract_id frame

abbrev pub Host : Type 0 → Type 0 → Type 0 → Type 0 → Type 0 → Type 0 → Type 0 → Type 0
Host Vm ContractId Instance Prng Map E R = HostImpl (Context Vm ContractId Instance Prng) Map E R

module _ {Vm ContractId Instance Prng Map R E : Type 0} where
  -- `Vec::pop`.
  abbrev pub pop_stack :
      Exec (Host Vm ContractId Instance Prng Map E R) (Option (Context Vm ContractId Instance Prng))
  pop_stack h = elim h.context_stack [
    | [] ↦ (ok none, h)
    | ctx ∷ stack ↦ (ok (some ctx), record h { context_stack = stack })
  ]

  unfoldable pub roll_back :
      {Snapshot : Type 0}
      → Option (RollbackPoint Map Snapshot)
      → Exec (Host Vm ContractId Instance Prng Map E R) (Option Snapshot)
  unfolding rollback
  roll_back none h = (ok none, h)
  roll_back (some rp) h =
      (ok (some rp.auth), record h { storage = rp.storage; events = rollback rp.events h.events })

  unfoldable pub with_current_frame :
      {A : Type 0}
      → (Frame Vm ContractId Instance → Exec (Host Vm ContractId Instance Prng Map E R) A)
      → Exec (Host Vm ContractId Instance Prng Map E R) A
  with_current_frame f h = elim h.context_stack [
    | [] ↦ (err context_internal, h)
    | ctx ∷ _ ↦ f ctx.frame h
  ]

  unfoldable pub with_current_frame_opt :
      {A : Type 0}
      → (Option (Frame Vm ContractId Instance) → Exec (Host Vm ContractId Instance Prng Map E R) A)
      → Exec (Host Vm ContractId Instance Prng Map E R) A
  with_current_frame_opt f h = elim h.context_stack [
    | [] ↦ f none h
    | ctx ∷ _ ↦ f (some ctx.frame) h
  ]

  -- The function works on the top context and on the rest of the host, without the stack.
  unfoldable pub with_current_context_mut :
      {A : Type 0}
      → Exec (Context Vm ContractId Instance Prng × R) A
      → Exec (Host Vm ContractId Instance Prng Map E R) A
  with_current_context_mut f h = elim h.context_stack [
    | [] ↦ (err context_internal, h)
    | ctx ∷ stack ↦
        let (res, (ctx', r)) = f (ctx, h.rest) in
        (res, record h { context_stack = ctx' ∷ stack; rest = r })
  ]

module _ {Vm ContractId Instance Prng Map R Snapshot ScMap E : Type 0}
    (parts : Parts
      (Frame Vm ContractId Instance)
      (Context Vm ContractId Instance Prng)
      Map
      R
      ContractId
      Snapshot
      ScMap) where
  unfoldable pub push_context :
      Context Vm ContractId Instance Prng
      → Exec (Host Vm ContractId Instance Prng Map E R) (RollbackPoint Map Snapshot)
  push_context ctx = do
    auth_snapshot ← on_rest (parts.push_frame ctx.frame)
    _ ← λ h. on_rest (parts.charge_clone_map h.storage) h
    rp ←
        lift
          (λ h. ok (record { storage = h.storage; events = length h.events; auth = auth_snapshot }))
    _ ← on_rest parts.charge_push
    _ ← modify (λ h. record h { context_stack = ctx ∷ h.context_stack })
    pure rp

  abbrev pub emulate_if_empty : Exec (Host Vm ContractId Instance Prng Map E R) (Unit {0})
  emulate_if_empty h = elim h.context_stack [
    | [] ↦ on_storage parts.maybe_emulate_authentication h
    | _ ∷ _ ↦ (ok tt, h)
  ]

  unfoldable pub pop_context :
      Option (RollbackPoint Map Snapshot)
      → Exec (Host Vm ContractId Instance Prng Map E R) (Context Vm ContractId Instance Prng)
  unfolding roll_back
  pop_context orp = do
    ctx ← pop_stack
    _ ← emulate_if_empty
    auth_snapshot ← roll_back orp
    _ ← on_rest (parts.pop_frame auth_snapshot)
    lift (λ _. ok_or ctx context_internal)

  -- A metered clone of the id, if there is one.
  unfoldable pub clone_id :
      Option ContractId → Exec (Host Vm ContractId Instance Prng Map E R) (Option ContractId)
  clone_id none = pure none
  clone_id (some id) = do _ ← on_rest (parts.charge_clone_id id); pure (some id)

  unfoldable pub get_current_contract_id_opt_internal :
      (Vm → ContractId) → Exec (Host Vm ContractId Instance Prng Map E R) (Option ContractId)
  unfolding with_current_frame_opt opt_frame_contract_id clone_id
  get_current_contract_id_opt_internal vm_contract_id =
      with_current_frame_opt
        (λ opt_frame. clone_id (opt_frame_contract_id vm_contract_id opt_frame))

  unfoldable pub get_current_contract_id_internal :
      (Vm → ContractId) → Exec (Host Vm ContractId Instance Prng Map E R) ContractId
  unfolding get_current_contract_id_opt_internal
  get_current_contract_id_internal vm_contract_id = do
    id ← get_current_contract_id_opt_internal vm_contract_id
    lift (λ _. ok_or id context_internal)
