-- ===== src/Frames/Calls.antt =====
-- Calls of contracts: `call_n_internal` and `call_contract_fn` of soroban-env-host/src/host/frame.rs. The
-- text of a symbol, the contract's instance, its machine and the code that runs are arguments; the
-- diagnostics of a call and test contracts are left out.
pub mod Entry
use rs_soroban_env.Prelude.{
  ℕ, zero, suc, Bool, true, false, not, ◌&&◌, ◌==◌, if◌then◌else◌, Option, none, some, List, [],
  ◌∷◌,
}
use rs_soroban_env.Errors.{Error, Result, ok, err}
use rs_soroban_env.Errors.Exec.{Exec, ◌>>=◌, pure, lift}
use rs_soroban_env.Frames.Stack.{
  Frame, contract_vm, stellar_asset_contract, Context, Host, Parts, on_rest, on_storage,
  frame_contract_id,
}
use rs_soroban_env.Frames.Run.{invalid_action, with_frame}

pub data ContractReentryMode : Type 0 where
  prohibited self_allowed allowed : ContractReentryMode

pub record CallParams : Type 0 where
  pub reentry_mode : ContractReentryMode
  pub internal_host_call : Bool
  pub treat_missing_function_as_noop : Bool

abbrev pub default_external_call : CallParams
default_external_call = record {
  reentry_mode = prohibited;
  internal_host_call = false;
  treat_missing_function_as_noop = false;
}

abbrev pub default_internal_call : CallParams
default_internal_call = record {
  reentry_mode = prohibited;
  internal_host_call = true;
  treat_missing_function_as_noop = false;
}

abbrev pub reserved_prefix : List ℕ
reserved_prefix = b'_' ∷ b'_' ∷ []

-- `str::starts_with`.
unfoldable pub starts_with : List ℕ → List ℕ → Bool
starts_with text [] = true
starts_with [] (c ∷ prefix) = false
starts_with (b ∷ text) (c ∷ prefix) = b == c && starts_with text prefix

-- `Iterator::position`.
unfoldable pub position : {A : Type 0} → (A → Bool) → List A → Option ℕ
position test [] = none
position test (a ∷ as_) =
    let rest = position test as_ in
    if test a then some 0 else elim rest [ none ↦ none | some n ↦ some (suc n) ]

-- The match on the mode and on how many contract frames lie above the contract's own.
unfoldable pub check_distance : ContractReentryMode → Option ℕ → Result (Unit {0})
check_distance mode none = ok tt
check_distance allowed (some distance) = ok tt
check_distance self_allowed (some zero) = ok tt
check_distance self_allowed (some (suc _)) = err invalid_action
check_distance prohibited (some _) = err invalid_action

pub data ContractExecutable (Hash : Type 0) : Type 0 where
  wasm : Hash → ContractExecutable Hash
  stellar_asset : ContractExecutable Hash

-- What a call uses beside frames.
pub record Callee (Vm ContractId Instance Hash Map R H : Type 0) : Type 0 where
  pub is_same : ContractId → ContractId → Bool
  pub symbol_str : ℕ → Exec R (List ℕ)
  pub retrieve_instance : ContractId → Exec (Map × R) Instance
  pub executable : Instance → ContractExecutable Hash
  pub charge_args : List ℕ → Exec R (Unit {0})
  pub instantiate_vm : ContractId → Hash → Exec (Map × R) Vm
  pub invoke_function_raw : Vm → ℕ → List ℕ → Bool → Exec H ℕ
  pub call_stellar_asset : ℕ → List ℕ → Exec H ℕ

module _ {Vm ContractId Instance Prng : Type 0} (vm_contract_id : Vm → ContractId) where
  -- The ids of the contracts on the stack, from the top.
  unfoldable pub contract_ids : List (Context Vm ContractId Instance Prng) → List ContractId
  unfolding frame_contract_id
  contract_ids [] = []
  contract_ids (c ∷ stack) =
      let rest = contract_ids stack in
      elim (frame_contract_id vm_contract_id c.frame) [ none ↦ rest | some id ↦ id ∷ rest ]

module _ {Vm ContractId Instance Prng Map R Snapshot ScMap E Hash : Type 0}
    (vm_contract_id : Vm → ContractId)
    (parts : Parts
      (Frame Vm ContractId Instance)
      (Context Vm ContractId Instance Prng)
      Map
      R
      ContractId
      Snapshot
      ScMap)
    (callee : Callee Vm ContractId Instance Hash Map R
      (Host Vm ContractId Instance Prng Map E R)) where
  unfoldable pub call_executable :
      ContractId
      → ℕ
      → List ℕ
      → Bool
      → Instance
      → ContractExecutable Hash
      → Exec (Host Vm ContractId Instance Prng Map E R) ℕ
  unfolding with_frame
  call_executable id func args noop instance_ (wasm wasm_hash) = do
    vm ← on_storage (callee.instantiate_vm id wasm_hash)
    with_frame vm_contract_id parts (contract_vm vm func args instance_ [])
        (callee.invoke_function_raw vm func args noop)
  call_executable id func args noop instance_ stellar_asset = do
    _ ← on_rest (parts.charge_clone_id id)
    with_frame vm_contract_id parts (stellar_asset_contract id func args instance_)
        (callee.call_stellar_asset func args)

  unfoldable pub call_contract_fn :
      ContractId → ℕ → List ℕ → Bool → Exec (Host Vm ContractId Instance Prng Map E R) ℕ
  unfolding call_executable
  call_contract_fn id func args noop = do
    instance_ ← on_storage (callee.retrieve_instance id)
    _ ← on_rest (callee.charge_args args)
    call_executable id func args noop instance_ (callee.executable instance_)

  -- Whether a call from outside names a reserved function.
  unfoldable pub is_reserved : CallParams → ℕ → Exec R Bool
  unfolding starts_with
  is_reserved call_params func r =
      let (text, r') = callee.symbol_str func r in
      if call_params.internal_host_call
      then (ok false, r)
      else (elim text [ err e ↦ err e | ok name ↦ ok (starts_with name reserved_prefix) ], r')

  unfoldable pub check_reentry :
      ContractReentryMode → ContractId → Exec (Host Vm ContractId Instance Prng Map E R) (Unit {0})
  unfolding check_distance contract_ids position
  check_reentry mode id = lift (λ h.
      check_distance mode (
        position (λ caller. callee.is_same caller id)
          (contract_ids vm_contract_id h.context_stack)))

  unfoldable pub call_n_internal :
      ContractId → ℕ → List ℕ → CallParams → Exec (Host Vm ContractId Instance Prng Map E R) ℕ
  unfolding is_reserved check_reentry call_contract_fn
  call_n_internal id func args call_params = do
    reserved ← on_rest (is_reserved call_params func)
    _ ← lift (λ _. if reserved then err invalid_action else ok tt)
    _ ← check_reentry call_params.reentry_mode id
    call_contract_fn id func args call_params.treat_missing_function_as_noop
