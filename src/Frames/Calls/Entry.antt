-- ===== src/Frames/Calls/Entry.antt =====
-- Which calls enter a contract.
use rs_soroban_env.Prelude.{Bool, true, false, not, ◌||◌, List, [], ◌∷◌}
use rs_soroban_env.Errors.Exec.{Exec}
use rs_soroban_env.Frames.Stack.{Frame, Context, Host, Parts}
use rs_soroban_env.Frames.Calls.ContractReentryMode.{prohibited, self_allowed, allowed}
use rs_soroban_env.Frames.Calls.{ContractReentryMode, Callee, contract_ids}

abbrev pub any_of : {A : Type 0} → (A → Bool) → List A → Bool
any_of test [] = false
any_of test (a ∷ xs) = test a || any_of test xs

-- The contract may be entered: in the mode that allows self-calls it is the nearest contract or not among
-- them, in the prohibiting mode it is not among them.
abbrev pub may_enter : {A : Type 0} → ContractReentryMode → (A → Bool) → List A → Bool
may_enter allowed test ids = true
may_enter prohibited test ids = not (any_of test ids)
may_enter self_allowed test [] = true
may_enter self_allowed test (nearest ∷ ids) = test nearest || not (any_of test ids)

module _ {Vm ContractId Instance Prng Map R Snapshot ScMap E Hash : Type 0}
    (vm_contract_id : Vm → ContractId)
    (parts : Parts
      (Frame Vm ContractId Instance)
      (Context Vm ContractId Instance Prng)
      Map
      R
      ContractId
      Snapshot
      ScMap)
    (callee : Callee Vm ContractId Instance Hash Map R
      (Host Vm ContractId Instance Prng Map E R)) where
  abbrev HostE : Type 0
  HostE = Host Vm ContractId Instance Prng Map E R

  -- The ids on the stack, and whether a call in a mode may enter a contract.
  abbrev pub is_admitted : ContractReentryMode → ContractId → HostE → Bool
  is_admitted mode id h =
      may_enter mode (λ caller. callee.is_same caller id)
        (contract_ids vm_contract_id h.context_stack)
