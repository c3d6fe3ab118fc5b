-- ===== src/Frames/Run/Programs.antt =====
-- Programs of nested frames: whatever contracts do to the map and the events, and however they call
-- each other, with `with_frame` and `try_call`.
use rs_soroban_env.Prelude.{
  ℕ, ◌≡◌, refl, sym, ◌∙◌, ap, true, Option, none, [], ◌∷◌, ◌++◌, length, drop,
}
use rs_soroban_env.Errors.{Result, ok, err, is_ok, Error}
use rs_soroban_env.Errors.Exec.{Exec, ◌>>=◌}
use rs_soroban_env.Errors.Kept.{bind_lem}
use rs_soroban_env.Frames.Events.{from_successful_call}
use rs_soroban_env.Frames.Stack.{Frame, Context, HostImpl, Host, Parts, TraceEvent}
use rs_soroban_env.Frames.Run.{call_any_lifecycle_hook, with_frame, try_call}
use rs_soroban_env.Frames.Run.Outcome.{Below, Framed, with_frame_lem}
use mathlib.Core.List.{append-nil, append_assoc}

-- A write to the map, an event of a call that has not failed, a result, a sequence that stops at an error,
-- and the two kinds of call.
pub data Program (Map E F : Type 0) : Type 0 where
  write : (Map → Map) → Program Map E F
  emit : E → Program Map E F
  give : Result ℕ → Program Map E F
  then_ : Program Map E F → Program Map E F → Program Map E F
  call : F → Program Map E F → Program Map E F
  try_ : F → Program Map E F → Program Map E F

Below-trans :
    {C Map E R : Type 0} (h h₁ h₂ : HostImpl C Map E R) → Below h h₁ → Below h₁ h₂ → Below h h₂
Below-trans h h₁ h₂ (s, l, (es, e)) (s₁, l₁, (es₁, e₁)) =
    (s₁ ∙ s, l₁ ∙ l, (es ++ es₁, e₁ ∙ ap (λ xs. xs ++ es₁) e ∙ append_assoc h.events es es₁))

Framed-Below :
    {C Map E R : Type 0} (error_of_val : ℕ → Option Error) (h : HostImpl C Map E R) (r : Result ℕ)
    (h' : HostImpl C Map E R)
    → Framed error_of_val h (r, h')
    → Below h h'
Framed-Below error_of_val h (ok v) h' (_, stack, later) =
    (ap (λ s. drop 1 s) stack, ap (λ s. length s) stack, later)
Framed-Below error_of_val h (err e) h' (_, stack, (later, events)) =
    (ap (λ s. drop 1 s) stack, ap (λ s. length s) stack, (_, events))

module _ (E : Type 0) {Vm ContractId Instance Prng Map R Snapshot ScMap : Type 0}
    (vm_contract_id : Vm → ContractId) (error_to_val : Error → ℕ)
    (parts : Parts
      (Frame Vm ContractId Instance)
      (Context Vm ContractId Instance Prng)
      Map
      R
      ContractId
      Snapshot
      ScMap) where
  abbrev HostE : Type 0
  HostE = Host Vm ContractId Instance Prng Map E R

  unfoldable pub run : Program Map E (Frame Vm ContractId Instance) → Exec HostE ℕ
  unfolding with_frame try_call
  run (write f) h = (ok 0, record h { storage = f h.storage })
  run (emit e) h = (ok 0, record h { events = h.events ++ ((e, from_successful_call) ∷ []) })
  run (give r) h = (r, h)
  run (then_ p q) h = (run p >>= λ _. run q) h
  run (call frame p) h = with_frame vm_contract_id parts frame (run p) h
  run (try_ frame p) h =
      try_call vm_contract_id parts error_to_val (with_frame vm_contract_id parts frame (run p)) h

  module _ (pop_ok : (r : R) → is_ok (parts.pop_frame none r).0 ≡ true)
      (emulate_ok : (s : Map × R) → is_ok (parts.maybe_emulate_authentication s).0 ≡ true)
      (hook_ok : (event : TraceEvent (Context Vm ContractId Instance Prng)) (h : HostE)
        → is_ok (call_any_lifecycle_hook vm_contract_id parts event h).0 ≡ true) where
    run-Below : (p : Program Map E (Frame Vm ContractId Instance)) (h : HostE) → Below h (run p h).1
    unfolding run try_call
    run-Below (write f) h = (refl, refl, ([], sym (append-nil h.events)))
    run-Below (emit e) h = (refl, refl, ((e, from_successful_call) ∷ [], refl))
    run-Below (give r) h = (refl, refl, ([], sym (append-nil h.events)))
    run-Below (then_ p q) h =
        let first = run-Below p h in
        bind_lem (Below h) (run p) (λ _. run q) h first
          (λ _. Below-trans h (run p h).1 (run q (run p h).1).1 first (run-Below q (run p h).1))
    run-Below (call frame p) h = Framed-Below parts.error_of_val h _ _ (
        with_frame_lem E vm_contract_id parts pop_ok emulate_ok hook_ok frame (run p) (run-Below p)
          h)
    run-Below (try_ frame p) h = Framed-Below parts.error_of_val h _ _ (
        with_frame_lem E vm_contract_id parts pop_ok emulate_ok hook_ok frame (run p) (run-Below p)
          h)

    -- Every program of writes, events, results and calls, nested in any way, leaves the stack below its
    -- frame and the depth as they were and keeps all earlier events as they were; and a call of it gives
    -- a value that is no error, or an error with the map as it was before, the stack as it was and later
    -- events that are all failed. The laws on other parts are those of `with_frame_lem`.
    pub run_lem :
        (p : Program Map E (Frame Vm ContractId Instance)) (frame : Frame Vm ContractId Instance)
        (h : HostE)
        → Below h (run p h).1
          × Framed parts.error_of_val h (with_frame vm_contract_id parts frame (run p) h)
    run_lem p frame h = (
      run-Below p h,
      with_frame_lem E vm_contract_id parts pop_ok emulate_ok hook_ok frame (run p) (run-Below p) h,
    )
