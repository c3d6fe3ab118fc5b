-- ===== src/Frames/Run/Outcome.antt =====
-- What a frame leaves of the host: all of its work, or its failed events alone.
use rs_soroban_env.Prelude.{
  ℕ, suc, ◌%◌, ◌^◌, ◌≡◌, refl, sym, ◌∙◌, ap, arith, leb, Bool-cases, inl, inr, true, Option, none,
  List, [], ◌∷◌, ◌++◌, map, length, drop,
}
use mathlib.Core.Path.{subst}
use mathlib.Core.List.{append-nil}
use rs_soroban_env.Errors.{Result, ok, err, is_ok, Error}
use rs_soroban_env.Errors.Exec.{Exec, ◌>>=◌}
use rs_soroban_env.Errors.Kept.{after_any, after_ok}
use rs_soroban_env.Budget.Impl.{default_host_depth_limit}
use rs_soroban_env.Frames.Events.{EventError, rollback}
use rs_soroban_env.Frames.Stack.{
  Frame, Context, HostImpl, Host, Parts, RollbackPoint, TraceEvent, push_ctx, push_context,
}
use rs_soroban_env.Frames.Run.{
  catch, escalate, call_any_lifecycle_hook, hook_on_top, finish_frame, new_context, run_frame,
  with_frame,
}
use rs_soroban_env.Frames.Run.Restored.{
  fail_event, rollback-append, escalate_lem, Ended, Pushed, finish_lem, push_context_lem,
}
use rs_soroban_env.Frames.Run.Ends.{hook_lem}

cons_lem :
    {C : Type 0} (s t : List C) → drop 1 s ≡ t → length s ≡ suc (length t) → (c : C) × (s ≡ c ∷ t)
cons_lem [] t e l = absurd (omega (arith, l))
cons_lem (c ∷ s) t e l = (c, ap (λ rest. c ∷ rest) e)

-- Below the top the stack is as it was, and events are only added.
abbrev pub Below : {C Map E R : Type 0} → HostImpl C Map E R → HostImpl C Map E R → Type 0
Below {E = E} h h' =
    (drop 1 h'.context_stack ≡ drop 1 h.context_stack)
    × (length h'.context_stack ≡ length h.context_stack)
    × ((later : List (E × EventError)) × (h'.events ≡ h.events ++ later))

-- The outcome of a frame: a value that is no error, or an error with the map as it was. Either way the
-- stack is as it was, and of the events those before the frame; those of a failed frame are failed.
abbrev pub Framed :
    {C Map E R : Type 0}
    → (ℕ → Option Error)
    → HostImpl C Map E R
    → Result ℕ × HostImpl C Map E R
    → Type 0
Framed {E = E} error_of_val h (ok v, h') =
    (error_of_val v ≡ none)
    × (h'.context_stack ≡ h.context_stack)
    × ((later : List (E × EventError)) × (h'.events ≡ h.events ++ later))
Framed {E = E} error_of_val h (err e, h') =
    (h'.storage ≡ h.storage)
    × (h'.context_stack ≡ h.context_stack)
    × ((later : List (E × EventError)) × (h'.events ≡ h.events ++ map fail_event later))

module _ (E : Type 0) {Vm ContractId Instance Prng Map R Snapshot ScMap : Type 0}
    (vm_contract_id : Vm → ContractId)
    (parts : Parts
      (Frame Vm ContractId Instance)
      (Context Vm ContractId Instance Prng)
      Map
      R
      ContractId
      Snapshot
      ScMap) where
  abbrev HostE : Type 0
  HostE = Host Vm ContractId Instance Prng Map E R

  -- The end of a frame that was pushed on `h`.
  framed_lem :
      (res : Result ℕ) (rp : RollbackPoint Map Snapshot) (h h₃ : HostE)
      (later : List (E × EventError))
      → rp.storage ≡ h.storage
      → rp.events ≡ length h.events
      → h₃.events ≡ h.events ++ later
      → (r : Result ℕ) → (h' : HostE)
      → Ended E vm_contract_id parts (escalate parts.error_of_val res) rp h.context_stack h₃ (r, h')
      → Framed parts.error_of_val h (r, h')
  unfolding Ended
  framed_lem res rp h h₃ later map_ events added (ok v) h' (stack, inl (same, _, events')) = (
    elim (escalate_lem parts.error_of_val res) [
      | inl (v', eq, none_) ↦ ground (arith, same, eq, none_)
      | inr failed ↦ absurd (ground (arith, failed, same))
    ],
    stack,
    (later, events' ∙ added),
  )
  framed_lem res rp h h₃ later map_ events added (ok v) h' (stack, inr (failed, _, _)) =
      absurd (ground (arith, failed))
  framed_lem res rp h h₃ later map_ events added (err e) h' (stack, inl (same, fine, _)) =
      absurd (ground (arith, same, fine))
  framed_lem res rp h h₃ later map_ events added (err e) h' (stack, inr (_, map', events')) = (
    map' ∙ map_,
    stack,
    (
      later,
      events'
          ∙ ap (λ n. rollback n h₃.events) events
          ∙ ap (λ es. rollback (length h.events) es) added
          ∙ rollback-append h.events later,
    ),
  )

  module _ (pop_ok : (r : R) → is_ok (parts.pop_frame none r).0 ≡ true)
      (emulate_ok : (s : Map × R) → is_ok (parts.maybe_emulate_authentication s).0 ≡ true)
      (hook_ok : (event : TraceEvent (Context Vm ContractId Instance Prng)) (h : HostE)
        → is_ok (call_any_lifecycle_hook vm_contract_id parts event h).0 ≡ true) where
    run_frame_lem :
        (frame : Frame Vm ContractId Instance) (f : Exec HostE ℕ)
        → ((g : HostE) → Below g (f g).1)
        → (h : HostE)
        → Framed parts.error_of_val h
            (run_frame vm_contract_id parts frame f (length h.context_stack) h)
    unfolding run_frame Pushed
    run_frame_lem frame f below h =
        let goal = Framed parts.error_of_val h in
        let ctx = new_context frame in
        let push = push_context parts ctx in
        let h₁ : HostE = (push h).1 in
        let hook = hook_on_top vm_contract_id parts push_ctx in
        let h₂ : HostE = (hook h₁).1 in
        let pushed =
          push_context_lem E vm_contract_id parts pop_ok emulate_ok hook_ok ctx h.context_stack
            h.storage h.events h.rest in
        let (hooked, (stack₂, events₂)) =
          hook_lem E vm_contract_id parts pop_ok emulate_ok hook_ok push_ctx h₁.context_stack
            h₁.storage h₁.events h₁.rest in
        let (below_stack, depth, (later, added)) = below h₂ in
        let finish : RollbackPoint Map Snapshot → Result ℕ → Exec HostE ℕ = λ rp res.
          finish_frame vm_contract_id parts (length h.context_stack) rp
            (escalate parts.error_of_val res) in
        after_any goal (λ rp. hook >>= λ _. catch f >>= λ res. finish rp res) push h
          (λ e eq.
            let (events, map_, stack) =
              subst (λ r. Pushed E vm_contract_id parts ctx h (r, h₁)) eq pushed in
            (map_, stack, ([], events ∙ sym (append-nil h.events))))
          (λ rp eq.
            let (events, map_, index, stack) =
              subst (λ r. Pushed E vm_contract_id parts ctx h (r, h₁)) eq pushed in
            after_ok goal (λ _. catch f >>= λ res. finish rp res) hook h₁ hooked
              (λ _ _.
                after_ok goal (λ res. finish rp res) (catch f) h₂ refl
                  (λ res _.
                    let (c, top) =
                      cons_lem _ h.context_stack (below_stack ∙ ap (λ s. drop 1 s) (stack₂ ∙ stack))
                        (depth ∙ ap (λ s. length s) (stack₂ ∙ stack)) in
                    framed_lem res rp h (f h₂).1 later map_ index
                      (added ∙ ap (λ es. es ++ later) (events₂ ∙ events)) _ _
                      (finish_lem E vm_contract_id parts pop_ok emulate_ok hook_ok
                        (escalate parts.error_of_val res) rp c h.context_stack (f h₂).1 top))))

    -- A frame around a closure that changes the stack at its top alone and only adds events: it gives a
    -- value that is no error, or an error. Either way the stack is as before, and the events are those
    -- before and later ones; after an error the storage map is as before, and all later events are
    -- those of a failed call. The law on the authorization manager is for a pop without rollback; the
    -- other two say that emulated authentication and lifecycle hooks do not fail.
    pub with_frame_lem :
        (frame : Frame Vm ContractId Instance) (f : Exec HostE ℕ)
        → ((g : HostE) → Below g (f g).1)
        → (h : HostE) → Framed parts.error_of_val h (with_frame vm_contract_id parts frame f h)
    unfolding with_frame
    with_frame_lem frame f below h =
        elim (Bool-cases (leb default_host_depth_limit (length h.context_stack % 2 ^ 32))) [
          | inl deep ↦ rw (deep) (refl, refl, ([], sym (append-nil h.events)))
          | inr shallow ↦ rw (shallow) (run_frame_lem frame f below h)
        ]
