-- ===== src/Frames/Run/Ends.antt =====
-- How a frame ends: what stays of the host when a frame is popped.
use rs_soroban_env.Prelude.{
  ℕ, ◌≡◌, refl, sym, ◌∙◌, ap, arith, ◌⊎◌, inl, inr, true, false, Option, none, some, List, [], ◌∷◌,
}
use mathlib.Core.Path.{subst}
use rs_soroban_env.Errors.{Result, ok, err, is_ok, ok_or}
use rs_soroban_env.Errors.Exec.{pure, lift}
use rs_soroban_env.Errors.Kept.{bind_lem}
use rs_soroban_env.Frames.Events.{EventError, rollback}
use rs_soroban_env.Frames.Stack.{
  Frame, Context, HostImpl, Host, Parts, RollbackPoint, TraceEvent, context_internal, on_rest,
  on_storage, pop_context, roll_back, with_current_context_mut, get_current_contract_id_internal,
  get_current_contract_id_opt_internal, with_current_frame_opt, opt_frame_contract_id, clone_id,
}
use rs_soroban_env.Frames.Run.{
  updated_instance_storage, persist_updated, persist_instance_storage, persist_if_ok,
  call_any_lifecycle_hook, hook_on_top,
}

-- Neither the stack nor the events are changed.
abbrev pub Same : {C Map E R : Type 0} → HostImpl C Map E R → HostImpl C Map E R → Type 0
Same h h' = (h'.context_stack ≡ h.context_stack) × (h'.events ≡ h.events)

module _ (E : Type 0) {Vm ContractId Instance Prng Map R Snapshot ScMap : Type 0}
    (vm_contract_id : Vm → ContractId)
    (parts : Parts
      (Frame Vm ContractId Instance)
      (Context Vm ContractId Instance Prng)
      Map
      R
      ContractId
      Snapshot
      ScMap) where
  abbrev HostE : Type 0
  HostE = Host Vm ContractId Instance Prng Map E R

  updated_lem :
      (ctx : Context Vm ContractId Instance Prng) (r : R)
      → (updated_instance_storage parts.instance_storage_map_to_scmap (ctx, r)).1.0 ≡ ctx
  unfolding updated_instance_storage
  updated_lem ctx r = ground arith

  flush_Same :
      (s : List (Context Vm ContractId Instance Prng)) (m : Map) (es : List (E × EventError))
      (r : R)
      → let h : HostE = record { context_stack = s; storage = m; events = es; rest = r } in
        Same h
          (with_current_context_mut
            (updated_instance_storage parts.instance_storage_map_to_scmap)
            h).1
  unfolding with_current_context_mut
  flush_Same [] m es r = (refl, refl)
  flush_Same (ctx ∷ s) m es r = (ap (λ c. c ∷ s) (updated_lem ctx r), refl)

  clone_id-Same : (id : Option ContractId) (h : HostE) → Same h (clone_id parts id h).1
  unfolding clone_id
  clone_id-Same none h = (refl, refl)
  clone_id-Same (some id) h =
      bind_lem (Same h) (on_rest (parts.charge_clone_id id)) (λ _. pure (some id)) h (refl, refl)
        (λ _. (refl, refl))

  opt_id_Same :
      (s : List (Context Vm ContractId Instance Prng)) (m : Map) (es : List (E × EventError))
      (r : R)
      → let h : HostE = record { context_stack = s; storage = m; events = es; rest = r } in
        Same h (get_current_contract_id_opt_internal parts vm_contract_id h).1
  unfolding get_current_contract_id_opt_internal with_current_frame_opt opt_frame_contract_id
  opt_id_Same [] m es r =
      clone_id-Same none (record { context_stack = []; storage = m; events = es; rest = r })
  opt_id_Same (ctx ∷ s) m es r =
      clone_id-Same (opt_frame_contract_id vm_contract_id (some ctx.frame))
        (record { context_stack = ctx ∷ s; storage = m; events = es; rest = r })

  id_Same : (h : HostE) → Same h (get_current_contract_id_internal parts vm_contract_id h).1
  unfolding get_current_contract_id_internal
  id_Same h =
      let same = opt_id_Same h.context_stack h.storage h.events h.rest in
      bind_lem (Same h) (get_current_contract_id_opt_internal parts vm_contract_id)
        (λ id. lift (λ _. ok_or id context_internal)) h same (λ _. same)

  persist_updated-Same :
      (updated : Option ScMap) (h : HostE)
      → Same h (persist_updated vm_contract_id parts updated h).1
  unfolding persist_updated
  persist_updated-Same none h = (refl, refl)
  persist_updated-Same (some scmap) h =
      bind_lem (Same h) (get_current_contract_id_internal parts vm_contract_id)
        (λ id. on_storage (parts.store_contract_instance scmap id)) h (id_Same h) (λ _. id_Same h)

  persist_Same : (h : HostE) → Same h (persist_instance_storage vm_contract_id parts h).1
  unfolding persist_instance_storage
  persist_Same h =
      let flush =
        with_current_context_mut (updated_instance_storage parts.instance_storage_map_to_scmap) in
      let (stack, events) = flush_Same h.context_stack h.storage h.events h.rest in
      bind_lem (Same h) flush (persist_updated vm_contract_id parts) h (stack, events)
        (λ updated.
          let (stack', events') = persist_updated-Same updated (flush h).1 in
          (stack' ∙ stack, events' ∙ events))

  flushed_lem :
      (v : ℕ) (flushed : Result (Unit {0}))
      → let res : Result ℕ = elim flushed [ err e ↦ err e | ok _ ↦ ok v ] in
        (res ≡ ok v) ⊎ (is_ok res ≡ false)
  flushed_lem v (err e) = inr refl
  flushed_lem v (ok _) = inl refl

  -- A flush keeps stack and events, and an error is not flushed over.
  pub persist_if_ok-Same :
      (res : Result ℕ) (h : HostE)
      → ((res' : Result ℕ) × ((persist_if_ok vm_contract_id parts res h).0 ≡ ok res')
          × ((res' ≡ res) ⊎ (is_ok res' ≡ false)))
        × Same h (persist_if_ok vm_contract_id parts res h).1
  unfolding persist_if_ok
  persist_if_ok-Same (err e) h = ((err e, refl, inl refl), (refl, refl))
  persist_if_ok-Same (ok v) h =
      ((_, refl, flushed_lem v (persist_instance_storage vm_contract_id parts h).0), persist_Same h)

  -- Popping without a rollback keeps the events, and with one restores the map.
  unfoldable pub Popped :
      Option (RollbackPoint Map Snapshot)
      → List (Context Vm ContractId Instance Prng)
      → HostE
      → Result (Context Vm ContractId Instance Prng) × HostE
      → Type 0
  Popped none rest h (r, h') = (is_ok r ≡ true) × (h'.context_stack ≡ rest) × (h'.events ≡ h.events)
  Popped (some rp) rest h (r, h') =
      (h'.storage ≡ rp.storage)
      × (h'.context_stack ≡ rest)
      × (h'.events ≡ rollback rp.events h.events)

  module _ (pop_ok : (r : R) → is_ok (parts.pop_frame none r).0 ≡ true)
      (emulate_ok : (s : Map × R) → is_ok (parts.maybe_emulate_authentication s).0 ≡ true)
      (hook_ok : (event : TraceEvent (Context Vm ContractId Instance Prng)) (h : HostE)
        → is_ok (call_any_lifecycle_hook vm_contract_id parts event h).0 ≡ true) where
    pop_context_lem :
        (orp : Option (RollbackPoint Map Snapshot)) (ctx : Context Vm ContractId Instance Prng)
        (s : List (Context Vm ContractId Instance Prng)) (m : Map) (es : List (E × EventError))
        (r : R)
        → let h : HostE = record { context_stack = ctx ∷ s; storage = m; events = es; rest = r } in
          Popped orp s h (pop_context parts orp h)
    unfolding pop_context roll_back Popped
    pop_context_lem none ctx [] m es r =
        ground (arith, emulate_ok (m, r), pop_ok (parts.maybe_emulate_authentication (m, r)).1.1)
    pop_context_lem none ctx (c ∷ s) m es r = ground (arith, pop_ok r)
    pop_context_lem (some rp) ctx [] m es r = ground (arith, emulate_ok (m, r))
    pop_context_lem (some rp) ctx (c ∷ s) m es r = ground arith

    pub pop_at :
        (orp : Option (RollbackPoint Map Snapshot)) (ctx : Context Vm ContractId Instance Prng)
        (s : List (Context Vm ContractId Instance Prng)) (h : HostE)
        → h.context_stack ≡ ctx ∷ s
        → Popped orp s h (pop_context parts orp h)
    pop_at orp ctx s h e =
        subst
          (λ stack.
            let h' : HostE = record h { context_stack = stack } in
            Popped orp s h' (pop_context parts orp h'))
          (sym e) (pop_context_lem orp ctx s h.storage h.events h.rest)

    pub hook_lem :
        (event : Context Vm ContractId Instance Prng
          → TraceEvent (Context Vm ContractId Instance Prng))
        (s : List (Context Vm ContractId Instance Prng)) (m : Map) (es : List (E × EventError))
        (r : R)
        → let h : HostE = record { context_stack = s; storage = m; events = es; rest = r } in
          (is_ok (hook_on_top vm_contract_id parts event h).0 ≡ true)
          × Same h (hook_on_top vm_contract_id parts event h).1
    unfolding hook_on_top call_any_lifecycle_hook
    hook_lem event [] m es r = (refl, (refl, refl))
    hook_lem event (ctx ∷ s) m es r = (
      hook_ok (event ctx) (record { context_stack = ctx ∷ s; storage = m; events = es; rest = r }),
      ground arith,
    )
