-- ===== src/Frames/Run/Restored.antt =====
-- The two ends of a frame: what a push saves, and what a pop leaves of the host.
use rs_soroban_env.Prelude.{
  ℕ, ◌≡◌, refl, sym, ◌∙◌, ap, arith, ◌⊎◌, inl, inr, true, false, Option, none, some, List, [], ◌∷◌,
  ◌++◌, map, length,
}
use mathlib.Core.Path.{subst}
use rs_soroban_env.Errors.{Result, ok, err, is_ok, Error}
use rs_soroban_env.Errors.Exec.{Exec, ◌>>=◌}
use rs_soroban_env.Errors.Kept.{after_any, after_ok}
use rs_soroban_env.Frames.Events.{EventError, from_failed_call, rollback}
use rs_soroban_env.Frames.Stack.{
  Frame, Context, Host, Parts, RollbackPoint, TraceEvent, pop_ctx, push_context, pop_context,
}
use rs_soroban_env.Frames.Run.{
  escalate, persist_if_ok, call_any_lifecycle_hook, hook_on_top, rollback_if_err, check_depth,
  finish_frame,
}
use rs_soroban_env.Frames.Run.Ends.{Popped, persist_if_ok-Same, hook_lem, pop_at}

abbrev pub fail_event : {E : Type 0} → E × EventError → E × EventError
fail_event (e, _) = (e, from_failed_call)

rollback-map :
    {E : Type 0} (later : List (E × EventError)) → rollback 0 later ≡ map fail_event later
unfolding rollback
rollback-map [] = refl
rollback-map ((e, s) ∷ later) = ap (λ es. (e, from_failed_call) ∷ es) (rollback-map later)

-- A rollback to the length of the older events marks the later ones.
pub rollback-append :
    {E : Type 0} (es later : List (E × EventError))
    → rollback (length es) (es ++ later) ≡ es ++ map fail_event later
unfolding rollback
rollback-append [] later = rollback-map later
rollback-append (e ∷ es) later = ap (λ rest. e ∷ rest) (rollback-append es later)

pub escalate_lem :
    (error_of_val : ℕ → Option Error) (res : Result ℕ)
    → ((v : ℕ) × (escalate error_of_val res ≡ ok v) × (error_of_val v ≡ none))
      ⊎ (is_ok (escalate error_of_val res) ≡ false)
unfolding escalate
escalate_lem error_of_val (err e) = inr refl
escalate_lem error_of_val (ok v) = ground arith

module _ (E : Type 0) {Vm ContractId Instance Prng Map R Snapshot ScMap : Type 0}
    (vm_contract_id : Vm → ContractId)
    (parts : Parts
      (Frame Vm ContractId Instance)
      (Context Vm ContractId Instance Prng)
      Map
      R
      ContractId
      Snapshot
      ScMap) where
  abbrev HostE : Type 0
  HostE = Host Vm ContractId Instance Prng Map E R

  -- The end of a frame whose closure gave a result: the result with the events, or an error with the map
  -- and the events of the rollback point.
  unfoldable pub Ended :
      Result ℕ
      → RollbackPoint Map Snapshot
      → List (Context Vm ContractId Instance Prng)
      → HostE
      → Result ℕ × HostE
      → Type 0
  Ended escalated rp rest h (r, h') =
      (h'.context_stack ≡ rest)
      × (((r ≡ escalated) × (is_ok escalated ≡ true) × (h'.events ≡ h.events))
          ⊎ ((is_ok r ≡ false)
              × (h'.storage ≡ rp.storage)
              × (h'.events ≡ rollback rp.events h.events)))

  -- Either nothing is pushed, or the context is and the rollback point holds the state before.
  unfoldable pub Pushed :
      Context Vm ContractId Instance Prng
      → HostE
      → Result (RollbackPoint Map Snapshot) × HostE
      → Type 0
  Pushed ctx h (err e, h') =
      (h'.events ≡ h.events) × (h'.storage ≡ h.storage) × (h'.context_stack ≡ h.context_stack)
  Pushed ctx h (ok rp, h') =
      (h'.events ≡ h.events)
      × (rp.storage ≡ h.storage)
      × (rp.events ≡ length h.events)
      × (h'.context_stack ≡ ctx ∷ h.context_stack)

  module _ (pop_ok : (r : R) → is_ok (parts.pop_frame none r).0 ≡ true)
      (emulate_ok : (s : Map × R) → is_ok (parts.maybe_emulate_authentication s).0 ≡ true)
      (hook_ok : (event : TraceEvent (Context Vm ContractId Instance Prng)) (h : HostE)
        → is_ok (call_any_lifecycle_hook vm_contract_id parts event h).0 ≡ true) where
    check_depth_lem :
        (rest : List (Context Vm ContractId Instance Prng)) (res : Result ℕ) (h : HostE)
        → h.context_stack ≡ rest
        → check_depth vm_contract_id parts (length rest) res h ≡ (res, h)
    unfolding check_depth
    check_depth_lem rest res h e =
        let depth : length h.context_stack ≡ length rest = ap (λ s. length s) e in
        ground (arith, depth)

    -- The pop and the check of the depth, in a state with the stack and events of `h`.
    popped_lem :
        (res escalated : Result ℕ) (rp : RollbackPoint Map Snapshot)
        (ctx : Context Vm ContractId Instance Prng)
        (rest : List (Context Vm ContractId Instance Prng)) (h h₁ : HostE)
        → h₁.context_stack ≡ ctx ∷ rest
        → h₁.events ≡ h.events
        → (res ≡ escalated) ⊎ (is_ok res ≡ false)
        → Ended escalated rp rest h (
            (pop_context parts (rollback_if_err res rp) >>= λ _.
            check_depth vm_contract_id parts (length rest) res)
              h₁)
    unfolding Ended Popped
    popped_lem (err e) escalated rp ctx rest h h₁ stack events kept =
        let (map_, stack', events') =
          pop_at E vm_contract_id parts pop_ok emulate_ok hook_ok (some rp) ctx rest h₁ stack in
        let events'' = events' ∙ ap (λ es. rollback rp.events es) events in
        after_any (Ended escalated rp rest h)
          (λ _. check_depth vm_contract_id parts (length rest) (err e))
          (pop_context parts (some rp)) h₁ (λ e' eq. (stack', inr (refl, map_, events'')))
          (λ ctx' eq.
            subst (Ended escalated rp rest h) (sym (check_depth_lem rest (err e) _ stack'))
              (stack', inr (refl, map_, events'')))
    popped_lem (ok v) escalated rp ctx rest h h₁ stack events kept =
        let (is_popped, stack', events') =
          pop_at E vm_contract_id parts pop_ok emulate_ok hook_ok none ctx rest h₁ stack in
        let same : ok v ≡ escalated = elim kept [ inl e ↦ e | inr e ↦ absurd cc ] in
        after_ok (Ended escalated rp rest h)
          (λ _. check_depth vm_contract_id parts (length rest) (ok v)) (pop_context parts none) h₁
          is_popped
          (λ ctx' eq.
            subst (Ended escalated rp rest h) (sym (check_depth_lem rest (ok v) _ stack'))
              (stack', inl (same, ap (λ r. is_ok r) (sym same), events' ∙ events)))

    pub finish_lem :
        (escalated : Result ℕ) (rp : RollbackPoint Map Snapshot)
        (ctx : Context Vm ContractId Instance Prng)
        (rest : List (Context Vm ContractId Instance Prng)) (h : HostE)
        → h.context_stack ≡ ctx ∷ rest
        → Ended escalated rp rest h (finish_frame vm_contract_id parts (length rest) rp escalated h)
    unfolding finish_frame
    finish_lem escalated rp ctx rest h e =
        let goal = Ended escalated rp rest h in
        let ((res', eq, kept), (stack, events)) =
          persist_if_ok-Same E vm_contract_id parts escalated h in
        let persist = persist_if_ok vm_contract_id parts escalated in
        let h₁ : HostE = (persist h).1 in
        let pop : Result ℕ → Exec HostE ℕ = λ res.
          pop_context parts (rollback_if_err res rp) >>= λ _.
          check_depth vm_contract_id parts (length rest) res in
        after_ok goal
          (λ res. hook_on_top vm_contract_id parts (λ ctx. pop_ctx ctx res) >>= λ _. pop res)
          persist h (ap (λ r. is_ok r) eq)
          (λ res eq'.
            let (hooked, (stack₂, events₂)) =
              hook_lem E vm_contract_id parts pop_ok emulate_ok hook_ok (λ ctx. pop_ctx ctx res)
                h₁.context_stack h₁.storage h₁.events h₁.rest in
            after_ok goal (λ _. pop res) (hook_on_top vm_contract_id parts (λ ctx. pop_ctx ctx res))
              h₁ hooked
              (λ _ _.
                popped_lem res escalated rp ctx rest h _ (stack₂ ∙ stack ∙ e) (events₂ ∙ events)
                  (ground (arith, eq, eq', kept))))

    pub push_context_lem :
        (ctx : Context Vm ContractId Instance Prng) (s : List (Context Vm ContractId Instance Prng))
        (m : Map) (es : List (E × EventError)) (r : R)
        → let h : HostE = record { context_stack = s; storage = m; events = es; rest = r } in
          Pushed ctx h (push_context parts ctx h)
    unfolding push_context Pushed
    push_context_lem ctx s m es r = ground arith
