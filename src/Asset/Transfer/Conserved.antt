-- ===== src/Asset/Transfer/Conserved.antt =====
-- A transfer between two contracts takes an amount from one and gives it to the other.
use rs_soroban_env.Prelude.{
  ℕ, ◌≡◌, refl, ap, subst, ◌∙◌, Bool, Bool-cases, inl, inr, true, false, Option, none, some, arith,
}
use rs_soroban_env.Prelude.Int.{ℤ, pos, ◌+ℤ◌, ◌-ℤ◌, ◌≤ℤ◌, ltb_ℤ, int_laws}
use rs_soroban_env.Errors.{Result, ok, err}
use rs_soroban_env.Errors.Exec.{Exec, ◌>>=◌}
use rs_soroban_env.Errors.Kept.{after_any}
use rs_soroban_env.Asset.Allowance.Spend.{Lawful}
use rs_soroban_env.Asset.Balance.{BalanceValue, contract_id, BalanceHost}
use rs_soroban_env.Asset.Transfer.{
  receive_balance, spend_balance, check_nonnegative_amount, MuxedAddress, MuxHost, mux_address,
  mux_id, transfer,
}
use rs_soroban_env.Asset.Transfer.Seen.{Keeps, Quiet, then-Keeps}
use rs_soroban_env.Asset.Transfer.Moved.{amount_in, Taken, debited_from, spend_balance-Taken}
use rs_soroban_env.Asset.Transfer.Given.{Given, credited_to, receive_balance-Given}

module _ {Address : Type 0} (is_same : Address → Address → Bool) (amount : ℤ) where
  debited_self :
      (held : Address → Option BalanceValue) (from : Address) (found : Option BalanceValue)
      → held from ≡ found
      → is_same from from ≡ true
      → pos 0 ≤ℤ amount
      → amount ≤ℤ amount_in found
      → amount_in (debited_from is_same from amount found held from) ≡ amount_in found -ℤ amount
  debited_self held from none e r n m = rw e (grind (int_laws, n, m))
  debited_self held from (some b) e r n m = rw r refl

  debited_other :
      (held : Address → Option BalanceValue) (from other : Address) (found : Option BalanceValue)
      → is_same other from ≡ false
      → debited_from is_same from amount found held other ≡ held other
  debited_other held from other none r = refl
  debited_other held from other (some b) r = ground (arith, r)

  credited_other :
      (mid : Address → Option BalanceValue) (to other : Address) (clawback : Bool)
      → is_same other to ≡ false
      → credited_to is_same to amount clawback (mid to) mid other ≡ mid other
  credited_other mid to other clawback r = ground (arith, r)

  credited_self :
      (mid : Address → Option BalanceValue) (to : Address) (clawback : Bool)
      → is_same to to ≡ true
      → amount_in (credited_to is_same to amount clawback (mid to) mid to)
        ≡ amount_in (mid to) +ℤ amount
  credited_self mid to clawback r = rw r refl

module _ {S Address : Type 0} (host : BalanceHost S Address)
    (view : S → Address → Option BalanceValue) (is_same : Address → Address → Bool)
    (lawful : Lawful host.balances view is_same) (quiet : Quiet host view) (from to : Address)
    (from_contract : (s : S) → (host.to_sc_address from s).0 ≡ ok contract_id)
    (to_contract : (s : S) → (host.to_sc_address to s).0 ≡ ok contract_id) (amount : ℤ)
    (from_from : is_same from from ≡ true) (to_to : is_same to to ≡ true)
    (from_to : is_same from to ≡ false) (to_from : is_same to from ≡ false) (other : Address)
    (other_from : is_same other from ≡ false) (other_to : is_same other to ≡ false)
    (held : Address → Option BalanceValue) where
  -- The sender had the amount and has that much less, the receiver has that much more, and a third holder
  -- has what it had.
  abbrev pub Conserved : Result (Unit {0}) × S → Type 0
  Conserved (err _, s) = Unit
  Conserved (ok _, s) =
      (pos 0 ≤ℤ amount)
      × (amount ≤ℤ amount_in (held from))
      × (amount_in (view s from) ≡ amount_in (held from) -ℤ amount)
      × (amount_in (view s to) ≡ amount_in (held to) +ℤ amount)
      × (view s other ≡ held other)

  credited-Conserved :
      (out : Result (Unit {0}) × S)
      → pos 0 ≤ℤ amount
      → amount ≤ℤ amount_in (held from)
      → (mid : Address → Option BalanceValue)
      → mid ≡ debited_from is_same from amount (held from) held
      → Given host view is_same lawful quiet to amount (mid to) mid out
      → Conserved out
  credited-Conserved (err e, s) n m mid e' h = tt
  credited-Conserved (ok u, s) n m mid e (clawback, bound, seen) =
      let at = λ (k : Address). ap (λ v. v k) seen in
      let mid_at = λ (k : Address). ap (λ v. v k) e in
      let other_lem = λ (k : Address) (r : is_same k to ≡ false) (r' : is_same k from ≡ false).
        at k
        ∙ credited_other is_same amount mid to k clawback r
        ∙ mid_at k
        ∙ debited_other is_same amount held from k (held from) r' in
      (
        n,
        m,
        ap amount_in
              (at from ∙ credited_other is_same amount mid to from clawback from_to ∙ mid_at from)
            ∙ debited_self is_same amount held from (held from) refl from_from n m,
        ap amount_in (at to)
            ∙ credited_self is_same amount mid to clawback to_to
            ∙ ap (λ v. amount_in v +ℤ amount)
                (mid_at to ∙ debited_other is_same amount held from to (held from) to_from),
        other_lem other other_to other_from,
      )

  kept-Conserved :
      (out : Result (Unit {0}) × S) (s : S)
      → view out.1 ≡ view s
      → Conserved (ok tt, s)
      → Conserved out
  kept-Conserved (err e, s') s k h = tt
  kept-Conserved (ok u, s') s k (n, m, p, q, r) = (
    n,
    m,
    ap (λ v. amount_in (v from)) k ∙ p,
    ap (λ v. amount_in (v to)) k ∙ q,
    ap (λ v. v other) k ∙ r,
  )

  Conserved-ok :
      (out : Result (Unit {0}) × S) (u : Unit {0})
      → Conserved out
      → out.0 ≡ ok u
      → Conserved (ok tt, out.1)
  Conserved-ok (ok v, s) u h e = h
  Conserved-ok (err x, s) u h e = absurd (cc)

  Taken-ok :
      (out : Result (Unit {0}) × S) (u : Unit {0})
      → Taken host view is_same lawful quiet from amount (held from) held out
      → out.0 ≡ ok u
      → (amount ≤ℤ amount_in (held from))
        × (view out.1 ≡ debited_from is_same from amount (held from) held)
  Taken-ok (ok v, s) u h e = h
  Taken-ok (err x, s) u h e = absurd (cc)

  Keeps-then :
      (seen : Address → Option BalanceValue) (m : Exec S (Unit {0}))
      (f : Unit {0} → Exec S (Unit {0})) (s : S)
      → Keeps view m
      → view s ≡ seen
      → ((s' : S) → view s' ≡ seen → Conserved (f tt s'))
      → Conserved ((m >>= f) s)
  Keeps-then seen m f s k e g = after_any Conserved f m s (λ x h. tt) (λ u h. g (m s).1 (k s ∙ e))

  module _ (transfer_event : Exec S (Unit {0})) (event_keeps : Keeps view transfer_event) where
    receive_rest :
        (s : S)
        → pos 0 ≤ℤ amount
        → amount ≤ℤ amount_in (held from)
        → view s ≡ debited_from is_same from amount (held from) held
        → Conserved ((receive_balance host to amount >>= λ u. transfer_event) s)
    receive_rest s n m e =
        let mid = debited_from is_same from amount (held from) held in
        let given =
          credited-Conserved _ n m mid refl
            (receive_balance-Given host view is_same lawful quiet to to_contract amount mid s e) in
        after_any Conserved (λ u. transfer_event) (receive_balance host to amount) s (λ x h. tt)
          (λ u h.
            let s₁ : S = (receive_balance host to amount s).1 in
            kept-Conserved (transfer_event s₁) s₁ (event_keeps s₁) (Conserved-ok _ u given h))

    spend_rest :
        (s : S)
        → pos 0 ≤ℤ amount
        → view s ≡ held
        → Conserved (
            (spend_balance host from amount >>= λ u. host.balances.charge_clone >>= λ v.
            receive_balance host to amount >>= λ w. transfer_event)
              s)
    spend_rest s n e =
        let rest = λ (u : Unit {0}). receive_balance host to amount >>= λ w. transfer_event in
        after_any Conserved (λ u. host.balances.charge_clone >>= rest)
          (spend_balance host from amount) s (λ x h. tt)
          (λ u h.
            let (m, e₁) =
              Taken-ok (spend_balance host from amount s) u
                (spend_balance-Taken host view is_same lawful quiet from from_contract amount held s
                  e)
                h in
            Keeps-then (debited_from is_same from amount (held from) held)
              host.balances.charge_clone rest (spend_balance host from amount s).1 lawful.cloning e₁
              (λ s' e'. receive_rest s' n m e'))

  -- A transfer between two different contracts that succeeds is of an amount that is not negative and that
  -- the sender had. The sender has that much less, the receiver that much more, and a third holder what it
  -- had. The receiver is the address of a muxed or plain one. The persistent data are lawful, the test of
  -- addresses tells these three apart, and resolving the receiver, authorization, the instance's extension
  -- and the event change no balance.
  pub transfer-Conserved :
      (mux_host : MuxHost S Address) (require_auth : Address → Exec S (Unit {0}))
      (extend_instance : Exec S (Unit {0}))
      (transfer_event : Address → Address → Option ℕ → ℤ → Exec S (Unit {0}))
      (to_mux : MuxedAddress Address)
      → ((s : S) → (mux_address mux_host to_mux s).0 ≡ ok to)
      → Keeps view (mux_address mux_host to_mux)
      → Keeps view (mux_id mux_host to_mux)
      → Keeps view (require_auth from)
      → Keeps view extend_instance
      → ((id : Option ℕ) → Keeps view (transfer_event from to id amount))
      → (s : S) → view s ≡ held
      → Conserved
          (transfer host mux_host require_auth extend_instance transfer_event from to_mux amount s)
  unfolding transfer check_nonnegative_amount
  transfer-Conserved mux_host require_auth extend_instance transfer_event to_mux resolves k₄ k₅ k₁
        k₂ k₃ s e =
      elim (Bool-cases (ltb_ℤ amount (pos 0))) [
        | inl b ↦ rw b tt
        | inr b ↦
            let n : pos 0 ≤ℤ amount = ground (arith, b) in
            let event =
              λ (x : Address). mux_id mux_host to_mux >>= λ id. transfer_event from x id amount in
            let rest = λ (x : Address) (u : Unit {0}). spend_balance host from amount >>= λ u.
            host.balances.charge_clone >>= λ v. receive_balance host x amount >>= λ w. event x in
            let cloned = λ (x : Address) (u : Unit {0}). host.balances.charge_clone >>= rest x in
            let asked = λ (x : Address). require_auth from >>= λ u. extend_instance >>= cloned x in
            rw b (
              after_any Conserved asked (mux_address mux_host to_mux) s (λ x h. tt)
                (λ x h.
                  let s₀ = (mux_address mux_host to_mux s).1 in
                  subst (λ x. Conserved (asked x s₀)) (cc (resolves s, h))
                    (Keeps-then held (require_auth from) (λ u. extend_instance >>= cloned to) s₀ k₁
                      (k₄ s ∙ e)
                      (λ s₁ e₁. Keeps-then held extend_instance (cloned to) s₁ k₂ e₁ (λ s₂ e₂.
                        Keeps-then held host.balances.charge_clone (rest to) s₂ lawful.cloning e₂
                          (λ s₃ e₃.
                            spend_rest (event to)
                              (then-Keeps view (mux_id mux_host to_mux)
                                (λ id. transfer_event from to id amount) k₅ k₃)
                              s₃ n e₃))))))
      ]
