-- ===== src/Asset/Transfer/Given.antt =====
-- What is given to a contract's balance.
use rs_soroban_env.Prelude.{◌≡◌, refl, sym, ap, ◌∙◌, Bool, true, Option, none, some, arith}
use rs_soroban_env.Prelude.Int.{ℤ, pos, ◌+ℤ◌, ◌≤ℤ◌}
use rs_soroban_env.Prelude.Signed.{i128_top}
use rs_soroban_env.Errors.{Error, Result, ok, err, ok_or}
use rs_soroban_env.Errors.Exec.{Exec, ◌>>=◌, pure, lift}
use rs_soroban_env.Errors.Kept.{after_any}
use rs_soroban_env.Asset.Allowance.{overflow_error}
use rs_soroban_env.Asset.Allowance.Spend.{Lawful, put_in}
use rs_soroban_env.Asset.Balance.{
  BalanceValue, contract_id, BalanceHost, is_flag_set, is_asset_clawback_enabled, check_authorized,
  write_contract_balance,
}
use rs_soroban_env.Asset.Transfer.{
  checked_add_i128, balance_or_new, add_to_balance, receive, receive_balance,
}
use rs_soroban_env.Asset.Transfer.Seen.{
  Quiet, Leaves, asset_flag-Sees, contract_lem, check_authorized-Sees,
}
use rs_soroban_env.Asset.Transfer.Moved.{amount_in, write_contract_balance-Leaves, found_lem}

-- A balance with an amount more; one that was not there is of an authorized holder.
abbrev pub base : Bool → Option BalanceValue → BalanceValue
base clawback none = record { amount = pos 0; authorized = true; clawback = clawback }
base clawback (some b) = b

abbrev pub credited_to :
    {Address : Type 0}
    → (Address → Address → Bool)
    → Address
    → ℤ
    → Bool
    → Option BalanceValue
    → (Address → Option BalanceValue)
    → Address
    → Option BalanceValue
credited_to is_same a amount clawback found held =
    put_in is_same a (record (base clawback found) { amount = amount_in found +ℤ amount }) held

mapped_then :
    {S A B C : Type 0} (P : Result C × S → Type 0) (out : Result A × S) (g : A → B)
    (f : B → Exec S C) (s : S)
    → ((e : Error) (s' : S) → P (err e, s'))
    → ((a : A) → P (f (g a) out.1))
    → P ((((λ _. out) >>= λ a. pure (g a)) >>= f) s)
mapped_then P (ok a, s') g f s p q = q a
mapped_then P (err e, s') g f s p q = p e s'

module _ {S Address : Type 0} (host : BalanceHost S Address)
    (view : S → Address → Option BalanceValue) (is_same : Address → Address → Bool)
    (lawful : Lawful host.balances view is_same) (quiet : Quiet host view) where
  abbrev pub Given :
      Address
      → ℤ
      → Option BalanceValue
      → (Address → Option BalanceValue)
      → Result (Unit {0}) × S
      → Type 0
  Given a amount found held (err _, s) = Unit
  Given a amount found held (ok _, s) =
      (clawback : Bool) × (amount_in found +ℤ amount ≤ℤ pos i128_top)
      × (view s ≡ credited_to is_same a amount clawback found held)

  checked_add_lem :
      (x y z : ℤ)
      → ok_or (checked_add_i128 x y) overflow_error ≡ ok z
      → (z ≡ x +ℤ y) × (x +ℤ y ≤ℤ pos i128_top)
  unfolding checked_add_i128
  checked_add_lem x y z h = ground (arith, h)

  Leaves-Given :
      (a : Address) (amount : ℤ) (clawback : Bool) (found : Option BalanceValue)
      (held : Address → Option BalanceValue) (new : ℤ) (out : Result (Unit {0}) × S)
      → (new ≡ amount_in found +ℤ amount) × (amount_in found +ℤ amount ≤ℤ pos i128_top)
      → Leaves host view is_same lawful quiet
          (put_in is_same a (record (base clawback found) { amount = new }) held)
          out
      → Given a amount found held out
  Leaves-Given a amount clawback found held new (err x, s) n h = tt
  Leaves-Given a amount clawback found held new (ok u, s) (e, n) h = (
    clawback,
    n,
    h ∙ ap (λ z. put_in is_same a (record (base clawback found) { amount = z }) held) e,
  )

  add_to_balance-Given :
      (a : Address) (amount : ℤ) (clawback : Bool) (found : Option BalanceValue)
      (held : Address → Option BalanceValue) (s : S)
      → (base clawback found).amount ≡ amount_in found
      → view s ≡ held
      → Given a amount found held (add_to_balance host a amount (base clawback found) s)
  unfolding add_to_balance
  add_to_balance-Given a amount clawback found held s same e =
      let b = base clawback found in
      after_any (Given a amount found held)
        (λ new. write_contract_balance host a (record b { amount = new }))
        (lift (λ _. ok_or (checked_add_i128 b.amount amount) overflow_error)) s (λ x h. tt)
        (λ new h.
          Leaves-Given a amount clawback found held new _
            (checked_add_lem (amount_in found) amount new
              (ap (λ z. ok_or (checked_add_i128 z amount) overflow_error) (sym same) ∙ h))
            (write_contract_balance-Leaves host view is_same lawful quiet held a
              (record b { amount = new }) s e))

  receive_found-Given :
      (a : Address) (amount : ℤ) (found : Option BalanceValue)
      (held : Address → Option BalanceValue) (s : S)
      → view s ≡ held
      → Given a amount found held
          ((balance_or_new host true found >>= add_to_balance host a amount) s)
  unfolding balance_or_new is_asset_clawback_enabled
  receive_found-Given a amount (some b) held s e =
      add_to_balance-Given a amount true (some b) held s refl e
  receive_found-Given a amount none held s e =
      let flag = host.read_asset_info >>= is_flag_set host (λ flags. flags.clawback_enabled) in
      mapped_then (Given a amount none held) (flag s) (λ c. base c none)
        (add_to_balance host a amount) s (λ x s'. tt)
        (λ c. add_to_balance-Given a amount c none held (flag s).1 refl (
          asset_flag-Sees host view is_same lawful quiet held (λ flags. flags.clawback_enabled) s
            e))

  module _ (a : Address) (is_contract : (s : S) → (host.to_sc_address a s).0 ≡ ok contract_id)
      (amount : ℤ) (held : Address → Option BalanceValue) where
    pub receive_balance-Given :
        (s : S) → view s ≡ held → Given a amount (held a) held (receive_balance host a amount s)
    unfolding receive_balance receive
    receive_balance-Given s e =
        let P = Given a amount (held a) held in
        let s₁ : S = (check_authorized host a s).1 in
        let e₁ = check_authorized-Sees host view is_same lawful quiet a is_contract held s e in
        after_any P (λ u. host.to_sc_address a >>= receive host a amount) (check_authorized host a)
          s (λ x h. tt)
          (λ u h.
            contract_lem host view is_same lawful quiet P (receive host a amount) a s₁
              (is_contract s₁) (λ x. tt)
              (found_lem host view is_same lawful quiet P held a
                (λ found. balance_or_new host true found >>= add_to_balance host a amount) _
                (quiet.resolving a s₁ ∙ e₁) (λ x s'. tt)
                (λ s' e'. receive_found-Given a amount (held a) held s' e')))
