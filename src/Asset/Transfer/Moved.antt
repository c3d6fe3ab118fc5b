-- ===== src/Asset/Transfer/Moved.antt =====
-- What is taken from a contract's balance.
use rs_soroban_env.Prelude.{
  ◌≡◌, sym, ap, ◌∙◌, subst, Bool, Bool-cases, inl, inr, Option, none, some, arith,
}
use rs_soroban_env.Prelude.Int.{ℤ, pos, ◌-ℤ◌, ◌≤ℤ◌, ltb_ℤ}
use rs_soroban_env.Errors.{Error, Result, ok, err, ok_or}
use rs_soroban_env.Errors.Exec.{Exec, ◌>>=◌, lift}
use rs_soroban_env.Errors.Kept.{after_any}
use rs_soroban_env.Asset.Allowance.{checked_sub_i128, overflow_error}
use rs_soroban_env.Asset.Allowance.Spend.{Lawful, put_in}
use rs_soroban_env.Asset.Balance.{
  BalanceValue, contract_id, BalanceHost, check_authorized, balance_ttl_threshold,
  balance_extend_amount, extend_balance, write_contract_balance,
}
use rs_soroban_env.Asset.Transfer.{
  take_from_balance, spend, spend_balance_no_authorization_check, spend_balance,
}
use rs_soroban_env.Asset.Transfer.Seen.{
  Quiet, Leaves, Sees-Leaves, finding-Keeps, contract_lem, check_authorized-Sees,
}

abbrev pub amount_in : Option BalanceValue → ℤ
amount_in none = pos 0
amount_in (some balance) = balance.amount

-- A balance without an amount.
abbrev pub debited_from :
    {Address : Type 0}
    → (Address → Address → Bool)
    → Address
    → ℤ
    → Option BalanceValue
    → (Address → Option BalanceValue)
    → Address
    → Option BalanceValue
debited_from is_same a amount none held = held
debited_from is_same a amount (some b) held =
    put_in is_same a (record b { amount = b.amount -ℤ amount }) held

module _ {S Address : Type 0} (host : BalanceHost S Address)
    (view : S → Address → Option BalanceValue) (is_same : Address → Address → Bool)
    (lawful : Lawful host.balances view is_same) (quiet : Quiet host view) where
  pub write_contract_balance-Leaves :
      (held : Address → Option BalanceValue) (a : Address) (balance : BalanceValue) (s : S)
      → view s ≡ held
      → Leaves host view is_same lawful quiet
          (put_in is_same a balance held)
          (write_contract_balance host a balance s)
  unfolding write_contract_balance extend_balance
  write_contract_balance-Leaves held a balance s e =
      let P = Leaves host view is_same lawful quiet (put_in is_same a balance held) in
      let put = host.balances.put_contract_data a balance in
      after_any P (λ u. extend_balance host a) put s (λ x h. tt)
        (λ u h. elim (lawful.putting a balance s) [
          | inl failed ↦ absurd (ground (arith, failed, h))
          | inr after ↦
              Sees-Leaves host view is_same lawful quiet (put_in is_same a balance held) _ (
                lawful.extending a balance_ttl_threshold balance_extend_amount (put s).1
                ∙ after
                ∙ ap (put_in is_same a balance) e)
        ])

  abbrev pub Taken :
      Address
      → ℤ
      → Option BalanceValue
      → (Address → Option BalanceValue)
      → Result (Unit {0}) × S
      → Type 0
  Taken a amount found held (err _, s) = Unit
  Taken a amount found held (ok _, s) =
      (amount ≤ℤ amount_in found) × (view s ≡ debited_from is_same a amount found held)

  checked_sub_lem : (x y z : ℤ) → ok_or (checked_sub_i128 x y) overflow_error ≡ ok z → z ≡ x -ℤ y
  unfolding checked_sub_i128
  checked_sub_lem x y z h = ground (arith, h)

  Leaves-Taken :
      (a : Address) (amount : ℤ) (b : BalanceValue) (held : Address → Option BalanceValue) (new : ℤ)
      (out : Result (Unit {0}) × S)
      → amount ≤ℤ b.amount
      → new ≡ b.amount -ℤ amount
      → Leaves host view is_same lawful quiet
          (put_in is_same a (record b { amount = new }) held)
          out
      → Taken a amount (some b) held out
  Leaves-Taken a amount b held new (err x, s) n e h = tt
  Leaves-Taken a amount b held new (ok u, s) n e h =
      (n, h ∙ ap (λ z. put_in is_same a (record b { amount = z }) held) e)

  take_from_balance-Taken :
      (a : Address) (amount : ℤ) (found : Option BalanceValue)
      (held : Address → Option BalanceValue) (s : S)
      → view s ≡ held
      → Taken a amount found held (take_from_balance host a amount found s)
  unfolding take_from_balance
  take_from_balance-Taken a amount none held s e = elim (Bool-cases (ltb_ℤ (pos 0) amount)) [
    | inl b ↦ rw b tt
    | inr b ↦ rw b (ground (arith, b), e)
  ]
  take_from_balance-Taken a amount (some balance) held s e =
      elim (Bool-cases (ltb_ℤ balance.amount amount)) [
        | inl b ↦ rw b tt
        | inr b ↦ rw b (
            after_any (Taken a amount (some balance) held)
              (λ new. write_contract_balance host a (record balance { amount = new }))
              (lift (λ _. ok_or (checked_sub_i128 balance.amount amount) overflow_error)) s
              (λ x h. tt)
              (λ new h.
                Leaves-Taken a amount balance held new _ (ground (arith, b))
                  (checked_sub_lem balance.amount amount new h)
                  (write_contract_balance-Leaves held a (record balance { amount = new }) s e)))
      ]

  finding_lem :
      (held : Address → Option BalanceValue) (a : Address) (found : Option BalanceValue) (s : S)
      → view s ≡ held
      → (host.balances.try_get_contract_data a s).0 ≡ ok found
      → found ≡ held a
  finding_lem held a found s e h = elim (lawful.finding a s).1 [
    | inl failed ↦ absurd (ground (arith, failed, h))
    | inr here ↦ ground (arith, here, h, ap (λ m. m a) e)
  ]

  -- What follows a clone's charge and a read of a balance.
  pub found_lem :
      (P : Result (Unit {0}) × S → Type 0) (held : Address → Option BalanceValue) (a : Address)
      (f : Option BalanceValue → Exec S (Unit {0})) (s : S)
      → view s ≡ held
      → ((e : Error) (s' : S) → P (err e, s'))
      → ((s' : S) → view s' ≡ held → P (f (held a) s'))
      → P ((host.balances.charge_clone >>= λ u. host.balances.try_get_contract_data a >>= f) s)
  found_lem P held a f s e p q =
      after_any P (λ u. host.balances.try_get_contract_data a >>= f) host.balances.charge_clone s
        (λ x h. p x _)
        (λ u h.
          let s₁ : S = (host.balances.charge_clone s).1 in
          let e₁ = lawful.cloning s ∙ e in
          after_any P f (host.balances.try_get_contract_data a) s₁ (λ x h₁. p x _)
            (λ found h₁.
              subst (λ v. P (f v (host.balances.try_get_contract_data a s₁).1))
                (sym (finding_lem held a found s₁ e₁ h₁))
                (q _ (finding-Keeps host view is_same lawful quiet a s₁ ∙ e₁))))

  module _ (a : Address) (is_contract : (s : S) → (host.to_sc_address a s).0 ≡ ok contract_id)
      (amount : ℤ) (held : Address → Option BalanceValue) where
    pub spend_balance-Taken :
        (s : S) → view s ≡ held → Taken a amount (held a) held (spend_balance host a amount s)
    unfolding spend_balance spend_balance_no_authorization_check spend
    spend_balance-Taken s e =
        let P = Taken a amount (held a) held in
        let s₁ : S = (check_authorized host a s).1 in
        let e₁ = check_authorized-Sees host view is_same lawful quiet a is_contract held s e in
        after_any P (λ u. host.to_sc_address a >>= spend host a amount) (check_authorized host a) s
          (λ x h. tt)
          (λ u h.
            contract_lem host view is_same lawful quiet P (spend host a amount) a s₁
              (is_contract s₁) (λ x. tt)
              (found_lem P held a (take_from_balance host a amount) _ (quiet.resolving a s₁ ∙ e₁)
                (λ x s'. tt) (λ s' e'. take_from_balance-Taken a amount (held a) held s' e')))
