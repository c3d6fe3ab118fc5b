-- ===== src/Asset/Allowance/Exact.antt =====
-- Spending takes exactly its amount, or nothing.
use rs_soroban_env.Prelude.{
  ◌≡◌, refl, sym, ap, ◌∙◌, ◌⊎◌, inl, inr, Bool, Bool-cases, true, false, if◌then◌else◌, Option,
  none, some, arith,
}
use mathlib.Core.Path.{subst, ap₂}
use rs_soroban_env.Prelude.Int.{ℤ, pos, ◌-ℤ◌, ltb_ℤ}
use rs_soroban_env.Errors.{Error, Result, ok, err, is_ok, ok_or}
use rs_soroban_env.Errors.Exec.{◌>>=◌, pure, lift}
use rs_soroban_env.Errors.Kept.{after_any}
use rs_soroban_env.Storage.Ledger.{LedgerInfo}
use rs_soroban_env.Asset.Allowance.{
  AllowanceDataKey, AllowanceValue, TemporaryData, amount_at, checked_sub_i128, read_allowance,
  write_allowance_amount, spend_from, spend_allowance, overflow_error,
}
use rs_soroban_env.Asset.Allowance.Spend.{Lawful, put_in, live_until, Leaves, write_amount_lem}

checked_sub_lem : (a b d : ℤ) → ok_or (checked_sub_i128 a b) overflow_error ≡ ok d → d ≡ a -ℤ b
unfolding checked_sub_i128
checked_sub_lem a b d e = ground arith

pub live_lem :
    (li : LedgerInfo) (held : Option AllowanceValue) (amount : ℤ)
    → ltb_ℤ (amount_at li held) amount ≡ false
    → ltb_ℤ (pos 0) amount ≡ true
    → (old : AllowanceValue) × (held ≡ some old)
unfolding amount_at
live_lem li none amount enough positive = absurd (ground (arith, enough, positive))
live_lem li (some old) amount enough positive = (old, refl)

module _ {S Address : Type 0} (li : LedgerInfo)
    (data_ : TemporaryData S (AllowanceDataKey Address) AllowanceValue)
    (view : S → AllowanceDataKey Address → Option AllowanceValue)
    (is_same : AllowanceDataKey Address → AllowanceDataKey Address → Bool)
    (lawful : Lawful data_ view is_same) (held : AllowanceDataKey Address → Option AllowanceValue)
    (from spender : Address) (amount : ℤ) where
  abbrev key : AllowanceDataKey Address
  key = record { from = from; spender = spender }

  -- What the allowance is worth before.
  abbrev pub worth : ℤ
  worth = amount_at li (held (record { from = from; spender = spender }))

  -- The allowances after a spending: a positive amount is taken off, and the lifetime stays.
  abbrev pub spent : AllowanceDataKey Address → Option AllowanceValue
  spent =
      if ltb_ℤ (pos 0) amount
      then put_in is_same (record { from = from; spender = spender })
          (record {
            amount = worth -ℤ amount;
            live_until_ledger = live_until (held (record { from = from; spender = spender }));
          })
          held
      else held

  -- Too little is an error that changes nothing; otherwise a success leaves the spent allowance.
  abbrev pub Outcome : Result (Unit {0}) × S → Type 0
  Outcome (r, s) =
      ((ltb_ℤ worth amount ≡ true) × (is_ok r ≡ false) × (view s ≡ held))
      ⊎ ((ltb_ℤ worth amount ≡ false) × Leaves li data_ view is_same lawful spent (r, s))

  early : (e : Error) (s : S) → view s ≡ held → Outcome (err e, s)
  early e s same = elim (Bool-cases (ltb_ℤ worth amount)) [
    | inl little ↦ inl (little, refl, same)
    | inr enough ↦ inr (enough, tt)
  ]

  taken_lem :
      (s : S)
      → view s ≡ held
      → ltb_ℤ worth amount ≡ false
      → ltb_ℤ (pos 0) amount ≡ true
      → Leaves li data_ view is_same lawful
          (put_in is_same key
            (record { amount = worth -ℤ amount; live_until_ledger = live_until (held key) })
            held)
          ((lift (λ _. ok_or (checked_sub_i128 worth amount) overflow_error) >>= λ new_allowance.
              write_allowance_amount li data_ from spender new_allowance)
            s)
  taken_lem s e enough positive =
      let (old, is_old) = live_lem li (held key) amount enough positive in
      let after : AllowanceValue → AllowanceDataKey Address → Option AllowanceValue =
        λ v. put_in is_same key v held in
      let leaves = Leaves li data_ view is_same lawful in
      after_any
        (leaves
          (after (record { amount = worth -ℤ amount; live_until_ledger = live_until (held key) })))
        (λ d. write_allowance_amount li data_ from spender d)
        (lift (λ _. ok_or (checked_sub_i128 worth amount) overflow_error)) s (λ _ _. tt)
        (λ d eq.
          subst (λ v. leaves (after v) (write_allowance_amount li data_ from spender d s))
            (ap₂ (λ a l. record { amount = a; live_until_ledger = l })
              (checked_sub_lem worth amount d eq) (ap (λ v. live_until v) (sym is_old)))
            (write_amount_lem li data_ view is_same lawful from spender d held old s e is_old))

  spend_from_lem :
      (s : S) → view s ≡ held → Outcome (spend_from li data_ from spender amount worth s)
  unfolding spend_from
  spend_from_lem s e = elim (Bool-cases (ltb_ℤ worth amount)) [
    | inl little ↦ inl (little, rw (little) refl, rw (little) e)
    | inr enough ↦ inr (
      enough,
      elim (Bool-cases (ltb_ℤ (pos 0) amount)) [
        | inl positive ↦ rw (enough, positive) (taken_lem s e enough positive)
        | inr none_ ↦ rw (enough, none_) e
      ],
    )
  ]

  pub read_lem :
      (s : S)
      → view s ≡ held
      → (view (read_allowance li data_ from spender s).1 ≡ held)
        × ((is_ok (read_allowance li data_ from spender s).0 ≡ false)
            ⊎ ((read_allowance li data_ from spender s).0 ≡ ok worth))
  unfolding read_allowance
  read_lem s e =
      let (same, found) = lawful.finding key s in
      after_any (λ (r, s'). (view s' ≡ held) × ((is_ok r ≡ false) ⊎ (r ≡ ok worth)))
        (λ allowance. pure (amount_at li allowance)) (data_.try_get_contract_data key) s
        (λ _ _. (same ∙ e, inl refl))
        (λ v eq. (
          same ∙ e,
          elim found [
            | inl failed ↦ absurd (ground (arith, failed, eq))
            | inr here ↦ inr (ground (arith, here, eq, ap (λ m. m key) e))
          ],
        ))

  -- Spending more than an allowance is worth is an error and changes no allowance. Spending no more is an
  -- error or takes exactly the amount off this allowance, which keeps its lifetime, and leaves all
  -- others; spending nothing or less changes none. An expired or missing allowance is worth nothing.
  pub spend_allowance_lem :
      (s : S) → view s ≡ held → Outcome (spend_allowance li data_ from spender amount s)
  unfolding spend_allowance
  spend_allowance_lem s e =
      let s₁ : S = (data_.charge_clone s).1 in
      let s₂ : S = (data_.charge_clone s₁).1 in
      let e₁ : view s₁ ≡ held = lawful.cloning s ∙ e in
      let e₂ : view s₂ ≡ held = lawful.cloning s₁ ∙ e₁ in
      let read = read_allowance li data_ from spender in
      let (e₃, found) = read_lem s₂ e₂ in
      after_any Outcome
        (λ _. data_.charge_clone >>= λ _. read >>= spend_from li data_ from spender amount)
        data_.charge_clone s (λ f _. early f s₁ e₁)
        (λ _ _.
          after_any Outcome (λ _. read >>= spend_from li data_ from spender amount)
            data_.charge_clone s₁ (λ f _. early f s₂ e₂)
            (λ _ _.
              after_any Outcome (spend_from li data_ from spender amount) read s₂
                (λ f _. early f (read s₂).1 e₃)
                (λ a eq.
                  let is_worth : a ≡ worth = elim found [
                    | inl failed ↦ absurd (ground (arith, failed, eq))
                    | inr here ↦ ground (arith, here, eq)
                  ] in
                  subst (λ a. Outcome (spend_from li data_ from spender amount a (read s₂).1))
                    (sym is_worth) (spend_from_lem (read s₂).1 e₃))))
