-- ===== src/Asset/Allowance/Success.antt =====
-- When spending succeeds.
use rs_soroban_env.Prelude.{
  ℕ, ◌-◌, ◌≡◌, refl, sym, ap, ◌∙◌, inl, inr, Bool, Bool-cases, true, false, ltb, Option, none, some,
  arith,
}
use mathlib.Core.Path.{subst}
use rs_soroban_env.Prelude.Int.{ℤ, pos, negsuc, ◌-ℤ◌, ltb_ℤ}
use rs_soroban_env.Errors.{Result, ok, err, is_ok, ok_or}
use rs_soroban_env.Errors.Exec.{Exec, ◌>>=◌, pure, lift}
use rs_soroban_env.Storage.Ledger.{LedgerInfo}
use rs_soroban_env.Asset.Allowance.{
  AllowanceDataKey, AllowanceValue, TemporaryData, amount_at, validate, updated, checked_sub_i128,
  read_allowance, extend_if_longer, store_allowance, write_allowance, write_allowance_amount,
  spend_from, spend_allowance, overflow_error,
}
use rs_soroban_env.Asset.Allowance.Spend.{Lawful, live_until}
use rs_soroban_env.Errors.Kept.{after_ok}
use rs_soroban_env.Asset.Allowance.Exact.{worth, read_lem, live_lem}
use rs_soroban_env.Prelude.{◌≤◌}
use rs_soroban_env.Prelude.Int.{pos_part}
use rs_soroban_env.Prelude.Signed.{i128_top}
use rs_soroban_env.Storage.Ledger.{max_live_until_ledger}

validate_lem :
    (li : LedgerInfo) (amount : ℤ) (live max : ℕ)
    → max_live_until_ledger li ≡ ok max
    → live ≤ max
    → ltb live li.sequence_number ≡ false
    → is_ok (validate li amount live) ≡ true
unfolding validate
validate_lem li amount live max e le alive = ground (arith, e, le, alive)

-- A value that is worth something lives.
alive_lem :
    (li : LedgerInfo) (old : AllowanceValue) (amount : ℤ)
    → ltb_ℤ (amount_at li (some old)) amount ≡ false
    → ltb_ℤ (pos 0) amount ≡ true
    → ltb old.live_until_ledger li.sequence_number ≡ false
unfolding amount_at
alive_lem li old amount enough positive = ground (arith, enough, positive)

fits_lem :
    (a b : ℤ)
    → ltb_ℤ a b ≡ false
    → ltb_ℤ (pos 0) b ≡ true
    → pos_part a ≤ i128_top
    → is_ok (ok_or (checked_sub_i128 a b) overflow_error) ≡ true
unfolding checked_sub_i128 ◌-ℤ◌
fits_lem (pos m) (pos n) enough positive top = ground (arith, enough, positive, top)
fits_lem (negsuc m) (pos n) enough positive top = absurd (ground (arith, enough, positive))
fits_lem a (negsuc n) enough positive top = absurd (ground (arith, positive))

ok_tt : (r : Result (Unit {0})) → is_ok r ≡ true → r ≡ ok tt
ok_tt (ok _) h = refl
ok_tt (err e) h = absurd cc

abbrev IsGoodEnd : {S : Type 0} → Result (Unit {0}) × S → Type 0
IsGoodEnd (r, s) = is_ok r ≡ true

module _ {S Address : Type 0} (li : LedgerInfo)
    (data_ : TemporaryData S (AllowanceDataKey Address) AllowanceValue)
    (view : S → AllowanceDataKey Address → Option AllowanceValue)
    (is_same : AllowanceDataKey Address → AllowanceDataKey Address → Bool)
    (lawful : Lawful data_ view is_same)
    (clone_ok : (s : S) → is_ok (data_.charge_clone s).0 ≡ true)
    (find_ok : (k : AllowanceDataKey Address) (s : S)
      → is_ok (data_.try_get_contract_data k s).0 ≡ true)
    (get_ok : (k : AllowanceDataKey Address) (v : AllowanceValue) (s : S)
      → view s k ≡ some v
      → is_ok (data_.get_contract_data k s).0 ≡ true)
    (put_ok : (k : AllowanceDataKey Address) (v : AllowanceValue) (s : S)
      → is_ok (data_.put_contract_data k v s).0 ≡ true)
    (extend_ok : (k : AllowanceDataKey Address) (m n : ℕ) (s : S)
      → is_ok (data_.extend_contract_data_ttl k m n s).0 ≡ true) where
  extends :
      (key : AllowanceDataKey Address) (amount : ℤ) (old : Option ℕ) (live seq : ℕ) (s : S)
      → is_ok (extend_if_longer li data_ key amount old live seq s).0 ≡ true
  unfolding extend_if_longer
  extends key amount old live seq s = ground (arith, extend_ok key (live - seq) (live - seq) s)

  stores :
      (key : AllowanceDataKey Address) (live seq : ℕ) (new : Option (AllowanceValue × Option ℕ))
      (s : S)
      → is_ok (store_allowance li data_ key live seq new s).0 ≡ true
  unfolding store_allowance
  stores key live seq none s = refl
  stores key live seq (some (value, old)) s =
      after_ok IsGoodEnd (λ _. extend_if_longer li data_ key value.amount old live seq)
        (data_.put_contract_data key value) s (put_ok key value s)
        (λ _ _. extends key value.amount old live seq _)

  writes :
      (from spender : Address) (amount : ℤ) (live : ℕ) (s : S)
      → is_ok (validate li amount live) ≡ true
      → is_ok (write_allowance li data_ from spender amount live s).0 ≡ true
  unfolding write_allowance
  writes from spender amount live s valid =
      let key : AllowanceDataKey Address = record { from = from; spender = spender } in
      let store : ℕ → Option AllowanceValue → Exec S (Unit {0}) =
        λ seq old. store_allowance li data_ key live seq (updated amount live old) in
      after_ok IsGoodEnd (λ seq. data_.try_get_contract_data key >>= store seq)
        (lift (λ _. validate li amount live)) s valid
        (λ seq _.
          after_ok IsGoodEnd (store seq) (data_.try_get_contract_data key) s (find_ok key s)
            (λ old _. stores key live seq (updated amount live old) _))

  writes_amount :
      (from spender : Address) (amount : ℤ) (old : AllowanceValue) (s : S)
      → view s (record { from = from; spender = spender }) ≡ some old
      → is_ok (validate li amount old.live_until_ledger) ≡ true
      → is_ok (write_allowance_amount li data_ from spender amount s).0 ≡ true
  unfolding write_allowance_amount
  writes_amount from spender amount old s is_old valid =
      let key : AllowanceDataKey Address = record { from = from; spender = spender } in
      let get = data_.get_contract_data key in
      let write : AllowanceValue → Exec S (Unit {0}) =
        λ v. write_allowance li data_ from spender amount v.live_until_ledger in
      let s₁ : S = (data_.charge_clone s).1 in
      let s₂ : S = (data_.charge_clone s₁).1 in
      let old₂ : view s₂ key ≡ some old =
        ap (λ m. m key) (lawful.cloning s₁ ∙ lawful.cloning s) ∙ is_old in
      after_ok IsGoodEnd (λ _. data_.charge_clone >>= λ _. get >>= write) data_.charge_clone s
        (clone_ok s)
        (λ _ _.
          after_ok IsGoodEnd (λ _. get >>= write) data_.charge_clone s₁ (clone_ok s₁)
            (λ _ _. after_ok IsGoodEnd write get s₂ (get_ok key old s₂ old₂) (λ v eq.
              let v_old : v ≡ old = elim (lawful.getting key s₂).1 [
                | inl failed ↦ absurd (ground (arith, failed, eq))
                | inr (w, here, there) ↦ ground (arith, here, there, eq, old₂)
              ] in
              writes from spender amount v.live_until_ledger (get s₂).1 (
                subst (λ v. is_ok (validate li amount v.live_until_ledger) ≡ true) (sym v_old)
                  valid))))

  reads : (from spender : Address) (s : S) → is_ok (read_allowance li data_ from spender s).0 ≡ true
  unfolding read_allowance
  reads from spender s =
      let key : AllowanceDataKey Address = record { from = from; spender = spender } in
      let goal : Result ℤ × S → Type 0 = λ p. is_ok p.0 ≡ true in
      after_ok goal (λ allowance. pure (amount_at li allowance)) (data_.try_get_contract_data key) s
        (find_ok key s) (λ _ _. refl)

  takes :
      (from spender : Address) (amount : ℤ) (max : ℕ)
      (held : AllowanceDataKey Address → Option AllowanceValue) (s : S)
      → view s ≡ held
      → max_live_until_ledger li ≡ ok max
      → live_until (held (record { from = from; spender = spender })) ≤ max
      → pos_part (worth li data_ view is_same lawful held from spender amount) ≤ i128_top
      → ltb_ℤ (worth li data_ view is_same lawful held from spender amount) amount ≡ false
      → is_ok
          (spend_from li data_ from spender amount
            (worth li data_ view is_same lawful held from spender amount)
            s).0
        ≡ true
  unfolding spend_from
  takes from spender amount max held s e top_e live fits enough =
      let key : AllowanceDataKey Address = record { from = from; spender = spender } in
      let available = worth li data_ view is_same lawful held from spender amount in
      elim (Bool-cases (ltb_ℤ (pos 0) amount)) [
        | inr none_ ↦ rw (enough, none_) refl
        | inl positive ↦
            let (old, is_old) = live_lem li (held key) amount enough positive in
            let alive =
              alive_lem li old amount
                (subst (λ v. ltb_ℤ (amount_at li v) amount ≡ false) is_old enough) positive in
            let lives = subst (λ v. live_until v ≤ max) is_old live in
            rw (enough, positive)
              (after_ok IsGoodEnd (λ d. write_allowance_amount li data_ from spender d)
                (lift (λ _. ok_or (checked_sub_i128 available amount) overflow_error)) s
                (fits_lem available amount enough positive fits)
                (λ d _.
                  writes_amount from spender d old s (ap (λ m. m key) e ∙ is_old)
                    (validate_lem li d old.live_until_ledger max top_e lives alive)))
      ]

  -- Where no operation on the data fails, spending no more than an allowance is worth succeeds; the
  -- allowance lives at most as long as the ledger lets it, and its worth fits 128 bits.
  pub spend_allowance-ok :
      (from spender : Address) (amount : ℤ) (max : ℕ) (s : S)
      → max_live_until_ledger li ≡ ok max
      → live_until (view s (record { from = from; spender = spender })) ≤ max
      → pos_part (worth li data_ view is_same lawful (view s) from spender amount) ≤ i128_top
      → ltb_ℤ (worth li data_ view is_same lawful (view s) from spender amount) amount ≡ false
      → (spend_allowance li data_ from spender amount s).0 ≡ ok tt
  unfolding spend_allowance
  spend_allowance-ok from spender amount max s top_e live fits enough =
      let s₁ : S = (data_.charge_clone s).1 in
      let s₂ : S = (data_.charge_clone s₁).1 in
      let e₂ : view s₂ ≡ view s = lawful.cloning s₁ ∙ lawful.cloning s in
      let read = read_allowance li data_ from spender in
      let spend = spend_from li data_ from spender amount in
      let (e₃, found) = read_lem li data_ view is_same lawful (view s) from spender amount s₂ e₂ in
      ok_tt _ (
        after_ok IsGoodEnd (λ _. data_.charge_clone >>= λ _. read >>= spend) data_.charge_clone s
          (clone_ok s)
          (λ _ _.
            after_ok IsGoodEnd (λ _. read >>= spend) data_.charge_clone s₁ (clone_ok s₁)
              (λ _ _. after_ok IsGoodEnd spend read s₂ (reads from spender s₂) (λ a eq.
                let is_worth : a ≡ worth li data_ view is_same lawful (view s) from spender amount =
                  elim found [
                    | inl failed ↦ absurd (ground (arith, failed, eq))
                    | inr here ↦ ground (arith, here, eq)
                  ] in
                subst (λ a. is_ok (spend a (read s₂).1).0 ≡ true) (sym is_worth)
                  (takes from spender amount max (view s) (read s₂).1 e₃ top_e live fits enough)))))
