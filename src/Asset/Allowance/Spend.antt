-- ===== src/Asset/Allowance/Spend.antt =====
-- What spending does to the allowances.
use rs_soroban_env.Prelude.{
  ℕ, ◌-◌, ◌≡◌, sym, ap, ◌∙◌, ◌⊎◌, inl, inr, Bool, false, if◌then◌else◌, Option, none, some, arith,
}
use mathlib.Core.Path.{subst}
use rs_soroban_env.Prelude.Int.{ℤ}
use rs_soroban_env.Errors.{Result, ok, err, is_ok}
use rs_soroban_env.Errors.Exec.{Exec, ◌>>=◌, lift}
use rs_soroban_env.Errors.Kept.{after_any}
use rs_soroban_env.Storage.Ledger.{LedgerInfo}
use rs_soroban_env.Asset.Allowance.{
  AllowanceDataKey, AllowanceValue, TemporaryData, validate, updated, extend_if_longer,
  store_allowance, write_allowance, write_allowance_amount,
}

-- The data with one entry changed.
abbrev pub put_in : {K V : Type 0} → (K → K → Bool) → K → V → (K → Option V) → K → Option V
put_in is_same key value view k = if is_same k key then some value else view k

-- The data hold a value for some keys: a read gives it, if it succeeds, and a write that succeeds replaces
-- it. No read and no extension changes what they hold.
pub record Lawful {S K V : Type 0} (data_ : TemporaryData S K V) (view : S → K → Option V)
    (is_same : K → K → Bool) : Type 0 where
  pub finding :
      (k : K) (s : S)
      → (view (data_.try_get_contract_data k s).1 ≡ view s)
        × ((is_ok (data_.try_get_contract_data k s).0 ≡ false)
            ⊎ ((data_.try_get_contract_data k s).0 ≡ ok (view s k)))
  pub getting :
      (k : K) (s : S)
      → (view (data_.get_contract_data k s).1 ≡ view s)
        × ((is_ok (data_.get_contract_data k s).0 ≡ false)
            ⊎ ((v : V) × ((data_.get_contract_data k s).0 ≡ ok v) × (view s k ≡ some v)))
  pub putting :
      (k : K) (v : V) (s : S)
      → (is_ok (data_.put_contract_data k v s).0 ≡ false)
        ⊎ (view (data_.put_contract_data k v s).1 ≡ put_in is_same k v (view s))
  pub extending :
      (k : K) (m n : ℕ) (s : S) → view (data_.extend_contract_data_ttl k m n s).1 ≡ view s
  pub cloning : (s : S) → view (data_.charge_clone s).1 ≡ view s

abbrev pub live_until : Option AllowanceValue → ℕ
live_until none = 0
live_until (some value) = value.live_until_ledger

module _ {S Address : Type 0} (li : LedgerInfo)
    (data_ : TemporaryData S (AllowanceDataKey Address) AllowanceValue)
    (view : S → AllowanceDataKey Address → Option AllowanceValue)
    (is_same : AllowanceDataKey Address → AllowanceDataKey Address → Bool)
    (lawful : Lawful data_ view is_same) where
  -- After a success the data are these.
  abbrev pub Leaves :
      (AllowanceDataKey Address → Option AllowanceValue) → Result (Unit {0}) × S → Type 0
  Leaves after (err e, s) = Unit
  Leaves after (ok _, s) = view s ≡ after

  extend_lem :
      (key : AllowanceDataKey Address) (amount : ℤ) (old : Option ℕ) (live seq : ℕ) (s : S)
      → Leaves (view s) (extend_if_longer li data_ key amount old live seq s)
  unfolding extend_if_longer
  extend_lem key amount old live seq s =
      ground (arith, lawful.extending key (live - seq) (live - seq) s)

  store_lem :
      (key : AllowanceDataKey Address) (value : AllowanceValue) (old : Option ℕ) (live seq : ℕ)
      (s : S)
      → Leaves
          (put_in is_same key value (view s))
          (store_allowance li data_ key live seq (some (value, old)) s)
  unfolding store_allowance
  store_lem key value old live seq s =
      let put = data_.put_contract_data key value in
      after_any (Leaves (put_in is_same key value (view s)))
        (λ _. extend_if_longer li data_ key value.amount old live seq) put s (λ _ _. tt)
        (λ _ eq. elim (lawful.putting key value s) [
          | inl failed ↦ absurd (ground (arith, failed, eq))
          | inr after ↦
              subst
                (λ v. Leaves v (extend_if_longer li data_ key value.amount old live seq (put s).1))
                after (extend_lem key value.amount old live seq (put s).1)
        ])

  abbrev pub key_of : Address → Address → AllowanceDataKey Address
  key_of from spender = record { from = from; spender = spender }

  write_lem :
      (from spender : Address) (amount : ℤ) (live : ℕ)
      (held : AllowanceDataKey Address → Option AllowanceValue) (old : AllowanceValue) (s : S)
      → view s ≡ held
      → held (key_of from spender) ≡ some old
      → Leaves
          (put_in is_same
            (key_of from spender)
            (record { amount = amount; live_until_ledger = live })
            held)
          (write_allowance li data_ from spender amount live s)
  unfolding write_allowance updated
  write_lem from spender amount live held old s e is_old =
      let key = key_of from spender in
      let value : AllowanceValue = record { amount = amount; live_until_ledger = live } in
      let goal = Leaves (put_in is_same key value held) in
      let s₁ : S = (data_.try_get_contract_data key s).1 in
      let (same, found) = lawful.finding key s in
      after_any goal
        (λ seq. data_.try_get_contract_data key >>= λ found.
          store_allowance li data_ key live seq (updated amount live found))
        (lift (λ _. validate li amount live)) s (λ _ _. tt)
        (λ seq _.
          after_any goal
            (λ found. store_allowance li data_ key live seq (updated amount live found))
            (data_.try_get_contract_data key) s (λ _ _. tt)
            (λ v eq.
              let v_old : v ≡ some old = elim found [
                | inl failed ↦ absurd (ground (arith, failed, eq))
                | inr here ↦ ground (arith, here, eq, ap (λ m. m key) e, is_old)
              ] in
              subst (λ v. goal (store_allowance li data_ key live seq (updated amount live v) s₁))
                (sym v_old)
                (subst
                  (λ m. Leaves (put_in is_same key value m) (
                    store_allowance li data_ key live seq (some (value, some old.live_until_ledger))
                      s₁))
                  (same ∙ e) (store_lem key value (some old.live_until_ledger) live seq s₁))))

  pub write_amount_lem :
      (from spender : Address) (amount : ℤ)
      (held : AllowanceDataKey Address → Option AllowanceValue) (old : AllowanceValue) (s : S)
      → view s ≡ held
      → held (key_of from spender) ≡ some old
      → Leaves
          (put_in is_same
            (key_of from spender)
            (record { amount = amount; live_until_ledger = old.live_until_ledger })
            held)
          (write_allowance_amount li data_ from spender amount s)
  unfolding write_allowance_amount
  write_amount_lem from spender amount held old s e is_old =
      let key = key_of from spender in
      let value : AllowanceValue = record {
        amount = amount;
        live_until_ledger = old.live_until_ledger;
      } in
      let goal = Leaves (put_in is_same key value held) in
      let write : AllowanceValue → Exec S (Unit {0}) =
        λ v. write_allowance li data_ from spender amount v.live_until_ledger in
      let get = data_.get_contract_data key in
      let s₁ : S = (data_.charge_clone s).1 in
      let s₂ : S = (data_.charge_clone s₁).1 in
      let e₂ : view s₂ ≡ held = lawful.cloning s₁ ∙ lawful.cloning s ∙ e in
      let (same, found) = lawful.getting key s₂ in
      after_any goal (λ _. data_.charge_clone >>= λ _. get >>= write) data_.charge_clone s
        (λ _ _. tt)
        (λ _ _.
          after_any goal (λ _. get >>= write) data_.charge_clone s₁ (λ _ _. tt)
            (λ _ _.
              after_any goal write get s₂ (λ _ _. tt)
                (λ v eq.
                  let v_old : v ≡ old = elim found [
                    | inl failed ↦ absurd (ground (arith, failed, eq))
                    | inr (w, here, there) ↦
                        ground (arith, here, there, eq, ap (λ m. m key) e₂, is_old)
                  ] in
                  subst (λ v. goal (write v (get s₂).1)) (sym v_old)
                    (write_lem from spender amount old.live_until_ledger held old (get s₂).1
                      (same ∙ e₂) is_old))))
