-- ===== src/Asset/Contract/Journal/Allowance.antt =====
-- The steps on allowances, as with balances: what reads leaves the finer view of the state, and what writes
-- the coarser one.
use rs_soroban_env.Prelude.{ℕ, ◌≡◌, ◌-◌, ◌&&◌, ltb, Option, none, some}
use rs_soroban_env.Prelude.Int.{ℤ, pos, ltb_ℤ}
use rs_soroban_env.Errors.{ok_or}
use rs_soroban_env.Errors.Preserves.{
  Preserves, weaken, pure-Preserves, throw-Preserves, lift-Preserves, bind-Preserves, if-Preserves,
}
use rs_soroban_env.Storage.Ledger.{LedgerInfo}
use rs_soroban_env.Asset.Allowance.{
  TemporaryData, AllowanceDataKey, AllowanceValue, validate, updated, checked_sub_i128, or_zero,
  amount_at, allowance_error, overflow_error, read_allowance, extend_if_longer, store_allowance,
  write_allowance, write_allowance_amount, spend_from, spend_allowance,
}

-- Reading leaves the finer view, and writing the coarser one.
pub record DataLaws {S K X V W : Type 0} (data_ : TemporaryData S K X) (still : S → V)
    (seen : S → W) : Type 0 where
  pub trying : (k : K) → Preserves still (data_.try_get_contract_data k)
  pub getting : (k : K) → Preserves still (data_.get_contract_data k)
  pub cloning : Preserves still data_.charge_clone
  pub putting : (k : K) (x : X) → Preserves seen (data_.put_contract_data k x)
  pub extending : (k : K) (m n : ℕ) → Preserves seen (data_.extend_contract_data_ttl k m n)

module _ {S V W Address : Type 0} (li : LedgerInfo)
    (data_ : TemporaryData S (AllowanceDataKey Address) AllowanceValue) (still : S → V)
    (seen : S → W) (coarser : (s t : S) → still s ≡ still t → seen s ≡ seen t)
    (laws : DataLaws data_ still seen) where
  read_allowance-Preserves :
      (from spender : Address) → Preserves still (read_allowance li data_ from spender)
  unfolding read_allowance
  read_allowance-Preserves from spender =
      bind-Preserves _ _ (laws.trying _) (λ found. pure-Preserves (amount_at li found))

  extend_if_longer-Preserves :
      (key : AllowanceDataKey Address) (amount : ℤ) (old : Option ℕ) (live_until ledger_seq : ℕ)
      → Preserves seen (extend_if_longer li data_ key amount old live_until ledger_seq)
  unfolding extend_if_longer
  extend_if_longer-Preserves key amount old live_until ledger_seq =
      if-Preserves (ltb_ℤ (pos 0) amount && ltb (or_zero old) live_until) _ _
        (laws.extending key (live_until - ledger_seq) (live_until - ledger_seq)) (pure-Preserves tt)

  store_allowance-Preserves :
      (key : AllowanceDataKey Address) (live_until ledger_seq : ℕ)
      (new : Option (AllowanceValue × Option ℕ))
      → Preserves seen (store_allowance li data_ key live_until ledger_seq new)
  unfolding store_allowance
  store_allowance-Preserves key live_until ledger_seq none = pure-Preserves tt
  store_allowance-Preserves key live_until ledger_seq (some (value, old)) =
      bind-Preserves _ _ (laws.putting key value)
        (λ _. extend_if_longer-Preserves key value.amount old live_until ledger_seq)

  pub write_allowance-Preserves :
      (from spender : Address) (amount : ℤ) (live_until : ℕ)
      → Preserves seen (write_allowance li data_ from spender amount live_until)
  unfolding write_allowance
  write_allowance-Preserves from spender amount live_until =
      bind-Preserves _ _ (lift-Preserves (λ _. validate li amount live_until)) (λ ledger_seq.
        bind-Preserves _ _
          (weaken still seen coarser _ (laws.trying (record { from = from; spender = spender })))
          (λ old.
            store_allowance-Preserves (record { from = from; spender = spender }) live_until
              ledger_seq (updated amount live_until old)))

  write_allowance_amount-Preserves :
      (from spender : Address) (amount : ℤ)
      → Preserves seen (write_allowance_amount li data_ from spender amount)
  unfolding write_allowance_amount
  write_allowance_amount-Preserves from spender amount =
      let cloning = weaken still seen coarser _ laws.cloning in
      bind-Preserves _ _ cloning (λ _. bind-Preserves _ _ cloning (λ _.
        bind-Preserves _ _
          (weaken still seen coarser _ (laws.getting (record { from = from; spender = spender })))
          (λ old. write_allowance-Preserves from spender amount old.live_until_ledger)))

  spend_from-Preserves :
      (from spender : Address) (amount allowance : ℤ)
      → Preserves seen (spend_from li data_ from spender amount allowance)
  unfolding spend_from
  spend_from-Preserves from spender amount allowance =
      if-Preserves (ltb_ℤ allowance amount) _ _ (throw-Preserves allowance_error) (
        if-Preserves (ltb_ℤ (pos 0) amount) _ _
          (bind-Preserves _ _
            (lift-Preserves (λ _. ok_or (checked_sub_i128 allowance amount) overflow_error))
            (λ new. write_allowance_amount-Preserves from spender new))
          (pure-Preserves tt))

  pub spend_allowance-Preserves :
      (from spender : Address) (amount : ℤ)
      → Preserves seen (spend_allowance li data_ from spender amount)
  unfolding spend_allowance
  spend_allowance-Preserves from spender amount =
      let cloning = weaken still seen coarser _ laws.cloning in
      bind-Preserves _ _ cloning (λ _. bind-Preserves _ _ cloning (λ _.
        bind-Preserves _ _ (weaken still seen coarser _ (read_allowance-Preserves from spender))
          (λ allowance. spend_from-Preserves from spender amount allowance)))
