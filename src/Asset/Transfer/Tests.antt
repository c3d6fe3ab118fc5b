-- ===== src/Asset/Transfer/Tests.antt =====
-- A transfer in a small store of balances.
use rs_soroban_env.Prelude.{
  ℕ, ◌-◌, ◌≡◌, refl, Bool, true, false, ◌==◌, if◌then◌else◌, Option, none, some, ◌⊎◌, inl, inr,
}
use rs_soroban_env.Prelude.Int.{pos, ◌-ℤ◌, ◌+ℤ◌, ◌*ℤ◌}
use rs_soroban_env.Prelude.Signed.{i64_top}
use rs_soroban_env.Errors.{Result, ok, err, error, ScErrorType, ScErrorCode, is_ok}
use rs_soroban_env.Errors.Exec.{pure}
use rs_soroban_env.Asset.Allowance.{TemporaryData}
use rs_soroban_env.Asset.Allowance.Spend.{Lawful, put_in}
use rs_soroban_env.Asset.Classic.{credit_alphanum4, ClassicHost, v1, get_min_max_account_balance}
use rs_soroban_env.Asset.Balance.{BalanceValue, contract_id, BalanceHost, issued_by}
use rs_soroban_env.Asset.Transfer.{MuxHost, muxed, mux_address, mux_id, transfer}
use rs_soroban_env.Asset.Transfer.Seen.{Quiet}
use rs_soroban_env.Asset.Transfer.Conserved.{Conserved, transfer-Conserved}

abbrev Store : Type 0
Store = ℕ → Option BalanceValue

abbrev is_same : ℕ → ℕ → Bool
is_same a b = a == b

abbrev or_missing : Option BalanceValue → Result BalanceValue
or_missing none = err (error ScErrorType.storage ScErrorCode.missing_value)
or_missing (some v) = ok v

abbrev store_data : TemporaryData Store ℕ BalanceValue
store_data = record {
  try_get_contract_data = λ k s. (ok (s k), s);
  get_contract_data = λ k s. (or_missing (s k), s);
  put_contract_data = λ k v s. (ok tt, put_in is_same k v s);
  extend_contract_data_ttl = λ k m n. pure tt;
  charge_clone = pure tt;
}

abbrev view : Store → Store
view s = s

or_missing_lem :
    (v : Option BalanceValue)
    → (is_ok (or_missing v) ≡ false) ⊎ ((w : BalanceValue) × (or_missing v ≡ ok w) × (v ≡ some w))
or_missing_lem none = inl refl
or_missing_lem (some w) = inr (w, refl, refl)

store_Lawful : Lawful store_data view is_same
store_Lawful = record {
  finding = λ k s. (refl, inr refl);
  getting = λ k s. (refl, or_missing_lem (s k));
  putting = λ k v s. inr refl;
  extending = λ k m n s. refl;
  cloning = λ s. refl;
}

-- An asset with no accounts: all holders are contracts.
abbrev no_accounts : ClassicHost Store
no_accounts = record {
  read_asset = pure (credit_alphanum4 (record { code = 1; issuer = 2 }));
  charge_clone = pure tt;
  to_account_key = λ a. pure a;
  to_trustline_key = λ a asset. pure a;
  try_get = λ k. pure none;
  account_address_from_key = λ k. pure tt;
  charge_entry = pure tt;
  put = λ k le. pure tt;
  base_reserve = λ s. ok 100;
}

abbrev small_host : BalanceHost Store ℕ
small_host = record {
  classic = no_accounts;
  balances = store_data;
  to_sc_address = λ a. pure contract_id;
  read_asset_info = pure (issued_by 2);
  load_issuer_flags =
      λ issuer. pure (record { required = false; revocable = false; clawback_enabled = true });
}

store_Quiet : Quiet small_host view
store_Quiet = record {
  reading_asset = λ s. refl;
  loading_flags = λ issuer s. refl;
  resolving = λ a s. refl;
}

-- Holder 3 has 70.
abbrev held : Store
held k =
    if is_same k 3
    then some (record { amount = pos 70; authorized = true; clawback = false })
    else none

-- The muxed address 7 is 4 with the number 1.
abbrev small_mux : MuxHost Store ℕ
small_mux = record {
  get_address_from_muxed_address = λ object. pure (object - 3);
  get_id_from_muxed_address = λ object. pure 1;
}

muxed_seven : (s : Store) → (mux_address small_mux (muxed 7) s).0 ≡ ok 4
unfolding mux_address
muxed_seven s = refl

seven_Keeps : (s : Store) → (mux_address small_mux (muxed 7) s).1 ≡ s
unfolding mux_address
seven_Keeps s = refl

seven_id_Keeps : (s : Store) → (mux_id small_mux (muxed 7) s).1 ≡ s
unfolding mux_id
seven_id_Keeps s = refl

transferred :
    (transfer small_host small_mux
      (λ a. pure tt)
      (pure tt)
      (λ a b id n. pure tt)
      3
      (muxed 7)
      (pos 50)
      held).0
    ≡ ok tt
unfolding transfer ◌-ℤ◌ ◌+ℤ◌
transferred = refl

transfer-Conserved_example :
    Conserved small_host view is_same store_Lawful store_Quiet 3 4
      (λ s. refl)
      (λ s. refl)
      (pos 50)
      refl
      refl
      refl
      refl
      5
      refl
      refl
      held
      (transfer small_host small_mux
        (λ a. pure tt)
        (pure tt)
        (λ a b id n. pure tt)
        3
        (muxed 7)
        (pos 50)
        held)
transfer-Conserved_example =
    transfer-Conserved small_host view is_same store_Lawful store_Quiet 3 4 (λ s. refl) (λ s. refl)
      (pos 50) refl refl refl refl 5 refl refl held small_mux (λ a. pure tt) (pure tt)
      (λ a b id n. pure tt) (muxed 7) muxed_seven (λ s. seven_Keeps s) (λ s. seven_id_Keeps s)
      (λ s. refl) (λ s. refl) (λ id s. refl) held refl

-- Three reserves and 20 sold stay in an account, and 7 bought must fit.
account_limits :
    get_min_max_account_balance (ok 100) (record {
      balance = pos 500;
      num_sub_entries = 1;
      ext = v1 (record { buying = pos 7; selling = pos 20 });
    })
    ≡ ok (pos 320, pos (i64_top - 7))
unfolding get_min_max_account_balance ◌-ℤ◌ ◌+ℤ◌ ◌*ℤ◌
account_limits = refl
