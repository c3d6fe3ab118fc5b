-- ===== src/Asset/Contract/Tests.antt =====
-- A small contract in which every balance is 500, and holder 9 has authorized the call.
use rs_soroban_env.Prelude.{
  ℕ, ◌+◌, ◌-◌, ◌≡◌, refl, true, ◌==◌, if◌then◌else◌, none, some, List, [], ◌∷◌, arith,
}
use rs_soroban_env.Prelude.Int.{pos, ◌+ℤ◌}
use rs_soroban_env.Errors.{ok, err}
use rs_soroban_env.Errors.Exec.{Exec, pure}
use rs_soroban_env.Errors.Preserves.{pure-Preserves}
use rs_soroban_env.Storage.Ledger.{LedgerInfo}
use rs_soroban_env.Asset.Allowance.{TemporaryData}
use rs_soroban_env.Asset.Classic.{native}
use rs_soroban_env.Asset.Balance.{contract_id, issued_by, deauthorized_error}
use rs_soroban_env.Asset.Transfer.{MuxHost, muxed, transfer}
use rs_soroban_env.Asset.Contract.{
  ContractHost, approve, transfer_from, burn, burn_from, clawback, set_authorized, mint, set_admin,
}
use rs_soroban_env.Asset.Contract.Journal.{Journal, JournalLaws, TransferLaws, still, seen}
use rs_soroban_env.Asset.Contract.Journal.Allowance.{DataLaws}
use rs_soroban_env.Asset.Contract.Asked.{Asks}
use rs_soroban_env.Asset.Contract.Consent.{entry_points-Consent}

abbrev ledger : LedgerInfo
ledger = record {
  sequence_number = 100;
  min_temp_entry_ttl = 16;
  min_persistent_entry_ttl = 64;
  max_entry_ttl = 1000;
}

record ContractState : Type 0 where
  admin : ℕ
  asked : List (ℕ × ℕ)
  writes : ℕ

abbrev write : Exec ContractState (Unit {0})
write s = (ok tt, record s { writes = s.writes + 1 })

abbrev data_of : {K V : Type 0} → V → TemporaryData ContractState K V
data_of v = record {
  try_get_contract_data = λ k. pure (some v);
  get_contract_data = λ k. pure v;
  put_contract_data = λ k w. write;
  extend_contract_data_ttl = λ k m n. write;
  charge_clone = pure tt;
}

abbrev require_nine : ℕ → Exec ContractState (Unit {0})
require_nine a s =
    if a == 9
    then (ok tt, record s { asked = (a, s.writes) ∷ s.asked })
    else (err deauthorized_error, s)

abbrev small_contract : ContractHost ContractState ℕ
small_contract = record {
  balance_host = record {
    classic = record {
      read_asset = pure native;
      charge_clone = pure tt;
      to_account_key = λ a. pure a;
      to_trustline_key = λ a asset. pure a;
      try_get = λ k. pure none;
      account_address_from_key = λ k. pure tt;
      charge_entry = pure tt;
      put = λ k le. write;
      base_reserve = λ s. ok 100;
    };
    balances = data_of (record { amount = pos 500; authorized = true; clawback = true });
    to_sc_address = λ a. pure contract_id;
    read_asset_info = pure (issued_by 2);
    load_issuer_flags =
        λ issuer. pure (record { required = true; revocable = true; clawback_enabled = true });
  };
  allowances = data_of (record { amount = pos 500; live_until_ledger = 300 });
  require_auth = require_nine;
  extend_instance = write;
  is_issuer = λ issuer a. pure (issuer == a);
  get_admin = λ s. (ok s.admin, s);
  put_admin = λ a s. (ok tt, record s { admin = a; writes = s.writes + 1 });
  charge_clone = pure tt;
  emit = λ event. pure tt;
}

abbrev journal : Journal ContractState ℕ
journal = record { asked = λ s. s.asked; writes = λ s. s.writes; admin = λ s. s.admin }

data_of-DataLaws :
    {K V : Type 0} (v : V) → DataLaws {K = K} (data_of {K = K} v) (still journal) (seen journal)
data_of-DataLaws v = record {
  trying = λ k. pure-Preserves (some v);
  getting = λ k. pure-Preserves v;
  cloning = pure-Preserves tt;
  putting = λ k w. record { kept = λ s. refl };
  extending = λ k m n. record { kept = λ s. refl };
}

require_nine-asked :
    (a : ℕ) (s : ContractState)
    → (require_nine a s).0 ≡ ok tt
    → seen journal (require_nine a s).1 ≡ ((a, s.writes) ∷ s.asked, s.admin)
require_nine-asked a s h = ground arith

small_contract-JournalLaws : JournalLaws small_contract journal
small_contract-JournalLaws = record {
  balances = record {
    classic = record {
      reading_asset = pure-Preserves native;
      cloning = pure-Preserves tt;
      account_key = λ a. pure-Preserves a;
      trustline_key = λ a asset. pure-Preserves a;
      trying = λ k. pure-Preserves none;
      naming = λ k. pure-Preserves tt;
      charging = pure-Preserves tt;
      putting = λ k le. record { kept = λ s. refl };
    };
    balances = data_of-DataLaws (record { amount = pos 500; authorized = true; clawback = true });
    resolving = λ a. pure-Preserves contract_id;
    reading_asset = pure-Preserves (issued_by 2);
    loading_flags = λ issuer.
        pure-Preserves (record { required = true; revocable = true; clawback_enabled = true });
  };
  allowances = data_of-DataLaws (record { amount = pos 500; live_until_ledger = 300 });
  issuing = λ issuer a. pure-Preserves (issuer == a);
  cloning = pure-Preserves tt;
  reading_admin = record { kept = λ s. refl };
  admin_read = λ a s h. cc;
  extending = record { kept = λ s. refl };
  emitting = λ event. pure-Preserves tt;
  asking = require_nine-asked;
  appointing = λ a s h. refl;
}

-- A muxed address with its number.
abbrev small_mux : MuxHost ContractState ℕ
small_mux = record {
  get_address_from_muxed_address = λ object. pure (object - 3);
  get_id_from_muxed_address = λ object. pure 1;
}

small_mux-TransferLaws : TransferLaws small_mux (λ a b id n. pure tt) journal
small_mux-TransferLaws = record {
  addressing = λ object. pure-Preserves (object - 3);
  numbering = λ object. pure-Preserves 1;
  announcing = λ a b id n. pure-Preserves tt;
}

abbrev at_start : ContractState
at_start = record { admin = 9; asked = []; writes = 0 }

-- The administrator 9 hands over to 8.
handed_over :
    set_admin ledger small_contract 8 at_start
    ≡ (ok tt, record { admin = 8; asked = (9, 0) ∷ []; writes = 2 })
unfolding set_admin
handed_over = refl

-- The authorization is asked for before the three writes.
minted_once :
    mint ledger small_contract 4 (pos 50) at_start
    ≡ (ok tt, record { admin = 9; asked = (9, 0) ∷ []; writes = 3 })
unfolding mint ◌+ℤ◌
minted_once = refl

-- The administrator 8 has authorized nothing.
not_authorized :
    set_admin ledger small_contract 9 (record { admin = 8; asked = []; writes = 0 })
    ≡ (err deauthorized_error, record { admin = 8; asked = []; writes = 0 })
unfolding set_admin
not_authorized = refl

entry_points-Consent_example :
    Asks journal 9 9 at_start (mint ledger small_contract 4 (pos 50) at_start)
    × Asks journal 9 9 at_start (clawback ledger small_contract 9 (pos 50) at_start)
    × Asks journal 9 9 at_start (set_authorized ledger small_contract 4 true at_start)
    × Asks journal 9 4 at_start (set_admin ledger small_contract 4 at_start)
    × Asks journal 9 9 at_start (
        transfer small_contract.balance_host small_mux require_nine write
          (λ a b id n. pure tt)
          9
          (muxed 7)
          (pos 50)
          at_start)
    × Asks journal 9 9 at_start (approve ledger small_contract 9 9 (pos 50) 200 at_start)
    × Asks journal 9 9 at_start (burn ledger small_contract 9 (pos 50) at_start)
    × Asks journal 9 9 at_start (transfer_from ledger small_contract 9 9 4 (pos 50) at_start)
    × Asks journal 9 9 at_start (burn_from ledger small_contract 9 9 (pos 50) at_start)
entry_points-Consent_example =
    entry_points-Consent ledger small_contract journal small_contract-JournalLaws small_mux
      (λ a b id n. pure tt) small_mux-TransferLaws 9 9 4 (muxed 7) (pos 50) 200 true at_start
