-- ===== src/Asset/Balance.antt =====
-- Balances of the Stellar asset contract and who may hold them:
-- soroban-env-host/src/builtin_contracts/stellar_asset_contract/balance.rs. A contract's balance is in
-- persistent data, an account's in its own entries.
use rs_soroban_env.Prelude.{ℕ, ◌*◌, ◌-◌, Bool, false, not, if◌then◌else◌, Option, none, some}
use rs_soroban_env.Prelude.Int.{ℤ, pos}
use rs_soroban_env.Errors.{Error, error, ScErrorType, ScErrorCode}
use rs_soroban_env.Errors.Exec.{Exec, ◌>>=◌, ◌>>◌, pure, throw}
use rs_soroban_env.Asset.Allowance.{TemporaryData}
use rs_soroban_env.Asset.Classic.{ClassicHost, contract_error}
use rs_soroban_env.Asset.Classic.Authorization.{get_classic_balance, is_account_authorized}

pub record BalanceValue : Type 0 where
  pub amount : ℤ
  pub authorized : Bool
  pub clawback : Bool

-- The kinds of `ScAddress`.
pub data Holder : Type 0 where
  account_id : ℕ → Holder
  contract_id other_id : Holder

-- The asset's issuer, and the flags of its account.
pub data AssetInfo : Type 0 where
  native_info : AssetInfo
  issued_by : ℕ → AssetInfo

pub record IssuerFlags : Type 0 where
  pub required : Bool
  pub revocable : Bool
  pub clawback_enabled : Bool

-- The persistent data of balances have the interface of the temporary data of allowances.
pub record BalanceHost (S Address : Type 0) : Type 0 where
  pub classic : ClassicHost S
  pub balances : TemporaryData S Address BalanceValue
  pub to_sc_address : Address → Exec S Holder
  pub read_asset_info : Exec S AssetInfo
  pub load_issuer_flags : ℕ → Exec S IssuerFlags

abbrev pub deauthorized_error : Error
deauthorized_error = contract_error 11

abbrev pub negative_amount_error : Error
negative_amount_error = contract_error 8

abbrev pub unexpected_address : Error
unexpected_address = error ScErrorType.object ScErrorCode.internal_error

abbrev pub day_in_ledgers : ℕ
day_in_ledgers = 17280

abbrev pub balance_extend_amount : ℕ
balance_extend_amount = 30 * day_in_ledgers

abbrev pub balance_ttl_threshold : ℕ
balance_ttl_threshold = balance_extend_amount - day_in_ledgers

module _ {S Address : Type 0} (host : BalanceHost S Address) where
  unfoldable pub is_flag_set : (IssuerFlags → Bool) → AssetInfo → Exec S Bool
  is_flag_set flag native_info = pure false
  is_flag_set flag (issued_by issuer) = host.load_issuer_flags issuer >>= λ flags. pure (flag flags)

  unfoldable pub is_asset_auth_required : Exec S Bool
  unfolding is_flag_set
  is_asset_auth_required = host.read_asset_info >>= is_flag_set (λ flags. flags.required)

  unfoldable pub is_asset_clawback_enabled : Exec S Bool
  unfolding is_flag_set
  is_asset_clawback_enabled = host.read_asset_info >>= is_flag_set (λ flags. flags.clawback_enabled)

  unfoldable pub is_asset_auth_revocable : Exec S Bool
  unfolding is_flag_set
  is_asset_auth_revocable = host.read_asset_info >>= is_flag_set (λ flags. flags.revocable)

  unfoldable pub extend_balance : Address → Exec S (Unit {0})
  extend_balance addr =
      host.balances.extend_contract_data_ttl addr balance_ttl_threshold balance_extend_amount

  unfoldable pub amount_of : Address → Option BalanceValue → Exec S ℤ
  unfolding extend_balance
  amount_of addr none = pure (pos 0)
  amount_of addr (some balance) = extend_balance addr >> pure balance.amount

  unfoldable pub read_balance : Address → Exec S ℤ
  unfolding get_classic_balance amount_of
  read_balance addr = host.to_sc_address addr >>= λ holder. elim holder [
    | account_id acc ↦ get_classic_balance host.classic acc
    | contract_id ↦ host.balances.try_get_contract_data addr >>= amount_of addr
    | other_id ↦ throw unexpected_address
  ]

  unfoldable pub write_contract_balance : Address → BalanceValue → Exec S (Unit {0})
  unfolding extend_balance
  write_contract_balance addr balance =
      host.balances.put_contract_data addr balance >> extend_balance addr

  unfoldable pub authorized_by_data : Option BalanceValue → Exec S Bool
  unfolding is_asset_auth_required
  authorized_by_data none = is_asset_auth_required >>= λ required. pure (not required)
  authorized_by_data (some balance) = pure balance.authorized

  unfoldable pub authorized_of : Address → Holder → Exec S Bool
  unfolding is_account_authorized authorized_by_data
  authorized_of addr (account_id acc) = is_account_authorized host.classic acc
  authorized_of addr contract_id = host.balances.try_get_contract_data addr >>= authorized_by_data
  authorized_of addr other_id = throw unexpected_address

  unfoldable pub is_authorized : Address → Exec S Bool
  unfolding authorized_of
  is_authorized addr = host.to_sc_address addr >>= authorized_of addr

  unfoldable pub check_authorized : Address → Exec S (Unit {0})
  unfolding is_authorized
  check_authorized addr = host.balances.charge_clone >>= λ _.
      is_authorized addr >>= λ authorized. if authorized then pure tt else throw deauthorized_error
