-- ===== src/Asset/Classic.antt =====
-- Balances of accounts, in accounts and trustlines:
-- soroban-env-host/src/builtin_contracts/stellar_asset_contract/balance.rs. Account ids, asset codes and
-- storage keys are numbers, and the flags of entries are the bits that the code asks for. What the host does
-- outside the file is an argument.
pub mod Authorization
use rs_soroban_env.Prelude.{
  ℕ, ◌+◌, ◌-◌, ◌^◌, ◌%◌, Bool, true, false, ◌&&◌, not, ltb, ◌==◌, if◌then◌else◌, Option, none, some,
}
use rs_soroban_env.Prelude.Int.{ℤ, pos, negsuc, ◌+ℤ◌, ◌-ℤ◌, ◌*ℤ◌, ltb_ℤ}
use rs_soroban_env.Prelude.Signed.{i64_top}
use rs_soroban_env.Errors.{Error, Result, ok, err, error, ScErrorType, ScErrorCode, ok_or}
use rs_soroban_env.Errors.Exec.{Exec, ◌>>=◌, ◌>>◌, pure, throw, lift}

pub record AlphaNum : Type 0 where
  pub code : ℕ
  pub issuer : ℕ

pub data Asset : Type 0 where
  native : Asset
  credit_alphanum4 credit_alphanum12 : AlphaNum → Asset

pub data TrustLineAsset : Type 0 where
  credit_alphanum4 credit_alphanum12 : AlphaNum → TrustLineAsset

pub record Liabilities : Type 0 where
  pub buying : ℤ
  pub selling : ℤ

-- What an account's extensions hold: the liabilities, and the numbers of sponsored entries.
pub data AccountExt : Type 0 where
  v0 : AccountExt
  v1 : Liabilities → AccountExt
  v2 : Liabilities → ℕ → ℕ → AccountExt

pub record AccountEntry : Type 0 where
  pub balance : ℤ
  pub num_sub_entries : ℕ
  pub ext : AccountExt

pub record TrustLineFlags : Type 0 where
  pub authorized : Bool
  pub authorized_to_maintain_liabilities : Bool
  pub clawback_enabled : Bool

pub record TrustLineEntry : Type 0 where
  pub balance : ℤ
  pub limit : ℤ
  pub flags : TrustLineFlags
  pub liabilities : Option Liabilities

pub data LedgerEntryData : Type 0 where
  account_entry : AccountEntry → LedgerEntryData
  trustline : TrustLineEntry → LedgerEntryData
  other_entry : LedgerEntryData

pub record ClassicHost (S : Type 0) : Type 0 where
  pub read_asset : Exec S Asset
  pub charge_clone : Exec S (Unit {0})
  pub to_account_key : ℕ → Exec S ℕ
  pub to_trustline_key : ℕ → TrustLineAsset → Exec S ℕ
  pub try_get : ℕ → Exec S (Option LedgerEntryData)
  pub account_address_from_key : ℕ → Exec S (Unit {0})
  pub charge_entry : Exec S (Unit {0})
  pub put : ℕ → LedgerEntryData → Exec S (Unit {0})
  pub base_reserve : S → Result ℕ

abbrev pub contract_error : ℕ → Error
contract_error n = error ScErrorType.contract (ScErrorCode.contract_code n)

-- `ContractError`, by its numbers.
abbrev pub internal_error : Error
internal_error = contract_error 1

abbrev pub operation_not_supported_error : Error
operation_not_supported_error = contract_error 2

abbrev pub account_missing_error : Error
account_missing_error = contract_error 6

abbrev pub balance_error : Error
balance_error = contract_error 10

abbrev pub trustline_missing_error : Error
trustline_missing_error = contract_error 13

-- The i64 that a word of 64 bits stands for, and an i64 that wraps around.
abbrev pub from_word : ℕ → ℤ
from_word r = if ltb i64_top r then negsuc (2 ^ 64 - r - 1) else pos r

abbrev pub wrap_i64 : ℤ → ℤ
wrap_i64 (pos n) = from_word (n % 2 ^ 64)
wrap_i64 (negsuc n) = from_word (2 ^ 64 - 1 - n % 2 ^ 64)

-- `i64::checked_add`.
unfoldable pub checked_add_i64 : ℤ → ℤ → Option ℤ
checked_add_i64 a b =
    let d = a +ℤ b in
    if ltb_ℤ (pos i64_top) d then none else if ltb_ℤ d (negsuc i64_top) then none else some d

-- The least and the greatest balance: reserves and liabilities stay.
unfoldable pub min_max_of_account : AccountExt → ℕ → ℕ → ℤ × ℤ
min_max_of_account v0 num_sub_entries base_reserve =
    (wrap_i64 (pos (2 + num_sub_entries) *ℤ pos base_reserve), pos i64_top)
min_max_of_account (v1 l) num_sub_entries base_reserve = (
  wrap_i64 (pos (2 + num_sub_entries) *ℤ pos base_reserve +ℤ l.selling),
  wrap_i64 (pos i64_top -ℤ l.buying),
)
min_max_of_account (v2 l num_sponsoring num_sponsored) num_sub_entries base_reserve = (
  wrap_i64 (
      (pos (2 + num_sub_entries + num_sponsoring) -ℤ pos num_sponsored) *ℤ pos base_reserve
      +ℤ l.selling),
  wrap_i64 (pos i64_top -ℤ l.buying),
)

unfoldable pub get_min_max_account_balance : Result ℕ → AccountEntry → Result (ℤ × ℤ)
unfolding min_max_of_account
get_min_max_account_balance reserve ae =
    if ltb_ℤ ae.balance (pos 0) then err internal_error else elim reserve [
      | err e ↦ err e
      | ok base_reserve ↦ ok (min_max_of_account ae.ext ae.num_sub_entries base_reserve)
    ]

unfoldable pub min_max_of_trustline : Option Liabilities → ℤ → Result (ℤ × ℤ)
min_max_of_trustline none limit = ok (pos 0, limit)
min_max_of_trustline (some l) limit =
    if ltb_ℤ limit l.buying
    then err internal_error
    else ok (l.selling, wrap_i64 (limit -ℤ l.buying))

unfoldable pub get_min_max_trustline_balance : TrustLineEntry → Result (ℤ × ℤ)
unfolding min_max_of_trustline
get_min_max_trustline_balance tl =
    if ltb_ℤ tl.balance (pos 0)
    then err internal_error
    else min_max_of_trustline tl.liabilities tl.limit

-- The balance after a transfer, where it stays within these limits.
unfoldable pub new_balance : ℤ → ℤ → Result (ℤ × ℤ) → Result ℤ
unfolding checked_add_i64
new_balance balance amount (err e) = err e
new_balance balance amount (ok (min, max)) = elim (checked_add_i64 balance amount) [
  | none ↦ err balance_error
  | some new ↦ if not (ltb_ℤ new min) && not (ltb_ℤ max new) then ok new else err balance_error
]

-- A balance that is read, where it is within its limits.
unfoldable pub within : ℤ → Result (ℤ × ℤ) → Result ℤ
within balance (err e) = err e
within balance (ok (min, max)) =
    if ltb_ℤ balance min
    then err internal_error
    else if ltb_ℤ max balance
    then err internal_error
    else ok balance

abbrev pub as_account : LedgerEntryData → Result AccountEntry
as_account (account_entry ae) = ok ae
as_account (trustline _) = err internal_error
as_account other_entry = err internal_error

abbrev pub as_trustline : LedgerEntryData → Result TrustLineEntry
as_trustline (account_entry _) = err internal_error
as_trustline (trustline tl) = ok tl
as_trustline other_entry = err internal_error

module _ {S : Type 0} (host : ClassicHost S) where
  -- `read_account_entry` and `read_trustline_entry`, with the error where the entry is missing.
  unfoldable pub read_entry : Error → ℕ → Option LedgerEntryData → Exec S LedgerEntryData
  read_entry missing lk (some le) = pure le
  read_entry missing lk none = host.account_address_from_key lk >> throw missing

  unfoldable pub read_account_entry : ℕ → Exec S AccountEntry
  unfolding read_entry
  read_account_entry lk =
      host.try_get lk >>= read_entry account_missing_error lk >>= λ le. lift λ _. as_account le

  unfoldable pub read_trustline_entry : ℕ → Exec S TrustLineEntry
  unfolding read_entry
  read_trustline_entry lk =
      host.try_get lk >>= read_entry trustline_missing_error lk >>= λ le. lift λ _. as_trustline le

  unfoldable pub transfer_account_balance : ℕ → ℤ → Exec S (Unit {0})
  unfolding read_account_entry get_min_max_account_balance new_balance
  transfer_account_balance account_id amount = host.to_account_key account_id >>= λ lk.
      read_account_entry lk >>= λ ae. host.charge_clone >>= λ _.
      lift
        (λ s. new_balance ae.balance amount (get_min_max_account_balance (host.base_reserve s) ae))
      >>= λ new.
          host.charge_entry >>= λ _. host.put lk (account_entry (record ae { balance = new }))

  unfoldable pub transfer_trustline_balance : ℕ → TrustLineAsset → ℤ → Exec S (Unit {0})
  unfolding read_trustline_entry get_min_max_trustline_balance new_balance
  transfer_trustline_balance account_id asset amount =
      host.to_trustline_key account_id asset >>= λ lk. read_trustline_entry lk >>= λ tl.
      host.charge_clone >>= λ _.
      lift (λ _. new_balance tl.balance amount (get_min_max_trustline_balance tl)) >>= λ new.
      host.charge_entry >>= λ _. host.put lk (trustline (record tl { balance = new }))

  unfoldable pub get_account_balance : ℕ → Exec S ℤ
  unfolding read_account_entry get_min_max_account_balance within
  get_account_balance account_id = host.to_account_key account_id >>= read_account_entry >>= λ ae.
      lift (λ s. within ae.balance (get_min_max_account_balance (host.base_reserve s) ae))

  unfoldable pub get_trustline_balance : ℕ → TrustLineAsset → Exec S ℤ
  unfolding read_trustline_entry get_min_max_trustline_balance within
  get_trustline_balance account_id asset =
      host.to_trustline_key account_id asset >>= read_trustline_entry >>= λ tl.
      host.charge_clone >>= λ _. lift (λ _. within tl.balance (get_min_max_trustline_balance tl))
