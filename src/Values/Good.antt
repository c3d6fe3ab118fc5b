-- ===== src/Values/Good.antt =====
-- `Tag::get_scval_type` and `Val::is_good` of soroban-env-common/src/val.rs. Whether `ScError::try_from`
-- takes an error value depends on the XDR tables of error types and codes, and is an argument.
pub mod Made
pub mod Forms
use rs_soroban_env.Prelude.{ℕ, Bool, true, false, Option, none, some, ◌⊎◌, inl, inr}
use rs_soroban_env.Values.Tag.{Tag}
use rs_soroban_env.Values.Val.{get_tag, get_body, has_body, has_minor}
use rs_soroban_env.Values.Symbol.{try_from_body}

-- The types of `ScVal`.
pub data ScValType : Type 0 where
  bool void error u32 i32 u64 i64 timepoint duration u128 i128 u256 i256 bytes string symbol :
      ScValType
  vec map address contract_instance ledger_key_contract_instance ledger_key_nonce : ScValType

unfoldable pub get_scval_type : Tag → Option ScValType
get_scval_type Tag.false = some ScValType.bool
get_scval_type Tag.true = some ScValType.bool
get_scval_type Tag.void = some ScValType.void
get_scval_type Tag.error = some ScValType.error
get_scval_type Tag.u32_val = some ScValType.u32
get_scval_type Tag.i32_val = some ScValType.i32
get_scval_type Tag.u64_small = some ScValType.u64
get_scval_type Tag.i64_small = some ScValType.i64
get_scval_type Tag.timepoint_small = some ScValType.timepoint
get_scval_type Tag.duration_small = some ScValType.duration
get_scval_type Tag.u128_small = some ScValType.u128
get_scval_type Tag.i128_small = some ScValType.i128
get_scval_type Tag.u256_small = some ScValType.u256
get_scval_type Tag.i256_small = some ScValType.i256
get_scval_type Tag.symbol_small = some ScValType.symbol
get_scval_type Tag.u64_object = some ScValType.u64
get_scval_type Tag.i64_object = some ScValType.i64
get_scval_type Tag.timepoint_object = some ScValType.timepoint
get_scval_type Tag.duration_object = some ScValType.duration
get_scval_type Tag.u128_object = some ScValType.u128
get_scval_type Tag.i128_object = some ScValType.i128
get_scval_type Tag.u256_object = some ScValType.u256
get_scval_type Tag.i256_object = some ScValType.i256
get_scval_type Tag.bytes_object = some ScValType.bytes
get_scval_type Tag.string_object = some ScValType.string
get_scval_type Tag.symbol_object = some ScValType.symbol
get_scval_type Tag.vec_object = some ScValType.vec
get_scval_type Tag.map_object = some ScValType.map
get_scval_type Tag.address_object = some ScValType.address
get_scval_type Tag.muxed_address_object = some ScValType.address
get_scval_type _ = none

unfoldable pub can_represent_scval_type : ScValType → Bool
can_represent_scval_type ScValType.contract_instance = false
can_represent_scval_type ScValType.ledger_key_contract_instance = false
can_represent_scval_type ScValType.ledger_key_nonce = false
can_represent_scval_type _ = true

abbrev is_inr : {A B : Type 0} → A ⊎ B → Bool
is_inr (inl _) = false
is_inr (inr _) = true

module _ (sc_error_is_ok : ℕ → Bool) where
  -- The match of `is_good` on the tag.
  unfoldable pub good_with : Tag → ℕ → Bool
  unfolding has_body has_minor get_body try_from_body
  good_with Tag.bad v = false
  good_with Tag.small_code_upper_bound v = false
  good_with Tag.object_code_lower_bound v = false
  good_with Tag.object_code_upper_bound v = false
  good_with Tag.true v = has_body v 0
  good_with Tag.false v = has_body v 0
  good_with Tag.void v = has_body v 0
  good_with Tag.i32_val v = has_minor v 0
  good_with Tag.u32_val v = has_minor v 0
  good_with Tag.error v = sc_error_is_ok v
  good_with Tag.symbol_small v = is_inr (try_from_body (get_body v))
  good_with Tag.u64_small v = true
  good_with Tag.i64_small v = true
  good_with Tag.timepoint_small v = true
  good_with Tag.duration_small v = true
  good_with Tag.u128_small v = true
  good_with Tag.i128_small v = true
  good_with Tag.u256_small v = true
  good_with Tag.i256_small v = true
  good_with _ v = has_minor v 0

  unfoldable pub is_good : ℕ → Bool
  unfolding get_tag good_with
  is_good v = good_with (get_tag v) v
