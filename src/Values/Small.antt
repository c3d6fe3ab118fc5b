-- ===== src/Values/Small.antt =====
-- The numbers that fit a value's body: soroban-env-common/src/num.rs. A conversion gives `none` for
-- `ConversionError`; the three types over `u64` differ in their tag alone.
pub mod Unsigned
pub mod Signed
use rs_soroban_env.Prelude.{ℕ, ◌%◌, ◌^◌, Bool, ◌&&◌, ◌==◌, if◌then◌else◌, Option, none, some}
use rs_soroban_env.Prelude.Int.{ℤ}
use rs_soroban_env.Prelude.Bits.{shl, shr}
use rs_soroban_env.Prelude.Twos.{signed, word, shr_signed, eq_ℤ}
use rs_soroban_env.Values.Tag.{Tag}
use rs_soroban_env.Values.Val.{
  from_body_and_tag, from_major_minor_and_tag, get_body, get_signed_body, get_major,
}

unfoldable pub is_small_u64 : ℕ → Bool
is_small_u64 u = u == shr (shl 64 u 8) 8

unfoldable pub is_small_i64 : ℤ → Bool
is_small_i64 i = eq_ℤ i (shr_signed (signed 64 (shl 64 (word 64 i) 8)) 8)

unfoldable pub is_small_u128 : ℕ → Bool
unfolding is_small_u64
is_small_u128 u = let low = u % 2 ^ 64 in is_small_u64 low && u == low

unfoldable pub is_small_i128 : ℤ → Bool
unfolding is_small_i64
is_small_i128 i = let low = signed 64 (word 64 i) in is_small_i64 low && eq_ℤ i low

-- `as_u64` and `as_i64` of `ethnum` are the low 64 bits.
unfoldable pub is_small_u256 : ℕ → Bool
unfolding is_small_u64
is_small_u256 u = let low = u % 2 ^ 64 in is_small_u64 low && u == low

unfoldable pub is_small_i256 : ℤ → Bool
unfolding is_small_i64
is_small_i256 i = let low = signed 64 (word 64 i) in is_small_i64 low && eq_ℤ i low

-- `U64Small`, `TimepointSmall` and `DurationSmall`, by their tag.
unfoldable pub try_from_u64 : Tag → ℕ → Option ℕ
unfolding is_small_u64 from_body_and_tag
try_from_u64 tag value = if is_small_u64 value then some (from_body_and_tag value tag) else none

unfoldable pub try_from_i64 : ℤ → Option ℕ
unfolding is_small_i64 from_body_and_tag
try_from_i64 value =
    if is_small_i64 value then some (from_body_and_tag (word 64 value) Tag.i64_small) else none

unfoldable pub try_from_u128 : ℕ → Option ℕ
unfolding is_small_u128 from_body_and_tag
try_from_u128 value =
    if is_small_u128 value then some (from_body_and_tag (value % 2 ^ 64) Tag.u128_small) else none

unfoldable pub try_from_i128 : ℤ → Option ℕ
unfolding is_small_i128 from_body_and_tag
try_from_i128 value =
    if is_small_i128 value
    then some (from_body_and_tag (word 128 value % 2 ^ 64) Tag.i128_small)
    else none

unfoldable pub try_from_u256 : ℕ → Option ℕ
unfolding is_small_u256 from_body_and_tag
try_from_u256 value =
    if is_small_u256 value then some (from_body_and_tag (value % 2 ^ 64) Tag.u256_small) else none

unfoldable pub try_from_i256 : ℤ → Option ℕ
unfolding is_small_i256 from_body_and_tag
try_from_i256 value =
    if is_small_i256 value
    then some (from_body_and_tag (word 64 (signed 64 (word 64 value))) Tag.i256_small)
    else none

-- `Val::from_u32` and `from_i32`, and back.
unfoldable pub from_u32 : ℕ → ℕ
unfolding from_major_minor_and_tag
from_u32 u = from_major_minor_and_tag u 0 Tag.u32_val

unfoldable pub from_i32 : ℤ → ℕ
unfolding from_major_minor_and_tag
from_i32 i = from_major_minor_and_tag (word 32 i) 0 Tag.i32_val

unfoldable pub to_u32 : ℕ → ℕ
unfolding get_major
to_u32 v = get_major v

unfoldable pub to_i32 : ℕ → ℤ
unfolding get_major
to_i32 v = signed 32 (get_major v)
