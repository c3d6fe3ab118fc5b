-- ===== src/Values/Tests.antt =====
-- The layout, the small forms and symbols at concrete values.
use rs_soroban_env.Prelude.{
  ℕ, ◌+◌, ◌*◌, ◌^◌, ◌<◌, ◌≤◌, ◌≡◌, refl, true, false, none, some, List, [], ◌∷◌, length, arith, ◌⊎◌,
  inl, inr, ◌↔◌,
}
use rs_soroban_env.Prelude.Int.{pos, negsuc}
use rs_soroban_env.Values.Tag.{Tag, to_u8}
use rs_soroban_env.Values.Tag.Codes.{from_u8, u8_is_object, from_u8-to_u8, is_proper}
use rs_soroban_env.Values.Val.{get_tag, get_tag_u8, get_handle, from_handle_and_tag, is_object}
use rs_soroban_env.Values.Small.{
  try_from_u64, try_from_u128, try_from_u256, try_from_i64, try_from_i128, try_from_i256, from_i32,
  to_i32,
}
use rs_soroban_env.Values.Small.Unsigned
use rs_soroban_env.Values.Small.Unsigned.{try_from_unsigned_lem}
use rs_soroban_env.Values.Small.Signed
use rs_soroban_env.Values.Small.Signed.{try_from_signed_lem}
use rs_soroban_env.Values.Symbol.{
  too_long, bad_char, encode_byte, max_small_chars, try_from_bytes, chars, as_ref, to_str,
}
use rs_soroban_env.Values.Symbol.RoundTrip.{first_bad, try_from_bytes_lem}
use rs_soroban_env.Values.Good.{is_good, get_scval_type}
use rs_soroban_env.Values.Good.Made.{has_scval_type, from_handle_and_tag_lem}
use rs_soroban_env.Values.Good.Forms.{Made, is_good_lem}

-- A negative i32 comes back.
minus_ten : to_i32 (from_i32 (negsuc 9)) ≡ negsuc 9
unfolding to_i32 from_i32
minus_ten = refl

from_u8-to_u8_example :
    (from_u8 (to_u8 Tag.symbol_small) ≡ Tag.symbol_small)
    × (((is_proper (from_u8 80) ≡ true) × (to_u8 (from_u8 80) ≡ 80)) ⊎ (from_u8 80 ≡ Tag.bad))
from_u8-to_u8_example = from_u8-to_u8 Tag.symbol_small 80 (omega arith)

try_from_unsigned_lem_example :
    Unsigned.Holds Tag.timepoint_small 7 (try_from_u64 Tag.timepoint_small 7)
    × Unsigned.Holds Tag.u128_small (2 ^ 56) (try_from_u128 (2 ^ 56))
    × Unsigned.Holds Tag.u256_small (2 ^ 56) (try_from_u256 (2 ^ 56))
try_from_unsigned_lem_example = try_from_unsigned_lem Tag.timepoint_small 7 (omega arith) (2 ^ 56)

try_from_signed_lem_example :
    Signed.Holds Tag.i64_small (negsuc 41) (try_from_i64 (negsuc 41))
    × Signed.Holds Tag.i128_small (pos (2 ^ 55)) (try_from_i128 (pos (2 ^ 55)))
    × Signed.Holds Tag.i256_small (pos (2 ^ 55)) (try_from_i256 (pos (2 ^ 55)))
try_from_signed_lem_example = try_from_signed_lem (negsuc 41) refl (pos (2 ^ 55))

-- "Hi_5".
abbrev hi_5 : List ℕ
hi_5 = b'H' ∷ b'i' ∷ b'_' ∷ b'5' ∷ []

hi_5_symbol : try_from_bytes hi_5 ≡ inr (((19 * 64 + 46) * 64 + 1) * 64 * 256 + 7 * 256 + 14)
unfolding try_from_bytes encode_byte
hi_5_symbol = refl

hi_5_read : chars (((19 * 64 + 46) * 64 + 1) * 64 * 256 + 7 * 256 + 14) ≡ hi_5
unfolding chars
hi_5_read = refl

try_from_bytes_lem_example :
    ((max_small_chars < length hi_5) × (try_from_bytes hi_5 ≡ inl (too_long (length hi_5))))
    ⊎ ((length hi_5 ≤ max_small_chars)
        × ((bad : ℕ) × (first_bad hi_5 ≡ some bad) × (try_from_bytes hi_5 ≡ inl (bad_char bad))))
    ⊎ ((length hi_5 ≤ max_small_chars)
        × (first_bad hi_5 ≡ none)
        × ((symbol : ℕ) × (try_from_bytes hi_5 ≡ inr symbol)
            × (get_tag_u8 symbol ≡ 14)
            × (chars symbol ≡ hi_5)
            × (as_ref (to_str symbol) ≡ hi_5)))
try_from_bytes_lem_example = try_from_bytes_lem hi_5

-- The u32 value 5.
five_is_good : is_good (λ v. false) (5 * 2 ^ 32 + 4) ≡ true
unfolding is_good
five_is_good = refl

is_good_lem_example : (is_good (λ v. false) (5 * 2 ^ 32 + 4) ≡ true) ↔ (
    (has_scval_type (get_scval_type (get_tag (5 * 2 ^ 32 + 4))) ≡ true)
    × Made (λ v. false) (5 * 2 ^ 32 + 4))
is_good_lem_example = is_good_lem (λ v. false) (5 * 2 ^ 32 + 4) (omega arith)

-- A u32 value has no minor part.
minor_is_not_good : is_good (λ v. true) (5 * 2 ^ 32 + 256 + 4) ≡ false
unfolding is_good
minor_is_not_good = refl

vec_is_object : u8_is_object (to_u8 Tag.vec_object) ≡ true
unfolding u8_is_object
vec_is_object = refl

from_handle_and_tag_lem_example :
    let v = from_handle_and_tag 7 Tag.vec_object in
    (is_good (λ v. false) v ≡ true)
    × (is_object v ≡ true)
    × (get_tag v ≡ Tag.vec_object)
    × (get_handle v ≡ 7)
from_handle_and_tag_lem_example =
    from_handle_and_tag_lem (λ v. false) 7 Tag.vec_object (omega arith) vec_is_object
