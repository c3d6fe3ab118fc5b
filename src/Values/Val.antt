-- ===== src/Values/Val.antt =====
-- The fields of a `Val`, from soroban-env-common/src/val.rs: the tag in the low 8 bits, the body in the
-- other 56, or a body of a 32-bit major and a 24-bit minor part.
pub mod Layout
use Prim.Native.Nat.{bit_and, bit_or}
use rs_soroban_env.Prelude.{ℕ, ◌-◌, ◌%◌, ◌^◌, Bool, true, false, ◌||◌, ◌==◌, if◌then◌else◌}
use rs_soroban_env.Prelude.Int.{ℤ, pos, negsuc}
use rs_soroban_env.Prelude.Bits.{shl, shr}
use rs_soroban_env.Prelude.Twos.{signed, shr_signed}
use rs_soroban_env.Values.Tag.{Tag, to_u8}
use rs_soroban_env.Values.Tag.Codes.{from_u8, u8_is_object}

abbrev pub tag_mask : ℕ
tag_mask = 2 ^ 8 - 1

abbrev pub minor_mask : ℕ
minor_mask = 2 ^ 24 - 1

unfoldable pub get_tag_u8 : ℕ → ℕ
get_tag_u8 v = bit_and v tag_mask

unfoldable pub get_tag : ℕ → Tag
unfolding get_tag_u8 from_u8
get_tag v = from_u8 (get_tag_u8 v)

unfoldable pub get_body : ℕ → ℕ
get_body v = shr v 8

unfoldable pub has_body : ℕ → ℕ → Bool
unfolding get_body
has_body v body = get_body v == body

unfoldable pub get_signed_body : ℕ → ℤ
get_signed_body v = shr_signed (signed 64 v) 8

unfoldable pub has_tag : ℕ → Tag → Bool
unfolding get_tag_u8
has_tag v tag = get_tag_u8 v == to_u8 tag

unfoldable pub from_body_and_tag : ℕ → Tag → ℕ
from_body_and_tag body tag = bit_or (shl 64 body 8) (to_u8 tag)

unfoldable pub from_major_minor_and_tag : ℕ → ℕ → Tag → ℕ
unfolding from_body_and_tag
from_major_minor_and_tag major minor tag = from_body_and_tag (bit_or (shl 64 major 24) minor) tag

unfoldable pub get_minor : ℕ → ℕ
unfolding get_body
get_minor v = bit_and (get_body v) minor_mask % 2 ^ 32

unfoldable pub get_major : ℕ → ℕ
unfolding get_body
get_major v = shr (get_body v) 24 % 2 ^ 32

unfoldable pub has_minor : ℕ → ℕ → Bool
unfolding get_minor
has_minor v minor = get_minor v == minor

unfoldable pub has_major : ℕ → ℕ → Bool
unfolding get_major
has_major v major = get_major v == major

unfoldable pub is_object : ℕ → Bool
unfolding u8_is_object get_tag_u8
is_object v = u8_is_object (get_tag_u8 v)

unfoldable pub from_void : ℕ
unfolding from_body_and_tag
from_void = from_body_and_tag 0 Tag.void

unfoldable pub from_bool : Bool → ℕ
unfolding from_body_and_tag
from_bool b = from_body_and_tag 0 (if b then Tag.true else Tag.false)

-- `Val::VOID`, `Val::TRUE` and `Val::FALSE` by `shallow_eq`.
unfoldable pub is_void : ℕ → Bool
unfolding from_void
is_void v = v == from_void

unfoldable pub is_true : ℕ → Bool
unfolding from_bool
is_true v = v == from_bool true

unfoldable pub is_false : ℕ → Bool
unfolding from_bool
is_false v = v == from_bool false

-- `Object::get_handle` and `Object::from_handle_and_tag` of object.rs.
unfoldable pub get_handle : ℕ → ℕ
unfolding get_major
get_handle v = get_major v

unfoldable pub from_handle_and_tag : ℕ → Tag → ℕ
unfolding from_major_minor_and_tag
from_handle_and_tag handle tag = from_major_minor_and_tag handle 0 tag
