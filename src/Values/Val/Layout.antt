-- ===== src/Values/Val/Layout.antt =====
-- The fields that a value is built from are the fields that are read from it.
use Prim.Native.Nat.{bit_or}
use rs_soroban_env.Prelude.{ℕ, ◌+◌, ◌*◌, ◌%◌, ◌^◌, ◌<◌, ◌≡◌, arith, ◌∙◌, ap}
use rs_soroban_env.Prelude.Bits.{shl, bit_or_disjoint, bit_and_low}
use rs_soroban_env.Values.Tag.{Tag, to_u8}
use rs_soroban_env.Values.Val.{
  from_body_and_tag, from_major_minor_and_tag, get_tag_u8, get_body, get_minor, get_major,
}

pub to_u8-lt : (t : Tag) → to_u8 t < 256
to_u8-lt Tag.false = omega arith
to_u8-lt _ = omega arith

-- `body << 8 | tag` as arithmetic, whatever bits the shift drops.
pub from_body_and_tag-sum :
    (body : ℕ) (t : Tag) → from_body_and_tag body t ≡ body % 2 ^ 56 * 256 + to_u8 t
unfolding from_body_and_tag
from_body_and_tag-sum body t =
    ap (λ (x : ℕ). bit_or x (to_u8 t)) (omega arith)
    ∙ bit_or_disjoint 8 (body % 2 ^ 56) (to_u8 t) (to_u8-lt t)

pub get_tag_u8-mod : (v : ℕ) → get_tag_u8 v ≡ v % 256
unfolding get_tag_u8
get_tag_u8-mod v = bit_and_low 8 v

pub get_body-from_body : (body : ℕ) (t : Tag) → get_body (from_body_and_tag body t) ≡ body % 2 ^ 56
unfolding get_body
get_body-from_body body t = omega (arith, from_body_and_tag-sum body t, to_u8-lt t)

pub get_tag_u8-from_body : (body : ℕ) (t : Tag) → get_tag_u8 (from_body_and_tag body t) ≡ to_u8 t
get_tag_u8-from_body body t =
    omega
      (arith, get_tag_u8-mod (from_body_and_tag body t), from_body_and_tag-sum body t, to_u8-lt t)

pub body_of_parts :
    (major minor : ℕ)
    → major < 2 ^ 32
    → minor < 2 ^ 24
    → bit_or (shl 64 major 24) minor ≡ major * 2 ^ 24 + minor
body_of_parts major minor h k =
    ap (λ (x : ℕ). bit_or x minor) (omega arith) ∙ bit_or_disjoint 24 major minor k

pub get_major-from_parts :
    (major minor : ℕ) (t : Tag)
    → major < 2 ^ 32
    → minor < 2 ^ 24
    → get_major (from_major_minor_and_tag major minor t) ≡ major
unfolding get_major from_major_minor_and_tag
get_major-from_parts major minor t h k = omega (
  arith,
  from_body_and_tag-sum (bit_or (shl 64 major 24) minor) t,
  body_of_parts major minor h k,
  to_u8-lt t,
)

pub get_minor-mod : (v : ℕ) → get_minor v ≡ get_body v % 2 ^ 24
unfolding get_minor
get_minor-mod v = omega (arith, bit_and_low 24 (get_body v))

pub get_minor-from_parts :
    (major minor : ℕ) (t : Tag)
    → major < 2 ^ 32
    → minor < 2 ^ 24
    → get_minor (from_major_minor_and_tag major minor t) ≡ minor
unfolding from_major_minor_and_tag
get_minor-from_parts major minor t h k = omega (
  arith,
  get_minor-mod (from_major_minor_and_tag major minor t),
  get_body-from_body (bit_or (shl 64 major 24) minor) t,
  body_of_parts major minor h k,
)
