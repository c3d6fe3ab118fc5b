-- ===== src/Values/Good/Made.antt =====
-- Tags that are read back, and good values made of handles.
use rs_soroban_env.Prelude.{
  ℕ, ◌^◌, ◌<◌, ◌≡◌, refl, ap, ◌∙◌, Bool, true, false, if◌then◌else◌, Option, none, some, arith, ◌⊎◌,
  inl, inr,
}
use Prim.Native.Nat.{bit_or}
use rs_soroban_env.Prelude.Bits.{shl}
use rs_soroban_env.Values.Tag.{Tag, to_u8}
use rs_soroban_env.Values.Tag.Codes.{from_u8, from_u8-byte, from_u8-proper, is_proper, u8_is_object}
use rs_soroban_env.Values.Val.{
  get_tag, get_tag_u8, get_body, get_minor, from_body_and_tag, from_major_minor_and_tag,
  from_handle_and_tag, has_minor, is_object, get_handle,
}
use rs_soroban_env.Values.Val.Layout.{
  from_body_and_tag-sum, get_tag_u8-mod, get_tag_u8-from_body, get_minor-from_parts,
  get_major-from_parts,
}
use rs_soroban_env.Values.Good.{
  ScValType, get_scval_type, can_represent_scval_type, good_with, is_good,
}

pub payload_lem :
    (v : ℕ) → v < 2 ^ 64 → (v ≡ from_body_and_tag (get_body v) (get_tag v)) ⊎ (get_tag v ≡ Tag.bad)
unfolding get_tag get_body
payload_lem v h = elim (from_u8-byte (get_tag_u8 v) (omega (arith, get_tag_u8-mod v))) [
  | inl (proper, e) ↦
      inl (omega (arith, e, from_body_and_tag-sum (get_body v) (get_tag v), get_tag_u8-mod v))
  | inr is_bad ↦ inr is_bad
]

-- The XDR type of a tag is one that values can have.
abbrev pub has_scval_type : Option ScValType → Bool
has_scval_type none = false
has_scval_type (some type_) = can_represent_scval_type type_

pub scval_type-proper : (t : Tag) → has_scval_type (get_scval_type t) ≡ is_proper t
unfolding get_scval_type can_represent_scval_type
scval_type-proper Tag.false = refl
scval_type-proper _ = refl

pub object-proper : (t : Tag) → u8_is_object (to_u8 t) ≡ true → is_proper t ≡ true
unfolding u8_is_object
object-proper Tag.false h = refl
object-proper _ h = ground arith

pub get_tag-from_body :
    (body : ℕ) (t : Tag) → get_tag (from_body_and_tag body t) ≡ (if is_proper t then t else Tag.bad)
unfolding get_tag
get_tag-from_body body t = ap from_u8 (get_tag_u8-from_body body t) ∙ from_u8-proper t

module _ (sc_error_is_ok : ℕ → Bool) where
  pub good-proper : (t : Tag) (v : ℕ) → good_with sc_error_is_ok t v ≡ true → is_proper t ≡ true
  unfolding good_with
  good-proper Tag.bad v h = h
  good-proper Tag.small_code_upper_bound v h = h
  good-proper Tag.object_code_lower_bound v h = h
  good-proper Tag.object_code_upper_bound v h = h
  good-proper Tag.false v h = refl
  good-proper _ v h = refl

  pub good_with-handle :
      (t : Tag) (v : ℕ)
      → u8_is_object (to_u8 t) ≡ true
      → get_minor v ≡ 0
      → good_with sc_error_is_ok t v ≡ true
  unfolding good_with has_minor u8_is_object
  good_with-handle Tag.false v object h = cc
  good_with-handle _ v object h = ground arith

  -- A handle under an object's tag makes a good value, which is an object, with this tag and handle.
  pub from_handle_and_tag_lem :
      (handle : ℕ) (t : Tag)
      → handle < 2 ^ 32
      → u8_is_object (to_u8 t) ≡ true
      → let v = from_handle_and_tag handle t in
        (is_good sc_error_is_ok v ≡ true)
        × (is_object v ≡ true)
        × (get_tag v ≡ t)
        × (get_handle v ≡ handle)
  unfolding from_handle_and_tag from_major_minor_and_tag is_good is_object get_handle
  from_handle_and_tag_lem handle t h object =
      let body = bit_or (shl 64 handle 24) 0 in
      let tag : get_tag (from_body_and_tag body t) ≡ t =
        get_tag-from_body body t
        ∙ ap (λ proper. if proper then t else Tag.bad) (object-proper t object) in
      (
        rw (tag) (
            good_with-handle t (from_body_and_tag body t) object
              (get_minor-from_parts handle 0 t h (omega arith))),
        rw (get_tag_u8-from_body body t) object,
        tag,
        get_major-from_parts handle 0 t h (omega arith),
      )
