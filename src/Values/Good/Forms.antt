-- ===== src/Values/Good/Forms.antt =====
-- What `is_good` accepts, and what the constructors of values make, in soroban-env-common/src/val.rs.
use rs_soroban_env.Prelude.{
  ℕ, ◌*◌, ◌^◌, ◌<◌, ◌≡◌, refl, sym, ap, ◌∙◌, Bool, true, false, if◌then◌else◌, arith, inl, inr, ◌↔◌,
  ◌==◌,
}
use Prim.Native.Nat.{bit_or, bit_and}
use rs_soroban_env.Prelude.Bits.{shl, bit_and_low}
use rs_soroban_env.Values.Tag.{Tag, to_u8}
use rs_soroban_env.Values.Tag.Codes.{u8_is_object, is_proper}
use rs_soroban_env.Values.Symbol.{small_mask}
use rs_soroban_env.Values.Val.{
  get_tag, get_body, get_minor, get_major, from_body_and_tag, from_major_minor_and_tag, from_void,
  from_bool, from_handle_and_tag, has_body,
}
use rs_soroban_env.Values.Val.Layout.{
  get_minor-mod, body_of_parts, get_body-from_body, get_minor-from_parts,
}
use rs_soroban_env.Values.Good.{get_scval_type, good_with, is_good}
use rs_soroban_env.Values.Good.Made.{
  payload_lem, has_scval_type, scval_type-proper, good-proper, get_tag-from_body,
  from_handle_and_tag_lem,
}

-- The tags of 32-bit numbers, and of small numbers of 56 bits.
abbrev pub is_word : Tag → Bool
is_word Tag.u32_val = true
is_word Tag.i32_val = true
is_word _ = false

abbrev pub is_small_number : Tag → Bool
is_small_number Tag.u64_small = true
is_small_number Tag.i64_small = true
is_small_number Tag.timepoint_small = true
is_small_number Tag.duration_small = true
is_small_number Tag.u128_small = true
is_small_number Tag.i128_small = true
is_small_number Tag.u256_small = true
is_small_number Tag.i256_small = true
is_small_number _ = false

-- The value is made of parts that a constructor takes: nothing, a truth value, 32 bits of a number or of
-- an object's handle, the 56 bits of a small number, 9 characters of 6 bits, or an error.
pub data Made (sc_error_is_ok : ℕ → Bool) (v : ℕ) : Type 0 where
  void_made : v ≡ from_void → Made sc_error_is_ok v
  bool_made : (b : Bool) → v ≡ from_bool b → Made sc_error_is_ok v
  word_made :
      (t : Tag) (major : ℕ)
      → is_word t ≡ true
      → major < 2 ^ 32
      → v ≡ from_major_minor_and_tag major 0 t
      → Made sc_error_is_ok v
  handle_made :
      (t : Tag) (handle : ℕ)
      → u8_is_object (to_u8 t) ≡ true
      → handle < 2 ^ 32
      → v ≡ from_handle_and_tag handle t
      → Made sc_error_is_ok v
  small_made :
      (t : Tag) (body : ℕ)
      → is_small_number t ≡ true
      → body < 2 ^ 56
      → v ≡ from_body_and_tag body t
      → Made sc_error_is_ok v
  symbol_made :
      (body : ℕ)
      → body < 2 ^ (9 * 6)
      → v ≡ from_body_and_tag body Tag.symbol_small
      → Made sc_error_is_ok v
  error_made :
      (body : ℕ)
      → body < 2 ^ 56
      → v ≡ from_body_and_tag body Tag.error
      → sc_error_is_ok v ≡ true
      → Made sc_error_is_ok v

get_body-lt : (v : ℕ) → v < 2 ^ 64 → get_body v < 2 ^ 56
unfolding get_body
get_body-lt v h = omega arith

get_major-lt : (v : ℕ) → get_major v < 2 ^ 32
unfolding get_major
get_major-lt v = omega arith

-- A body without a minor part is its major part.
body_lem : (v : ℕ) → v < 2 ^ 64 → get_minor v ≡ 0 → get_body v ≡ bit_or (shl 64 (get_major v) 24) 0
unfolding get_major
body_lem v h k = omega (
  arith,
  get_minor-mod v,
  get_body-lt v h,
  body_of_parts (get_major v) 0 (get_major-lt v) (omega arith),
)

is_small_symbol : (body : ℕ) → (bit_and body small_mask == body) ≡ true → body < 2 ^ 54
is_small_symbol body h = ground (arith, bit_and_low 54 body)

module _ (sc_error_is_ok : ℕ → Bool) where
  parts_lem :
      (t : Tag) (v : ℕ)
      → v < 2 ^ 64
      → v ≡ from_body_and_tag (get_body v) t
      → get_minor v ≡ 0
      → v ≡ from_major_minor_and_tag (get_major v) 0 t
  unfolding from_major_minor_and_tag
  parts_lem t v h e k = e ∙ ap (λ body. from_body_and_tag body t) (body_lem v h k)

  empty_lem :
      (t : Tag) (v : ℕ)
      → v ≡ from_body_and_tag (get_body v) t
      → has_body v 0 ≡ true
      → v ≡ from_body_and_tag 0 t
  unfolding has_body
  empty_lem t v e g =
      let empty : get_body v ≡ 0 = ground arith in e ∙ ap (λ body. from_body_and_tag body t) empty

  good_with-Made :
      (t : Tag) (v : ℕ)
      → v < 2 ^ 64
      → v ≡ from_body_and_tag (get_body v) t
      → good_with sc_error_is_ok t v ≡ true
      → Made sc_error_is_ok v
  unfolding good_with from_void from_bool from_handle_and_tag u8_is_object
  good_with-Made Tag.bad v h e g = absurd (ground arith)
  good_with-Made Tag.small_code_upper_bound v h e g = absurd (ground arith)
  good_with-Made Tag.object_code_lower_bound v h e g = absurd (ground arith)
  good_with-Made Tag.object_code_upper_bound v h e g = absurd (ground arith)
  good_with-Made Tag.true v h e g = bool_made true (empty_lem Tag.true v e g)
  good_with-Made Tag.false v h e g = bool_made false (empty_lem Tag.false v e g)
  good_with-Made Tag.void v h e g = void_made (empty_lem Tag.void v e g)
  good_with-Made Tag.i32_val v h e g =
      word_made Tag.i32_val (get_major v) refl (get_major-lt v)
        (parts_lem Tag.i32_val v h e (ground arith))
  good_with-Made Tag.u32_val v h e g =
      word_made Tag.u32_val (get_major v) refl (get_major-lt v)
        (parts_lem Tag.u32_val v h e (ground arith))
  good_with-Made Tag.error v h e g = error_made (get_body v) (get_body-lt v h) e g
  good_with-Made Tag.symbol_small v h e g =
      symbol_made (get_body v) (is_small_symbol (get_body v) (ground arith)) e
  good_with-Made Tag.u64_small v h e g = small_made Tag.u64_small _ refl (get_body-lt v h) e
  good_with-Made Tag.i64_small v h e g = small_made Tag.i64_small _ refl (get_body-lt v h) e
  good_with-Made Tag.timepoint_small v h e g =
      small_made Tag.timepoint_small _ refl (get_body-lt v h) e
  good_with-Made Tag.duration_small v h e g =
      small_made Tag.duration_small _ refl (get_body-lt v h) e
  good_with-Made Tag.u128_small v h e g = small_made Tag.u128_small _ refl (get_body-lt v h) e
  good_with-Made Tag.i128_small v h e g = small_made Tag.i128_small _ refl (get_body-lt v h) e
  good_with-Made Tag.u256_small v h e g = small_made Tag.u256_small _ refl (get_body-lt v h) e
  good_with-Made Tag.i256_small v h e g = small_made Tag.i256_small _ refl (get_body-lt v h) e
  good_with-Made t v h e g =
      handle_made t (get_major v) refl (get_major-lt v) (parts_lem t v h e (ground arith))

  good_with-small :
      (t : Tag) (v : ℕ) → is_small_number t ≡ true → good_with sc_error_is_ok t v ≡ true
  unfolding good_with
  good_with-small Tag.false v h = absurd (ground arith)
  good_with-small _ v h = ground arith

  good_with-word :
      (t : Tag) (v : ℕ) → is_word t ≡ true → get_minor v ≡ 0 → good_with sc_error_is_ok t v ≡ true
  unfolding good_with
  good_with-word Tag.false v h k = absurd (ground arith)
  good_with-word _ v h k = ground arith

  tagged-good :
      (t : Tag) (body : ℕ)
      → is_proper t ≡ true
      → good_with sc_error_is_ok t (from_body_and_tag body t) ≡ true
      → is_good sc_error_is_ok (from_body_and_tag body t) ≡ true
  unfolding is_good
  tagged-good t body proper good =
      rw (get_tag-from_body body t ∙ ap (λ b. if b then t else Tag.bad) proper) good

  symbol-good :
      (body : ℕ)
      → body < 2 ^ 54
      → good_with sc_error_is_ok Tag.symbol_small (from_body_and_tag body Tag.symbol_small) ≡ true
  unfolding good_with
  symbol-good body h = ground (arith, get_body-from_body body Tag.symbol_small, bit_and_low 54 body)

  error-good : (v : ℕ) → sc_error_is_ok v ≡ true → good_with sc_error_is_ok Tag.error v ≡ true
  unfolding good_with
  error-good v h = h

  word-proper : (t : Tag) → is_word t ≡ true → is_proper t ≡ true
  word-proper Tag.false h = refl
  word-proper _ h = ground arith

  small-proper : (t : Tag) → is_small_number t ≡ true → is_proper t ≡ true
  small-proper Tag.false h = refl
  small-proper _ h = ground arith

  Made-good : (v : ℕ) → Made sc_error_is_ok v → is_good sc_error_is_ok v ≡ true
  unfolding is_good from_void from_bool from_major_minor_and_tag
  Made-good v (void_made e) = ap (is_good sc_error_is_ok) e
  Made-good v (bool_made true e) = ap (is_good sc_error_is_ok) e
  Made-good v (bool_made false e) = ap (is_good sc_error_is_ok) e
  Made-good v (word_made t major word h e) =
      ap (is_good sc_error_is_ok) e
      ∙ tagged-good t (bit_or (shl 64 major 24) 0) (word-proper t word) (
          good_with-word t (from_major_minor_and_tag major 0 t) word
            (get_minor-from_parts major 0 t h (omega arith)))
  Made-good v (handle_made t handle object h e) =
      ap (is_good sc_error_is_ok) e ∙ (from_handle_and_tag_lem sc_error_is_ok handle t h object).0
  Made-good v (small_made t body small h e) =
      ap (is_good sc_error_is_ok) e
      ∙ tagged-good t body (small-proper t small)
          (good_with-small t (from_body_and_tag body t) small)
  Made-good v (symbol_made body h e) =
      ap (is_good sc_error_is_ok) e ∙ tagged-good Tag.symbol_small body refl (symbol-good body h)
  Made-good v (error_made body h e is_ok) =
      ap (is_good sc_error_is_ok) e
      ∙ tagged-good Tag.error body refl
          (error-good (from_body_and_tag body Tag.error) (ap sc_error_is_ok (sym e) ∙ is_ok))

  -- A payload of 64 bits is good exactly when a constructor makes it of parts that it may take, and then
  -- its tag has an XDR type that values can have.
  pub is_good_lem :
      (v : ℕ)
      → v < 2 ^ 64
      → (is_good sc_error_is_ok v ≡ true)
        ↔ ((has_scval_type (get_scval_type (get_tag v)) ≡ true) × Made sc_error_is_ok v)
  unfolding is_good
  is_good_lem v h = (
    λ good.
        let proper = good-proper sc_error_is_ok (get_tag v) v good in
        (
          scval_type-proper (get_tag v) ∙ proper,
          elim (payload_lem v h) [
            | inl e ↦ good_with-Made (get_tag v) v h e good
            | inr is_bad ↦ absurd (ground (arith, is_bad, proper))
          ],
        ),
    λ made. Made-good v made.1,
  )
