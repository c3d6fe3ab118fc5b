-- ===== src/Values/Small/Unsigned.antt =====
-- Unsigned numbers in small form: which fit, and that they come back.
use rs_soroban_env.Prelude.{
  ℕ, ◌%◌, ◌^◌, ◌≤◌, ◌<◌, ◌≡◌, refl, Bool, true, false, ltb, ◌==◌, ◌&&◌, if◌then◌else◌, Option, none,
  some, arith, ◌⊎◌, inl, inr,
}
use rs_soroban_env.Values.Tag.{Tag, to_u8}
use rs_soroban_env.Values.Val.{get_body, get_tag_u8, from_body_and_tag}
use rs_soroban_env.Values.Val.Layout.{get_body-from_body, get_tag_u8-from_body}
use rs_soroban_env.Values.Small.{is_small_u64, try_from_u64, try_from_u128, try_from_u256}

is_small_u64_lem : (u : ℕ) → is_small_u64 u ≡ ltb u (2 ^ 56)
unfolding is_small_u64
is_small_u64_lem u = ground arith

is_small_wide : (u : ℕ) → (is_small_u64 (u % 2 ^ 64) && u == u % 2 ^ 64) ≡ ltb u (2 ^ 56)
is_small_wide u = ground (arith, is_small_u64_lem (u % 2 ^ 64))

-- A value holds the number under the tag, which it does just if the number has at most 56 bits.
abbrev pub Holds : Tag → ℕ → Option ℕ → Type 0
Holds tag value made =
    (value < 2 ^ 56)
      × ((v : ℕ) × (made ≡ some v) × (get_body v ≡ value) × (get_tag_u8 v ≡ to_u8 tag))
    ⊎ ((2 ^ 56 ≤ value) × (made ≡ none))

made-Holds :
    (tag : Tag) (value low : ℕ) (small : Bool)
    → small ≡ ltb value (2 ^ 56)
    → low ≡ value % 2 ^ 64
    → Holds tag value (if small then some (from_body_and_tag low tag) else none)
made-Holds tag value low true h e =
    let v = from_body_and_tag low tag in
    inl (
      ground arith,
      (v, refl, ground (arith, get_body-from_body low tag), get_tag_u8-from_body low tag),
    )
made-Holds tag value low false h e = inr (ground arith, refl)

-- A `u64`, `u128` or `u256` has a small form just if it is below 2 ^ 56, and then the number and its tag
-- can be read back.
pub try_from_unsigned_lem :
    (tag : Tag) (value : ℕ)
    → value < 2 ^ 64
    → (wide : ℕ)
    → Holds tag value (try_from_u64 tag value)
      × Holds Tag.u128_small wide (try_from_u128 wide)
      × Holds Tag.u256_small wide (try_from_u256 wide)
unfolding try_from_u64 try_from_u128 try_from_u256
try_from_unsigned_lem tag value h wide = (
  made-Holds tag value value (is_small_u64 value) (is_small_u64_lem value) (omega arith),
  made-Holds Tag.u128_small wide (wide % 2 ^ 64) _ (is_small_wide wide) refl,
  made-Holds Tag.u256_small wide (wide % 2 ^ 64) _ (is_small_wide wide) refl,
)
