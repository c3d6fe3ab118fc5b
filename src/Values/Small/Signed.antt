-- ===== src/Values/Small/Signed.antt =====
-- Signed numbers in small form: which fit, and that they come back.
use rs_soroban_env.Prelude.{
  ℕ, ◌-◌, ◌%◌, ◌^◌, ◌≡◌, refl, sym, Bool, true, false, ltb, ◌&&◌, if◌then◌else◌, Option, none, some,
  arith, ◌⊎◌, inl, inr,
}
use rs_soroban_env.Prelude.Int.{ℤ, pos, negsuc}
use rs_soroban_env.Prelude.Twos.{signed, word, eq_ℤ}
use rs_soroban_env.Values.Tag.{Tag, to_u8}
use rs_soroban_env.Values.Val.{get_signed_body, get_tag_u8, from_body_and_tag}
use rs_soroban_env.Values.Val.Layout.{from_body_and_tag-sum, get_tag_u8-from_body, to_u8-lt}
use rs_soroban_env.Values.Small.{is_small_i64, try_from_i64, try_from_i128, try_from_i256}

-- From -2 ^ (w - 1) to 2 ^ (w - 1) - 1.
abbrev pub fits : ℕ → ℤ → Bool
fits w (pos n) = ltb n (2 ^ (w - 1))
fits w (negsuc n) = ltb n (2 ^ (w - 1))

is_small_i64_lem : (i : ℤ) → fits 64 i ≡ true → is_small_i64 i ≡ fits 56 i
unfolding is_small_i64
is_small_i64_lem (pos n) h = ground arith
is_small_i64_lem (negsuc n) h = ground arith

is_small_wide :
    (i : ℤ) → (is_small_i64 (signed 64 (word 64 i)) && eq_ℤ i (signed 64 (word 64 i))) ≡ fits 56 i
is_small_wide (pos n) = ground (arith, is_small_i64_lem (signed 64 (word 64 (pos n))))
is_small_wide (negsuc n) = ground (arith, is_small_i64_lem (signed 64 (word 64 (negsuc n))))

-- The body of an integer that fits is read back, whatever the bits beyond the body.
get_signed_body-word :
    (x : ℕ) (i : ℤ) (t : Tag)
    → x % 2 ^ 56 ≡ word 56 i
    → fits 56 i ≡ true
    → get_signed_body (from_body_and_tag x t) ≡ i
unfolding get_signed_body
get_signed_body-word x (pos n) t e h = ground (arith, from_body_and_tag-sum x t, to_u8-lt t)
get_signed_body-word x (negsuc n) t e h = ground (arith, from_body_and_tag-sum x t, to_u8-lt t)

-- A value holds the integer under the tag, which it does just if the integer has at most 56 bits.
abbrev pub Holds : Tag → ℤ → Option ℕ → Type 0
Holds tag i made =
    ((fits 56 i ≡ true)
      × ((v : ℕ) × (made ≡ some v) × (get_signed_body v ≡ i) × (get_tag_u8 v ≡ to_u8 tag)))
    ⊎ ((fits 56 i ≡ false) × (made ≡ none))

made-Holds :
    (tag : Tag) (i : ℤ) (low : ℕ) (small : Bool)
    → small ≡ fits 56 i
    → low % 2 ^ 56 ≡ word 56 i
    → Holds tag i (if small then some (from_body_and_tag low tag) else none)
made-Holds tag i low true h e = inl (
  sym h,
  (
    from_body_and_tag low tag,
    refl,
    get_signed_body-word low i tag e (sym h),
    get_tag_u8-from_body low tag,
  ),
)
made-Holds tag i low false h e = inr (sym h, refl)

low_word : (i : ℤ) → word 64 i % 2 ^ 56 ≡ word 56 i
low_word (pos n) = omega arith
low_word (negsuc n) = omega arith

low_word_128 : (i : ℤ) → word 128 i % 2 ^ 64 % 2 ^ 56 ≡ word 56 i
low_word_128 (pos n) = omega arith
low_word_128 (negsuc n) = omega arith

low_word_again : (i : ℤ) → word 64 (signed 64 (word 64 i)) % 2 ^ 56 ≡ word 56 i
low_word_again (pos n) = ground arith
low_word_again (negsuc n) = ground arith

-- An `i64`, `i128` or `i256` has a small form just if it is from -2 ^ 55 to 2 ^ 55 - 1, and then the
-- integer and its tag can be read back.
pub try_from_signed_lem :
    (i : ℤ)
    → fits 64 i ≡ true
    → (wide : ℤ)
    → Holds Tag.i64_small i (try_from_i64 i)
      × Holds Tag.i128_small wide (try_from_i128 wide)
      × Holds Tag.i256_small wide (try_from_i256 wide)
unfolding try_from_i64 try_from_i128 try_from_i256
try_from_signed_lem i h wide = (
  made-Holds Tag.i64_small i (word 64 i) (is_small_i64 i) (is_small_i64_lem i h) (low_word i),
  made-Holds Tag.i128_small wide (word 128 wide % 2 ^ 64) _ (is_small_wide wide)
      (low_word_128 wide),
  made-Holds Tag.i256_small wide _ _ (is_small_wide wide) (low_word_again wide),
)
