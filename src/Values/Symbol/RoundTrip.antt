-- ===== src/Values/Symbol/RoundTrip.antt =====
-- Text that is encoded as a small symbol comes back; any other text is refused.
use rs_soroban_env.Prelude.{
  ℕ, zero, suc, ◌-◌, ◌%◌, ◌^◌, ◌≤◌, ◌<◌, ◌≡◌, refl, ap, ◌∙◌, ltb, List, [], ◌∷◌, ◌++◌, length, take,
  replicate, map, length-map, arith, ◌⊎◌, inl, inr, Bool-cases, Option, none, some, Option-cases,
  if◌then◌else◌,
}
use Prim.Native.Nat.{bit_or}
use rs_soroban_env.Prelude.Bits.{shl}
use rs_soroban_env.Values.Tag.{Tag, to_u8}
use rs_soroban_env.Values.Val.{from_body_and_tag, get_tag_u8}
use rs_soroban_env.Values.Val.Layout.{get_body-from_body, get_tag_u8-from_body}
use rs_soroban_env.Values.Symbol.{
  too_long, bad_char, max_small_chars, try_from_bytes, encode_loop, decode, chars, rounds, to_str,
  str_len, as_ref,
}
use rs_soroban_env.Values.Symbol.Pack.{
  is_symbol_char, code_of, code_of_bounds, decode-code_of, encode_char, encode_other, AllChars,
  packed, cap-le, encode_loop_lem,
}
use rs_soroban_env.Values.Symbol.Unpack.{placed-lt, packed-placed, AllCodes, chars_loop-Places}

codes-AllCodes : (bytes : List ℕ) → AllChars bytes → AllCodes (map code_of bytes)
codes-AllCodes [] all = tt
codes-AllCodes (b ∷ bytes) (char, all) =
    let (low, high) = code_of_bounds b char in (low, high, codes-AllCodes bytes all)

decode-codes : (bytes : List ℕ) → AllChars bytes → map decode (map code_of bytes) ≡ bytes
decode-codes [] all = refl
decode-codes (b ∷ bytes) (char, all) = cc ((decode-code_of b char).0, decode-codes bytes all)

chars-packed :
    (cs : List ℕ) (t : Tag)
    → AllCodes cs
    → length cs ≤ 9
    → chars (from_body_and_tag (packed 0 cs) t) ≡ map decode cs
unfolding chars
chars-packed [] t all h = rw (get_body-from_body 0 t) (
    chars_loop-Places rounds 8 [] 0
      (record { within = omega arith; fits = omega arith; codes = tt; value = omega arith })
      (omega arith))
chars-packed (c ∷ cs) t all h =
    let k = length cs in
    let e = packed-placed (c ∷ cs) 0 k refl in
    let small = placed-lt k (c ∷ cs) all in
    let cap_small = cap-le (suc k) (omega arith) in
    let body : packed 0 (c ∷ cs) % 2 ^ 56 ≡ packed 0 (c ∷ cs) = omega arith in
    rw (get_body-from_body (packed 0 (c ∷ cs)) t, body)
      (chars_loop-Places rounds k (c ∷ cs) (packed 0 (c ∷ cs))
        (record { within = omega arith; fits = omega arith; codes = all; value = omega arith })
        (omega arith))

str_len-padded :
    (bytes : List ℕ) (n : ℕ) → AllChars bytes → str_len (bytes ++ replicate n 0) ≡ length bytes
unfolding str_len
str_len-padded [] zero all = refl
str_len-padded [] (suc n) all = refl
str_len-padded (b ∷ bytes) n (char, all) =
    ground (arith, decode-code_of b char, str_len-padded bytes n all)

take-append : (xs ys : List ℕ) → take (length xs) (xs ++ ys) ≡ xs
take-append [] ys = refl
take-append (x ∷ xs) ys = ap (λ t. x ∷ t) (take-append xs ys)

take_all : (n : ℕ) (xs : List ℕ) → length xs ≤ n → take n xs ≡ xs
take_all zero [] h = refl
take_all (suc n) [] h = refl
take_all zero (x ∷ xs) h = absurd (omega arith)
take_all (suc n) (x ∷ xs) h = ap (λ t. x ∷ t) (take_all n xs (omega arith))

as_ref-to_str :
    (symbol : ℕ) (bytes : List ℕ)
    → AllChars bytes
    → length bytes ≤ 9
    → chars symbol ≡ bytes
    → as_ref (to_str symbol) ≡ bytes
unfolding as_ref to_str
as_ref-to_str symbol bytes all h e =
    rw (e, take_all 32 bytes (omega arith), str_len-padded bytes (32 - length bytes) all)
      (take-append bytes (replicate (32 - length bytes) 0))

-- The first byte that is no symbol character.
abbrev pub first_bad : List ℕ → Option ℕ
first_bad [] = none
first_bad (b ∷ bytes) = let rest = first_bad bytes in if is_symbol_char b then rest else some b

AllChars-first_bad : (bytes : List ℕ) → first_bad bytes ≡ none → AllChars bytes
AllChars-first_bad [] h = tt
AllChars-first_bad (b ∷ bytes) h = elim (Bool-cases (is_symbol_char b)) [
  | inl char ↦ (char, AllChars-first_bad bytes (ground (arith, char, h)))
  | inr other ↦ absurd (ground (arith, other, h))
]

encode_loop-bad :
    (bytes : List ℕ) (acc bad : ℕ)
    → first_bad bytes ≡ some bad
    → encode_loop bytes acc ≡ inl (bad_char bad)
unfolding encode_loop
encode_loop-bad [] acc bad h = cc
encode_loop-bad (b ∷ bytes) acc bad h = elim (Bool-cases (is_symbol_char b)) [
  | inl char ↦
      rw (encode_loop, encode_char b char)
        (encode_loop-bad bytes (bit_or (shl 64 acc 6) (code_of b)) bad (ground (arith, char, h)))
  | inr other ↦
      let first : b ≡ bad = ground (arith, other, h) in
      rw (encode_loop, encode_other b other, first) refl
]

-- Of a text try_from_bytes gives one of three: its length, if it has more than 9 bytes; else its first
-- byte outside the alphabet, if there is one; else a small symbol, from which both the iterator and
-- the string buffer read the text back.
pub try_from_bytes_lem :
    (bytes : List ℕ)
    → ((max_small_chars < length bytes) × (try_from_bytes bytes ≡ inl (too_long (length bytes))))
      ⊎ ((length bytes ≤ max_small_chars)
          × ((bad : ℕ) × (first_bad bytes ≡ some bad)
              × (try_from_bytes bytes ≡ inl (bad_char bad))))
      ⊎ ((length bytes ≤ max_small_chars)
          × (first_bad bytes ≡ none)
          × ((symbol : ℕ) × (try_from_bytes bytes ≡ inr symbol)
              × (get_tag_u8 symbol ≡ to_u8 Tag.symbol_small)
              × (chars symbol ≡ bytes)
              × (as_ref (to_str symbol) ≡ bytes)))
unfolding try_from_bytes
try_from_bytes_lem bytes = elim (Bool-cases (ltb max_small_chars (length bytes))) [
  | inl long ↦ inl (ground arith, rw (long) refl)
  | inr short ↦ elim (Option-cases (first_bad bytes)) [
    | inr (bad, e) ↦
        inr (inl (ground arith, (bad, e, rw (short, encode_loop-bad bytes 0 bad e) refl)))
    | inl e ↦
        let all = AllChars-first_bad bytes e in
        let codes = map code_of bytes in
        let symbol = from_body_and_tag (packed 0 codes) Tag.symbol_small in
        let fits : length bytes ≤ 9 = ground arith in
        let read : chars symbol ≡ bytes =
          chars-packed codes Tag.symbol_small (codes-AllCodes bytes all)
            (omega (arith, length-map bytes code_of))
          ∙ decode-codes bytes all in
        inr (
          inr (
            fits,
            e,
            (
              symbol,
              rw (short, encode_loop_lem bytes 0 0 all (omega arith) (omega arith)) refl,
              get_tag_u8-from_body (packed 0 codes) Tag.symbol_small,
              read,
              as_ref-to_str symbol bytes all fits read,
            ),
          ))
  ]
]
