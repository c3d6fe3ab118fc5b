-- ===== src/Values/Symbol/Pack.antt =====
-- The encoding of characters, and the number that a list of codes packs to.
use Prim.Native.Nat.{bit_or}
use rs_soroban_env.Prelude.{
  ℕ, zero, suc, ◌+◌, ◌-◌, ◌*◌, ◌^◌, ◌≤◌, ◌<◌, ◌≡◌, refl, ap, ◌∙◌, Bool, true, false, ◌&&◌, leb,
  ◌==◌, if◌then◌else◌, List, [], ◌∷◌, length, map, arith, inl, inr,
}
use rs_soroban_env.Prelude.Bits.{shl, bit_or_disjoint}
use rs_soroban_env.Values.Symbol.{bad_char, encode_byte, encode_loop, decode}

-- The code of a character, and 0 for any other byte.
abbrev pub code_of : ℕ → ℕ
code_of b =
    if b == b'_'
    then 1
    else if leb b'0' b && leb b b'9'
    then 2 + (b - b'0')
    else if leb b'A' b && leb b b'Z'
    then 12 + (b - b'A')
    else if leb b'a' b && leb b b'z'
    then 38 + (b - b'a')
    else 0

-- The alphabet: `_`, digits and letters.
abbrev pub is_symbol_char : ℕ → Bool
is_symbol_char b = if code_of b == 0 then false else true

pub encode_char : (b : ℕ) → is_symbol_char b ≡ true → encode_byte b ≡ inr (code_of b)
unfolding encode_byte
encode_char b h = ground arith

pub encode_other : (b : ℕ) → is_symbol_char b ≡ false → encode_byte b ≡ inl (bad_char b)
unfolding encode_byte
encode_other b h = ground arith

pub decode-code_of : (b : ℕ) → is_symbol_char b ≡ true → (decode (code_of b) ≡ b) × (0 < b)
unfolding decode
decode-code_of b h = ground arith

pub code_of_bounds : (b : ℕ) → is_symbol_char b ≡ true → (0 < code_of b) × (code_of b < 64)
code_of_bounds b h = ground arith

-- 64 ^ k.
abbrev pub cap : ℕ → ℕ
cap zero = 1
cap (suc k) = cap k * 64

pub cap-le : (k : ℕ) → k ≤ 9 → cap k ≤ 2 ^ 54
cap-le zero h = omega arith
cap-le (suc zero) h = omega arith
cap-le (suc (suc zero)) h = omega arith
cap-le (suc (suc (suc zero))) h = omega arith
cap-le (suc (suc (suc (suc zero)))) h = omega arith
cap-le (suc (suc (suc (suc (suc zero))))) h = omega arith
cap-le (suc (suc (suc (suc (suc (suc zero)))))) h = omega arith
cap-le (suc (suc (suc (suc (suc (suc (suc zero))))))) h = omega arith
cap-le (suc (suc (suc (suc (suc (suc (suc (suc zero)))))))) h = omega arith
cap-le (suc (suc (suc (suc (suc (suc (suc (suc (suc zero))))))))) h = omega arith
cap-le (suc (suc (suc (suc (suc (suc (suc (suc (suc (suc k)))))))))) h = absurd (omega arith)

-- The number of the codes, the first one highest.
abbrev pub packed : ℕ → List ℕ → ℕ
packed acc [] = acc
packed acc (c ∷ cs) = packed (acc * 64 + c) cs

abbrev pub AllChars : List ℕ → Type 0
AllChars [] = Unit
AllChars (b ∷ bytes) = (is_symbol_char b ≡ true) × AllChars bytes

pub encode_loop_lem :
    (bytes : List ℕ) (acc k : ℕ)
    → AllChars bytes
    → acc < cap k
    → k + length bytes ≤ 9
    → encode_loop bytes acc ≡ inr (packed acc (map code_of bytes))
unfolding encode_loop
encode_loop_lem [] acc k all a h = refl
encode_loop_lem (b ∷ bytes) acc k (char, all) a h =
    let (low, high) = code_of_bounds b char in
    let small = cap-le (suc k) (omega arith) in
    let joined : bit_or (shl 64 acc 6) (code_of b) ≡ acc * 64 + code_of b =
      ap (λ (x : ℕ). bit_or x (code_of b)) (omega arith) ∙ bit_or_disjoint 6 acc (code_of b) high in
    rw (encode_loop, encode_char b char, joined)
      (encode_loop_lem bytes (acc * 64 + code_of b) (suc k) all (omega arith) (omega arith))
