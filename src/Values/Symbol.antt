-- ===== src/Values/Symbol.antt =====
-- Small symbols: up to 9 characters in 6 bits each, from soroban-env-common/src/symbol.rs. Text is a list
-- of bytes; a panic or an error of the source is the error of a sum.
pub mod Pack
pub mod Unpack
pub mod RoundTrip
use Prim.Native.Nat.{bit_and, bit_or}
use rs_soroban_env.Prelude.{
  ℕ, zero, suc, ◌+◌, ◌-◌, ◌^◌, Bool, ◌&&◌, ltb, leb, ◌==◌, if◌then◌else◌, Option, none, some, List,
  [], ◌∷◌, ◌++◌, length, take, get_or, replicate, ◌⊎◌, inl, inr, Ordering, compare,
}
use Prim.Native.Nat.Ordering.{lt, eq, gt}
use rs_soroban_env.Prelude.Bits.{shl, shr}
use rs_soroban_env.Values.Tag.{Tag}
use rs_soroban_env.Values.Val.{from_body_and_tag, get_body}

pub data SymbolError : Type 0 where
  too_long bad_char : ℕ → SymbolError
  malformed_small : SymbolError

abbrev pub max_small_chars : ℕ
max_small_chars = 9

abbrev pub code_mask : ℕ
code_mask = 2 ^ 6 - 1

abbrev pub small_mask : ℕ
small_mask = 2 ^ 54 - 1

abbrev pub sc_symbol_limit : ℕ
sc_symbol_limit = 32

unfoldable pub try_from_body : ℕ → SymbolError ⊎ ℕ
unfolding from_body_and_tag
try_from_body body =
    if bit_and body small_mask == body
    then inr (from_body_and_tag body Tag.symbol_small)
    else inl malformed_small

unfoldable pub encode_byte : ℕ → SymbolError ⊎ ℕ
encode_byte b =
    if b == b'_'
    then inr 1
    else if leb b'0' b && leb b b'9'
    then inr (2 + (b - b'0'))
    else if leb b'A' b && leb b b'Z'
    then inr (12 + (b - b'A'))
    else if leb b'a' b && leb b b'z'
    then inr (38 + (b - b'a'))
    else inl (bad_char b)

-- The `while` loop over the bytes.
unfoldable pub encode_loop : List ℕ → ℕ → SymbolError ⊎ ℕ
encode_loop [] accum = inr accum
encode_loop (b ∷ bytes) accum = elim (encode_byte b) [
  | inl e ↦ inl e
  | inr v ↦ encode_loop bytes (bit_or (shl 64 accum 6) v)
]

unfoldable pub try_from_bytes : List ℕ → SymbolError ⊎ ℕ
unfolding encode_loop from_body_and_tag
try_from_bytes bytes =
    if ltb max_small_chars (length bytes)
    then inl (too_long (length bytes))
    else elim (encode_loop bytes 0) [
      | inl e ↦ inl e
      | inr accum ↦ inr (from_body_and_tag accum Tag.symbol_small)
    ]

-- The character of a code, and 0 for no character.
unfoldable pub decode : ℕ → ℕ
decode n =
    if n == 1
    then b'_'
    else if leb 2 n && leb n 11
    then b'0' + n - 2
    else if leb 12 n && leb n 37
    then b'A' + n - 12
    else if leb 38 n && leb n 63
    then b'a' + n - 38
    else 0

-- `SymbolSmallIter::next`: the character and the iterator after it. Fuel for 11 rounds shifts every bit
-- out of the word.
unfoldable pub next : ℕ → ℕ → Option (ℕ × ℕ)
unfolding decode
next zero word = none
next (suc fuel) word =
    let res = decode (bit_and (shr word 48) code_mask) in
    let word' = shl 64 word 6 in
    let rest = next fuel word' in
    if word == 0 then none else if res == 0 then rest else some (res, word')

abbrev pub rounds : ℕ
rounds = 11

-- What the iterator yields, until it is at its end: a word has at most 11 codes.
unfoldable pub chars_loop : ℕ → ℕ → List ℕ
unfolding next
chars_loop zero word = []
chars_loop (suc fuel) word = elim (next rounds word) [
  | none ↦ []
  | some (char, word') ↦ char ∷ chars_loop fuel word'
]

-- `into_iter` and `to_string` of a small symbol.
unfoldable pub chars : ℕ → List ℕ
unfolding chars_loop get_body
chars symbol = chars_loop rounds (get_body symbol)

-- `to_str`: the characters at the front of a buffer of zeros.
unfoldable pub to_str : ℕ → List ℕ
unfolding chars
to_str symbol =
    let cs = take sc_symbol_limit (chars symbol) in cs ++ replicate (sc_symbol_limit - length cs) 0

-- `SymbolStr::len` and `SymbolStr::as_ref`.
unfoldable pub str_len : List ℕ → ℕ
str_len [] = 0
str_len (x ∷ s) = let rest = str_len s in if x == 0 then 0 else suc rest

unfoldable pub as_ref : List ℕ → List ℕ
unfolding str_len
as_ref s = take (str_len s) s

-- `Iterator::cmp`, by which small symbols are ordered.
unfoldable pub cmp_chars : List ℕ → List ℕ → Ordering
cmp_chars [] [] = eq
cmp_chars [] (y ∷ ys) = lt
cmp_chars (x ∷ xs) [] = gt
cmp_chars (x ∷ xs) (y ∷ ys) =
    let rest = cmp_chars xs ys in elim (compare x y) [ lt ↦ lt | eq ↦ rest | gt ↦ gt ]

unfoldable pub cmp : ℕ → ℕ → Ordering
unfolding cmp_chars chars
cmp a b = cmp_chars (chars a) (chars b)
