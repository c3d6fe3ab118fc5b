-- ===== src/Values/Tag/Codes.antt =====
-- `Tag::from_u8` and `Tag::u8_is_object` of soroban-env-common/src/val.rs, against the discriminants.
use rs_soroban_env.Prelude.{
  ◌+◌, ◌≤◌, ℕ, zero, suc, ◌≡◌, refl, ◌<◌, ◌⊎◌, Bool, true, false, not, ◌&&◌, ◌||◌, ltb, ◌==◌,
  if◌then◌else◌, List, [], ◌∷◌, arith,
}
use native.Mathlib.Decide.{dec_lt}
use rs_soroban_env.Values.Tag.{Tag, to_u8, all_tags}

-- The transmutation of a number to a tag: the tag with this discriminant.
unfoldable pub transmute : List Tag → ℕ → Tag
transmute [] n = Tag.bad
transmute (t ∷ ts) n = let rest = transmute ts n in if to_u8 t == n then t else rest

unfoldable pub u8_is_object : ℕ → Bool
u8_is_object x =
    ltb (to_u8 Tag.object_code_lower_bound) x && ltb x (to_u8 Tag.object_code_upper_bound)

unfoldable pub from_u8 : ℕ → Tag
unfolding transmute
from_u8 tag =
    let a = to_u8 Tag.small_code_upper_bound in
    let b = to_u8 Tag.object_code_lower_bound in
    let c = to_u8 Tag.object_code_upper_bound in
    if not (ltb tag a || (ltb b tag && ltb tag c)) then Tag.bad else transmute all_tags tag

-- The tags that a value can have.
abbrev pub is_proper : Tag → Bool
is_proper Tag.small_code_upper_bound = false
is_proper Tag.object_code_lower_bound = false
is_proper Tag.object_code_upper_bound = false
is_proper Tag.bad = false
is_proper _ = true

-- The test holds of `count` codes in a row.
hold_from : (ℕ → Bool) → ℕ → ℕ → Bool
hold_from test first zero = true
hold_from test first (suc count) = hold_from test (suc first) count && test first

held :
    (test : ℕ → Bool) (count first code : ℕ)
    → first ≤ code
    → code < first + count
    → hold_from test first count ≡ true
    → test code ≡ true
unfolding hold_from
held test zero first code low high h = absurd (omega arith)
held test (suc count) first code low high h = elim (dec_lt first code) [
  | yes later ↦ held test count (suc first) code later (omega arith) (ground (arith, h))
  | no here ↦ ground (arith, h, here)
]

abbrev is_bad : Tag → Bool
is_bad Tag.bad = true
is_bad _ = false

eq_of_is_bad : (t : Tag) → is_bad t ≡ true → t ≡ Tag.bad
eq_of_is_bad t h = ground arith

-- The tag read from a byte is proper and has the byte as its code, or it is `Bad`.
reads_back : ℕ → Bool
unfolding from_u8
reads_back n = (is_proper (from_u8 n) && (to_u8 (from_u8 n) == n)) || is_bad (from_u8 n)

all_read_back : hold_from reads_back 0 256 ≡ true
unfolding hold_from reads_back
all_read_back = refl

read_back : (n : ℕ) → n < 256 → reads_back n ≡ true
read_back n h = held reads_back 256 0 n (omega arith) h all_read_back

pub from_u8-byte :
    (n : ℕ)
    → n < 256
    → ((is_proper (from_u8 n) ≡ true) × (to_u8 (from_u8 n) ≡ n)) ⊎ (from_u8 n ≡ Tag.bad)
unfolding reads_back
from_u8-byte n h = ground (arith, read_back n h, eq_of_is_bad (from_u8 n))

pub from_u8-proper : (t : Tag) → from_u8 (to_u8 t) ≡ (if is_proper t then t else Tag.bad)
unfolding from_u8
from_u8-proper Tag.false = refl
from_u8-proper _ = refl

-- Reading a tag's code gives that tag, or `Bad` for the three markers and `Bad` itself; and the tag
-- read from any byte is proper and has the byte as its code, or it is `Bad`.
pub from_u8-to_u8 :
    (t : Tag) (n : ℕ)
    → n < 256
    → (from_u8 (to_u8 t) ≡ (if is_proper t then t else Tag.bad))
      × (((is_proper (from_u8 n) ≡ true) × (to_u8 (from_u8 n) ≡ n)) ⊎ (from_u8 n ≡ Tag.bad))
from_u8-to_u8 t n h = (from_u8-proper t, from_u8-byte n h)
