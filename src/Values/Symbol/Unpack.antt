-- ===== src/Values/Symbol/Unpack.antt =====
-- What the iterator reads from a packed number: the codes from the highest place down.
use Prim.Native.Nat.{bit_and}
use rs_soroban_env.Prelude.{
  ℕ, zero, suc, ◌+◌, ◌*◌, ◌/◌, ◌%◌, ◌^◌, ◌≤◌, ◌<◌, ◌≡◌, refl, ap, subst, ltb, ◌∙◌, ◌==◌,
  if◌then◌else◌, none, some, List, [], ◌∷◌, length, map, arith, Bool-cases, inl, inr,
}
use rs_soroban_env.Prelude.Bits.{shl, shr, bit_and_low}
use rs_soroban_env.Values.Symbol.{code_mask, decode, next, rounds, chars_loop}
use rs_soroban_env.Values.Symbol.Pack.{cap, cap-le, packed}

-- The number of the codes if the first stands at place k.
abbrev pub placed : ℕ → List ℕ → ℕ
placed k [] = 0
placed zero (c ∷ cs) = c
placed (suc k) (c ∷ cs) = c * cap (suc k) + placed k cs

abbrev pub AllCodes : List ℕ → Type 0
AllCodes [] = Unit
AllCodes (c ∷ cs) = (0 < c) × (c < 64) × AllCodes cs

pub packed-placed :
    (cs : List ℕ) (acc k : ℕ) → length cs ≡ suc k → packed acc cs ≡ acc * cap (suc k) + placed k cs
packed-placed [] acc k h = absurd (omega arith)
packed-placed (c ∷ []) acc zero h = omega arith
packed-placed (c ∷ []) acc (suc k) h = absurd (omega arith)
packed-placed (c ∷ d ∷ cs) acc zero h = absurd (omega arith)
packed-placed (c ∷ d ∷ cs) acc (suc k) h =
    grind (arith, packed-placed (d ∷ cs) (acc * 64 + c) k (omega arith))

placed-suc : (k : ℕ) (cs : List ℕ) → length cs ≤ suc k → placed (suc k) cs ≡ placed k cs * 64
placed-suc k [] h = omega arith
placed-suc zero (c ∷ []) h = omega arith
placed-suc zero (c ∷ d ∷ cs) h = absurd (omega arith)
placed-suc (suc k) (c ∷ cs) h = grind (arith, placed-suc k cs (omega arith))

cap_pos : (k : ℕ) → 0 < cap k
cap_pos zero = omega arith
cap_pos (suc k) = omega (arith, cap_pos k)

pub placed-lt : (k : ℕ) (cs : List ℕ) → AllCodes cs → placed k cs < cap (suc k)
placed-lt k [] all = omega (arith, cap_pos (suc k))
placed-lt zero (c ∷ cs) (low, high, all) = omega arith
placed-lt (suc k) (c ∷ cs) (low, high, all) = grind (arith, placed-lt k cs all)

placed_pos : (k c : ℕ) (cs : List ℕ) → 0 < c → 0 < placed k (c ∷ cs)
placed_pos zero c cs h = omega arith
placed_pos (suc k) c cs h = grind (arith, cap_pos (suc k))

-- The codes from place k are those that the low 54 bits of the word hold.
pub record Places (k : ℕ) (cs : List ℕ) (word : ℕ) : Type 0 where
  pub within : k ≤ 8
  pub fits : length cs ≤ suc k
  pub codes : AllCodes cs
  pub value : word % 2 ^ 54 ≡ placed k cs

-- The top code, below the highest place, and at it.
top_code : ℕ → ℕ
top_code word = bit_and (shr word 48) code_mask

top_code-mod : (word : ℕ) → top_code word ≡ word % 2 ^ 54 / 2 ^ 48
unfolding top_code
top_code-mod word = omega (arith, bit_and_low 6 (shr word 48))

shift-below :
    (k : ℕ) (cs : List ℕ) (word : ℕ)
    → Places k cs word
    → k < 8
    → (top_code word ≡ 0) × Places (suc k) cs (shl 64 word 6)
shift-below k cs word p h =
    let small = cap-le (suc (suc k)) (omega arith) in
    let below = placed-lt k cs p.codes in
    (
      omega (arith, top_code-mod word),
      record {
        within = omega arith;
        fits = omega arith;
        codes = p.codes;
        value = omega (arith, placed-suc k cs p.fits);
      },
    )

shift-top :
    (c : ℕ) (cs : List ℕ) (word : ℕ)
    → Places 8 (c ∷ cs) word
    → (top_code word ≡ c) × Places 8 cs (shl 64 word 6)
shift-top c cs word p =
    let below = placed-lt 7 cs p.codes.2 in
    let high = p.codes.1 in
    (
      omega (arith, top_code-mod word),
      record {
        within = omega arith;
        fits = omega arith;
        codes = p.codes.2;
        value = omega (arith, placed-suc 7 cs (omega arith));
      },
    )

decode_zero : decode 0 ≡ 0
unfolding decode
decode_zero = refl

decode_pos : (c : ℕ) → 0 < c → c < 64 → 0 < decode c
unfolding decode
decode_pos c h k = ground arith

next_round :
    (fuel word : ℕ)
    → next (suc fuel) word ≡ (
        if word == 0
        then none
        else if decode (top_code word) == 0
        then next fuel (shl 64 word 6)
        else some (decode (top_code word), shl 64 word 6))
unfolding next top_code
next_round fuel word = refl

next_end : (fuel : ℕ) → next fuel 0 ≡ none
unfolding next
next_end zero = refl
next_end (suc fuel) = next_round fuel 0

next_skip : (fuel word : ℕ) → top_code word ≡ 0 → next (suc fuel) word ≡ next fuel (shl 64 word 6)
next_skip fuel word h = ground (arith, h, decode_zero, next_round fuel word, next_end fuel)

-- Without codes the iterator is at its end.
next-none : (fuel word : ℕ) → word % 2 ^ 54 ≡ 0 → next fuel word ≡ none
unfolding next
next-none zero word h = refl
next-none (suc fuel) word h =
    next_skip fuel word (omega (arith, top_code-mod word))
    ∙ next-none fuel (shl 64 word 6) (omega arith)

-- The next character is that of the first code, and the iterator stands at the codes after it.
next-some :
    (fuel k c : ℕ) (cs : List ℕ) (word : ℕ)
    → Places k (c ∷ cs) word
    → 8 < k + fuel
    → (word' : ℕ) × (next fuel word ≡ some (decode c, word')) × Places 8 cs word'
next-some zero k c cs word p h = absurd (omega arith)
next-some (suc fuel) k c cs word p h = elim (Bool-cases (ltb k 8)) [
  | inl below ↦
      let (top, p') = shift-below k (c ∷ cs) word p (ground arith) in
      let (word', e, rest) = next-some fuel (suc k) c cs (shl 64 word 6) p' (omega arith) in
      (word', next_skip fuel word top ∙ e, rest)
  | inr highest ↦
      let at : k ≡ 8 = ground arith in
      let p' : Places 8 (c ∷ cs) word = subst (λ j. Places j (c ∷ cs) word) at p in
      let (top, rest) = shift-top c cs word p' in
      (
        shl 64 word 6,
        ground (
          arith,
          top,
          next_round fuel word,
          decode_pos c p.codes.0 p.codes.1,
          placed_pos k c cs p.codes.0,
        ),
        rest,
      )
]

pub chars_loop-Places :
    (fuel k : ℕ) (cs : List ℕ) (word : ℕ)
    → Places k cs word
    → length cs < fuel
    → chars_loop fuel word ≡ map decode cs
unfolding chars_loop
chars_loop-Places zero k cs word p h = absurd (omega arith)
chars_loop-Places (suc fuel) k [] word p h = rw (next-none rounds word p.value, chars_loop) refl
chars_loop-Places (suc fuel) k (c ∷ cs) word p h =
    let (word', e, rest) = next-some rounds k c cs word p (omega arith) in
    rw (chars_loop, e)
      (ap (λ xs. decode c ∷ xs) (chars_loop-Places fuel 8 cs word' rest (omega arith)))
