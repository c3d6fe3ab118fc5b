-- ===== src/Prelude/Twos.antt =====
-- Two's complement: the words of `w` bits that stand for integers, and Rust's `as` casts and `>>` on
-- signed words.
use rs_soroban_env.Prelude.{ℕ, ◌-◌, ◌/◌, ◌%◌, ◌^◌, Bool, false, ltb, ◌==◌, if◌then◌else◌}
use rs_soroban_env.Prelude.Int.{ℤ, pos, negsuc}

-- The integer that a word stands for, and the word of an integer: `x as i64` and `x as u64`.
abbrev pub signed : ℕ → ℕ → ℤ
signed w x = if ltb x (2 ^ (w - 1)) then pos x else negsuc (2 ^ w - x - 1)

abbrev pub word : ℕ → ℤ → ℕ
word w (pos n) = n % 2 ^ w
word w (negsuc n) = 2 ^ w - 1 - n % 2 ^ w

-- The arithmetic shift rounds down.
abbrev pub shr_signed : ℤ → ℕ → ℤ
shr_signed (pos n) k = pos (n / 2 ^ k)
shr_signed (negsuc n) k = negsuc (n / 2 ^ k)

abbrev pub eq_ℤ : ℤ → ℤ → Bool
eq_ℤ (pos a) (pos b) = a == b
eq_ℤ (negsuc a) (negsuc b) = a == b
eq_ℤ (pos a) (negsuc b) = false
eq_ℤ (negsuc a) (pos b) = false
