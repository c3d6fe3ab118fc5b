-- ===== src/Errors/Exec.antt =====
-- Computations on a state that may fail. An error keeps the state as the failing call left it, as
-- with Rust's `?` in a method on `&mut self`.
use rs_soroban_env.Errors.Defs.{Result, ok, err, Error}

abbrev pub Exec : Type 0 → Type 0 → Type 0
Exec S A = S → Result A × S

infixl 5 ◌>>=◌ ◌>>◌
abbrev pub ◌>>=◌ : {S A B : Type 0} → Exec S A → (A → Exec S B) → Exec S B
◌>>=◌ m f s = let (r, s') = m s in elim r [ ok a ↦ f a s' | err e ↦ (err e, s') ]

abbrev pub ◌>>◌ : {S B : Type 0} → Exec S (Unit {0}) → Exec S B → Exec S B
m >> k = m >>= λ _. k

abbrev pub pure : {S A : Type 0} → A → Exec S A
pure a s = (ok a, s)

abbrev pub throw : {S A : Type 0} → Error → Exec S A
throw e s = (err e, s)

-- A result that depends on the state and changes nothing of it.
abbrev pub lift : {S A : Type 0} → (S → Result A) → Exec S A
lift f s = (f s, s)

abbrev pub modify : {S : Type 0} → (S → S) → Exec S (Unit {0})
modify f s = (ok tt, f s)
