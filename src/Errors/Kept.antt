-- ===== src/Errors/Kept.antt =====
-- What holds of the state after a sequence of steps.
use rs_soroban_env.Prelude.{◌≡◌, refl, true, arith}
use rs_soroban_env.Errors.Defs.{Result, ok, err, Error, is_ok}
use rs_soroban_env.Errors.Exec.{Exec, ◌>>=◌}

after_step :
    {S A B : Type 0} (P : S → Type 0) (f : A → Exec S B) (r : Result A) (s : S)
    → P s
    → ((a : A) → P (f a s).1)
    → P (((λ _. (r, s)) >>= f) s).1
after_step P f (ok a) s p q = q a
after_step P f (err e) s p q = p

pub bind_lem :
    {S A B : Type 0} (P : S → Type 0) (m : Exec S A) (f : A → Exec S B) (s : S)
    → P (m s).1
    → ((a : A) → P (f a (m s).1).1)
    → P ((m >>= f) s).1
bind_lem P m f s p q = after_step P f (m s).0 (m s).1 p q

module _ {S A B : Type 0} (P : Result B × S → Type 0) (f : A → Exec S B) where
  after_result :
      (r : Result A) (s : S)
      → ((e : Error) → r ≡ err e → P (err e, s))
      → ((a : A) → r ≡ ok a → P (f a s))
      → P (((λ _. (r, s)) >>= f) s)
  after_result (ok a) s p q = q a refl
  after_result (err e) s p q = p e refl

  -- What holds after both outcomes of a step holds after it and the rest.
  pub after_any :
      (m : Exec S A) (s : S)
      → ((e : Error) → (m s).0 ≡ err e → P (err e, (m s).1))
      → ((a : A) → (m s).0 ≡ ok a → P (f a (m s).1))
      → P ((m >>= f) s)
  after_any m s p q = after_result (m s).0 (m s).1 p q

  -- A step that succeeds is followed by the rest.
  pub after_ok :
      (m : Exec S A) (s : S)
      → is_ok (m s).0 ≡ true
      → ((a : A) → (m s).0 ≡ ok a → P (f a (m s).1))
      → P ((m >>= f) s)
  after_ok m s h q = after_any m s (λ e eq. absurd (ground (arith, h, eq))) q
