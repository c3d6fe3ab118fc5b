-- ===== src/Errors/Preserves.antt =====
-- Steps that leave what is seen of the state, on both outcomes.
use rs_soroban_env.Prelude.{◌≡◌, refl, ◌∙◌, Bool, true, false, if◌then◌else◌}
use rs_soroban_env.Errors.Defs.{Result, Error}
use rs_soroban_env.Errors.Exec.{Exec, ◌>>=◌, pure, throw, lift}
use rs_soroban_env.Errors.Kept.{bind_lem}

pub record Preserves {S V A : Type 0} (view : S → V) (m : Exec S A) : Type 0 where
  pub kept : (s : S) → view (m s).1 ≡ view s

module _ {S V : Type 0} {view : S → V} where
  pub pure-Preserves : {A : Type 0} (a : A) → Preserves view (pure a)
  pure-Preserves a = record { kept = λ s. refl }

  pub throw-Preserves : {A : Type 0} (e : Error) → Preserves view (throw {S = S} {A = A} e)
  throw-Preserves e = record { kept = λ s. refl }

  pub lift-Preserves : {A : Type 0} (f : S → Result A) → Preserves view (lift f)
  lift-Preserves f = record { kept = λ s. refl }

  pub bind-Preserves :
      {A B : Type 0} (m : Exec S A) (f : A → Exec S B)
      → Preserves view m
      → ((a : A) → Preserves view (f a))
      → Preserves view (m >>= f)
  bind-Preserves m f p q = record {
    kept = λ s.
        bind_lem (λ t. view t ≡ view s) m f s (p.kept s)
          (λ a. Preserves.kept (q a) (m s).1 ∙ p.kept s);
  }

  pub if-Preserves :
      {A : Type 0} (b : Bool) (m n : Exec S A)
      → Preserves view m
      → Preserves view n
      → Preserves view (if b then m else n)
  if-Preserves true m n p q = p
  if-Preserves false m n p q = q

-- A coarser view is left as well.
pub weaken :
    {S V W A : Type 0} (still : S → V) (seen : S → W)
    → ((s t : S) → still s ≡ still t → seen s ≡ seen t)
    → (m : Exec S A) → Preserves still m
    → Preserves seen m
weaken still seen coarser m p = record { kept = λ s. coarser (m s).1 s (p.kept s) }

pub ruleset steps = (pure-Preserves, throw-Preserves, lift-Preserves, bind-Preserves, if-Preserves)
