-- ===== src/Errors/Computes.antt =====
-- Metered computations: what they compute if the metering lets them. A computation `m` computes a
-- result if in every state it gives that result or fails, and in the states that `Free` names, where
-- nothing is charged beyond the budget, it gives that result and stays in such a state.
use rs_soroban_env.Prelude.{◌≡◌, refl, ◌⊎◌, inl, inr, false}
use rs_soroban_env.Errors.Defs.{Result, ok, err, is_ok, Error, Result-cases}
use rs_soroban_env.Errors.Exec.{Exec, ◌>>=◌, ◌>>◌, pure, throw}

module _ {S : Type 0} (Free : S → Type 0) where
  pub record Computes {A : Type 0} (m : Exec S A) (r : Result A) : Type 0 where
    pub outcome : (s : S) → ((m s).0 ≡ r) ⊎ (is_ok (m s).0 ≡ false)
    pub free : (s : S) → Free s → ((m s).0 ≡ r) × Free (m s).1

  pub pure-Computes : {A : Type 0} (a : A) → Computes (pure a) (ok a)
  pure-Computes a = record { outcome = λ s. inl refl; free = λ s h. (refl, h) }

  pub throw-Computes : {A : Type 0} (e : Error) → Computes {A = A} (throw e) (err e)
  throw-Computes e = record { outcome = λ s. inl refl; free = λ s h. (refl, h) }

  pub bind-Computes :
      {A B : Type 0} (m : Exec S A) (f : A → Exec S B) (a : A) (r : Result B)
      → Computes m (ok a)
      → Computes (f a) r
      → Computes (m >>= f) r
  bind-Computes m f a r hm hf = record {
    outcome = λ s. elim (hm.outcome s) [
      | inl e ↦ rw (e, ◌>>=◌) (hf.outcome (m s).1)
      | inr fails ↦ elim (Result-cases (m s).0) [
        | inl (x, e) ↦ absurd (cc)
        | inr (x, e) ↦ rw (e, ◌>>=◌) (inr refl)
      ]
    ];
    free = λ s h. let (e, h') = hm.free s h in rw (e, ◌>>=◌) (hf.free (m s).1 h');
  }

  pub seq-Computes :
      {B : Type 0} (m : Exec S (Unit {0})) (k : Exec S B) (r : Result B)
      → Computes m (ok tt)
      → Computes k r
      → Computes (m >> k) r
  seq-Computes m k r hm hk = bind-Computes m (λ _. k) tt r hm hk

  pub seq_fails-Computes :
      {B : Type 0} (m : Exec S (Unit {0})) (k : Exec S B) (e : Error)
      → Computes m (err e)
      → Computes (m >> k) (err e)
  seq_fails-Computes m k e hm = record {
    outcome = λ s. elim (hm.outcome s) [
      | inl failed ↦ rw (failed, ◌>>=◌) (inl refl)
      | inr fails ↦ elim (Result-cases (m s).0) [
        | inl (x, passed) ↦ absurd (cc)
        | inr (x, failed) ↦ rw (failed, ◌>>=◌) (inr refl)
      ]
    ];
    free = λ s h. let (failed, h') = hm.free s h in rw (failed, ◌>>=◌) (refl, h');
  }
