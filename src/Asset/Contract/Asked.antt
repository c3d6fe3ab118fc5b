-- ===== src/Asset/Contract/Asked.antt =====
-- An authorization that is asked for after checks and before everything else.
use rs_soroban_env.Prelude.{◌≡◌, ap, ◌∙◌, subst, sym, ◌∷◌}
use rs_soroban_env.Errors.{Result, ok, err}
use rs_soroban_env.Errors.Exec.{Exec, ◌>>=◌}
use rs_soroban_env.Errors.Kept.{after_any}
use rs_soroban_env.Errors.Preserves.{Preserves}
use rs_soroban_env.Storage.Ledger.{LedgerInfo}
use rs_soroban_env.Asset.Contract.{ContractHost, read_administrator, as_admin}
use rs_soroban_env.Asset.Contract.Journal.{Journal, JournalLaws, still, seen}

module _ {S Address : Type 0} (j : Journal S Address) where
  -- A success that asked for one authorization, the one of this address, and had written nothing before;
  -- the administrator on record afterwards is the given one.
  abbrev pub Asks : Address → Address → S → Result (Unit {0}) × S → Type 0
  Asks a new_admin s (err _, t) = Unit
  Asks a new_admin s (ok _, t) = (j.asked t ≡ (a, j.writes s) ∷ j.asked s) × (j.admin t ≡ new_admin)

  seen-Asks :
      (a new_admin : Address) (s : S) (out : Result (Unit {0}) × S)
      → seen j out.1 ≡ ((a, j.writes s) ∷ j.asked s, new_admin)
      → Asks a new_admin s out
  seen-Asks a new_admin s (err e, t) h = tt
  seen-Asks a new_admin s (ok u, t) h = (ap (λ v. v.0) h, ap (λ v. v.1) h)

  pub rest-Asks :
      (a new_admin : Address) (s t : S) (rest : Exec S (Unit {0}))
      → Preserves (seen j) rest
      → seen j t ≡ ((a, j.writes s) ∷ j.asked s, new_admin)
      → Asks a new_admin s (rest t)
  rest-Asks a new_admin s t rest p h = seen-Asks a new_admin s (rest t) (p.kept t ∙ h)

  -- A check before the authorization.
  pub check-Asks :
      {A : Type 0} (a new_admin : Address) (s t : S) (m : Exec S A) (f : A → Exec S (Unit {0}))
      → Preserves (still j) m
      → still j t ≡ still j s
      → ((x : A) (t' : S) → still j t' ≡ still j s → Asks a new_admin s (f x t'))
      → Asks a new_admin s ((m >>= f) t)
  check-Asks a new_admin s t m f p h q =
      after_any (Asks a new_admin s) f m t (λ e r. tt) (λ x r. q x (m t).1 (p.kept t ∙ h))

  -- A step after it.
  pub step-Asks :
      {A : Type 0} (a old_admin new_admin : Address) (s t : S) (m : Exec S A)
      (f : A → Exec S (Unit {0}))
      → Preserves (seen j) m
      → seen j t ≡ ((a, j.writes s) ∷ j.asked s, old_admin)
      → ((x : A) (t' : S)
          → seen j t' ≡ ((a, j.writes s) ∷ j.asked s, old_admin)
          → Asks a new_admin s (f x t'))
      → Asks a new_admin s ((m >>= f) t)
  step-Asks a old_admin new_admin s t m f p h q =
      after_any (Asks a new_admin s) f m t (λ e r. tt) (λ x r. q x (m t).1 (p.kept t ∙ h))

  module _ (li : LedgerInfo) (host : ContractHost S Address) (laws : JournalLaws host j) where
    asked_lem :
        (a new_admin : Address) (s t : S) (f : Unit {0} → Exec S (Unit {0}))
        → still j t ≡ still j s
        → ((u : Unit {0}) (t' : S)
            → seen j t' ≡ ((a, j.writes s) ∷ j.asked s, j.admin s)
            → Asks a new_admin s (f u t'))
        → Asks a new_admin s ((host.require_auth a >>= f) t)
    asked_lem a new_admin s t f h q =
        after_any (Asks a new_admin s) f (host.require_auth a) t (λ e r. tt)
          (λ u r.
            q u (host.require_auth a t).1 (laws.asking a t r ∙ ap (λ v. ((a, v.0) ∷ v.1, v.2)) h))

    -- The authorization of an address, and then steps that leave what is seen.
    pub require_auth-Asks :
        (a : Address) (s t : S) (f : Unit {0} → Exec S (Unit {0}))
        → still j t ≡ still j s
        → ((u : Unit {0}) → Preserves (seen j) (f u))
        → Asks a (j.admin s) s ((host.require_auth a >>= f) t)
    require_auth-Asks a s t f h p =
        asked_lem a (j.admin s) s t f h (λ u t' k. rest-Asks a (j.admin s) s t' (f u) (p u) k)

    -- The authorization of the administrator on record.
    pub as_admin-Asks :
        (new_admin : Address) (s t : S) (rest : Address → Exec S (Unit {0}))
        → still j t ≡ still j s
        → ((admin : Address) (t' : S)
            → seen j t' ≡ ((j.admin s, j.writes s) ∷ j.asked s, j.admin s)
            → Asks (j.admin s) new_admin s (rest admin t'))
        → Asks (j.admin s) new_admin s (as_admin li host rest t)
    unfolding as_admin read_administrator
    as_admin-Asks new_admin s t rest h q =
        let asking = λ (admin : Address).
          host.require_auth admin >>= λ _. host.extend_instance >>= λ _. rest admin in
        after_any (Asks (j.admin s) new_admin s) asking host.get_admin t (λ e r. tt)
          (λ admin r.
            let t₁ = (host.get_admin t).1 in
            let owner = j.admin s in
            subst (λ x. Asks owner new_admin s (asking x t₁))
              (sym (laws.admin_read admin t r ∙ ap (λ v. v.2) h))
              (asked_lem owner new_admin s t₁ (λ _. host.extend_instance >>= λ _. rest owner)
                (Preserves.kept laws.reading_admin t ∙ h)
                (λ u t₂ k.
                  step-Asks owner owner new_admin s t₂ host.extend_instance (λ _. rest owner)
                    laws.extending k (λ v t₃ k'. q owner t₃ k'))))
