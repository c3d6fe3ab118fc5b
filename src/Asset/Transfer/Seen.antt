-- ===== src/Asset/Transfer/Seen.antt =====
-- What the checks of a transfer between contracts see of their balances: they change none.
use rs_soroban_env.Prelude.{
  ℕ, ◌≡◌, ◌∙◌, subst, Bool, true, false, not, if◌then◌else◌, Option, none, some, arith,
}
use rs_soroban_env.Errors.{Error, Result, ok, err}
use rs_soroban_env.Errors.Exec.{Exec, ◌>>=◌, pure, throw}
use rs_soroban_env.Errors.Kept.{after_any, bind_lem}
use rs_soroban_env.Asset.Allowance.Spend.{Lawful}
use rs_soroban_env.Asset.Balance.{
  BalanceValue, Holder, contract_id, BalanceHost, IssuerFlags, AssetInfo, native_info, issued_by,
  is_flag_set, is_asset_auth_required, authorized_by_data, authorized_of, is_authorized,
  check_authorized, deauthorized_error,
}

-- A step that leaves what is seen of the state.
abbrev pub Keeps : {S A V : Type 0} → (S → V) → Exec S A → Type 0
Keeps {S} view m = (s : S) → view (m s).1 ≡ view s

pub then-Keeps :
    {S A B V : Type 0} (view : S → V) (m : Exec S A) (f : A → Exec S B)
    → Keeps view m
    → ((a : A) → Keeps view (f a))
    → Keeps view (m >>= f)
then-Keeps view m f k q s = bind_lem (λ t. view t ≡ view s) m f s (k s) (λ a. q a (m s).1 ∙ k s)

-- The steps of the host that touch no balance, and the two holders are contracts.
pub record Quiet {S Address : Type 0} (host : BalanceHost S Address)
    (view : S → Address → Option BalanceValue) : Type 0 where
  pub reading_asset : Keeps view host.read_asset_info
  pub loading_flags : (issuer : ℕ) → Keeps view (host.load_issuer_flags issuer)
  pub resolving : (a : Address) → Keeps view (host.to_sc_address a)

module _ {S Address : Type 0} (host : BalanceHost S Address)
    (view : S → Address → Option BalanceValue) (is_same : Address → Address → Bool)
    (lawful : Lawful host.balances view is_same) (quiet : Quiet host view) where
  -- What is seen after both outcomes, and after a success.
  abbrev pub Sees : {A : Type 0} → (Address → Option BalanceValue) → Result A × S → Type 0
  Sees held (r, s) = view s ≡ held

  abbrev pub Leaves : (Address → Option BalanceValue) → Result (Unit {0}) × S → Type 0
  Leaves held (err _, s) = Unit
  Leaves held (ok _, s) = view s ≡ held

  pub Sees-Leaves :
      (held : Address → Option BalanceValue) (out : Result (Unit {0}) × S)
      → Sees held out
      → Leaves held out
  Sees-Leaves held (err e, s) h = tt
  Sees-Leaves held (ok u, s) h = h

  pub then-Sees :
      {A B : Type 0} (held : Address → Option BalanceValue) (m : Exec S A) (f : A → Exec S B)
      (s : S)
      → Keeps view m
      → view s ≡ held
      → ((a : A) (s' : S) → view s' ≡ held → Sees held (f a s'))
      → Sees held ((m >>= f) s)
  then-Sees held m f s k e g =
      after_any (Sees held) f m s (λ x h. k s ∙ e) (λ a h. g a (m s).1 (k s ∙ e))

  pub finding-Keeps : (a : Address) → Keeps view (host.balances.try_get_contract_data a)
  finding-Keeps a s = (lawful.finding a s).0

  is_flag_set-Sees :
      (held : Address → Option BalanceValue) (flag : IssuerFlags → Bool) (info : AssetInfo) (s : S)
      → view s ≡ held
      → Sees held (is_flag_set host flag info s)
  unfolding is_flag_set
  is_flag_set-Sees held flag native_info s e = e
  is_flag_set-Sees held flag (issued_by issuer) s e =
      then-Sees held (host.load_issuer_flags issuer) (λ flags. pure (flag flags)) s
        (quiet.loading_flags issuer) e (λ a s' e'. e')

  pub asset_flag-Sees :
      (held : Address → Option BalanceValue) (flag : IssuerFlags → Bool) (s : S)
      → view s ≡ held
      → Sees held ((host.read_asset_info >>= is_flag_set host flag) s)
  asset_flag-Sees held flag s e =
      then-Sees held host.read_asset_info (is_flag_set host flag) s quiet.reading_asset e
        (λ info s' e'. is_flag_set-Sees held flag info s' e')

  pub contract_lem :
      {A : Type 0} (P : Result A × S → Type 0) (f : Holder → Exec S A) (a : Address) (s : S)
      → (host.to_sc_address a s).0 ≡ ok contract_id
      → ((e : Error) → P (err e, (host.to_sc_address a s).1))
      → P (f contract_id (host.to_sc_address a s).1)
      → P ((host.to_sc_address a >>= f) s)
  contract_lem P f a s c p q =
      after_any P f (host.to_sc_address a) s (λ e h. p e)
        (λ holder h. subst (λ x. P (f x (host.to_sc_address a s).1)) (ground (arith, h, c)) q)

  authorized_by_data-Sees :
      (held : Address → Option BalanceValue) (found : Option BalanceValue) (s : S)
      → view s ≡ held
      → Sees held (authorized_by_data host found s)
  unfolding authorized_by_data is_asset_auth_required
  authorized_by_data-Sees held (some balance) s e = e
  authorized_by_data-Sees held none s e =
      after_any (Sees held) (λ required. pure (not required))
        (host.read_asset_info >>= is_flag_set host (λ flags. flags.required)) s
        (λ x h. asset_flag-Sees held (λ flags. flags.required) s e)
        (λ required h. asset_flag-Sees held (λ flags. flags.required) s e)

  if-Sees :
      (held : Address → Option BalanceValue) (b : Bool) (x : Error) (s : S)
      → view s ≡ held
      → Sees held ((if b then pure tt else throw x) s)
  if-Sees held true x s e = e
  if-Sees held false x s e = e

  module _ (a : Address) (is_contract : (s : S) → (host.to_sc_address a s).0 ≡ ok contract_id)
      (held : Address → Option BalanceValue) where
    is_authorized-Sees : (s : S) → view s ≡ held → Sees held (is_authorized host a s)
    unfolding is_authorized authorized_of
    is_authorized-Sees s e =
        let e₁ = quiet.resolving a s ∙ e in
        contract_lem (Sees held) (authorized_of host a) a s (is_contract s) (λ x. e₁)
          (then-Sees held (host.balances.try_get_contract_data a) (authorized_by_data host) _
            (finding-Keeps a) e₁ (λ found s' e'. authorized_by_data-Sees held found s' e'))

    pub check_authorized-Sees : (s : S) → view s ≡ held → Sees held (check_authorized host a s)
    unfolding check_authorized
    check_authorized-Sees s e =
        let check =
          λ (authorized : Bool). if authorized then pure tt else throw deauthorized_error in
        then-Sees held host.balances.charge_clone (λ u. is_authorized host a >>= check) s
          lawful.cloning e
          (λ u s' e'.
            let seen = is_authorized-Sees s' e' in
            after_any (Sees held) check (is_authorized host a) s' (λ x h. seen)
              (λ b h. if-Sees held b deauthorized_error _ seen))
