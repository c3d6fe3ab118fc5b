-- ===== src/Errors/Defs.antt =====
-- Error types and codes, results, and the option-to-result step `ok_or_else`.
use rs_soroban_env.Prelude.{ℕ, ◌≡◌, refl, ◌⊎◌, inl, inr, Option, none, some, Bool, true, false}

-- `ScErrorType` and `ScErrorCode`: the members that the modelled code names.
pub data ScErrorType : Type 0 where
  contract storage object context value events budget auth : ScErrorType

pub data ScErrorCode : Type 0 where
  index_bounds invalid_input missing_value existing_value exceeded_limit invalid_action :
      ScErrorCode
  internal_error arith_domain unexpected_size : ScErrorCode
  -- The number of an error of type `Contract`, which the contract defines.
  contract_code : ℕ → ScErrorCode

pub record Error : Type 0 where
  pub type_ : ScErrorType
  pub code : ScErrorCode

abbrev pub error : ScErrorType → ScErrorCode → Error
error t c = record { type_ = t; code = c }

-- `Result<T, HostError>`.
pub data Result {ℓ} (T : Type ℓ) : Type ℓ where
  err : Error → Result T
  ok : T → Result T

-- `Option::ok_or_else`.
abbrev pub ok_or {ℓ} : {T : Type ℓ} → Option T → Error → Result T
ok_or none failure = err failure
ok_or (some t) _ = ok t

abbrev pub is_ok {ℓ} : {T : Type ℓ} → Result T → Bool
is_ok (err _) = false
is_ok (ok _) = true

-- The `?` of Rust, for `do` blocks.
infixl 5 ◌>>=◌
abbrev pub ◌>>=◌ {ℓ κ} : {T : Type ℓ} {U : Type κ} → Result T → (T → Result U) → Result U
r >>= next = elim r [ err failure ↦ err failure | ok t ↦ next t ]

infixl 5 ◌>>◌
abbrev pub ◌>>◌ {ℓ} : {U : Type ℓ} → Result (Unit {0}) → Result U → Result U
check >> rest = elim check [ err failure ↦ err failure | ok _ ↦ rest ]

pub Result-cases {ℓ} :
    {T : Type ℓ} (r : Result T) → ((t : T) × (r ≡ ok t)) ⊎ ((failure : Error) × (r ≡ err failure))
Result-cases (err failure) = inr (failure, refl)
Result-cases (ok t) = inl (t, refl)
