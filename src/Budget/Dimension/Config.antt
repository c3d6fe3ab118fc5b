-- ===== src/Budget/Dimension/Config.antt =====
-- `try_from_config`.
use rs_soroban_env.Prelude.{
  ℕ, suc, zero, ◌-◌, ◌≤◌, ◌<◌, ◌≡◌, refl, ap, ◌∙◌, some, none, Bool, true, false, ◌||◌, List, [],
  ◌∷◌, leb, if◌then◌else◌, Bool-cases, get_elem?, set, map, replicate, length, ◌++◌, arith, inl,
  inr,
}
use mathlib.Core.List.{append_assoc, append-nil}
use rs_soroban_env.Prelude.Int.{pos, ltb_ℤ, pos_part}
use rs_soroban_env.Errors.{is_ok, ok, err}
use rs_soroban_env.Budget.Model.{MeteredCostComponent, ContractCostParamEntry, try_from}
use rs_soroban_env.Budget.Dimension.{fill, try_from_config, zero_component, internal_error}

-- An entry that `try_from` accepts, and the model that it gives.
abbrev pub entry : ℕ → ℕ → ContractCostParamEntry
entry c l = record { const_term = pos c; linear_term = pos l }

abbrev pub entries : List MeteredCostComponent → List ContractCostParamEntry
entries = map (λ m. entry m.const_term m.lin_term)

get_elem?-append_at {ℓ} :
    {A : Type ℓ} (pre : List A) (x : A) (post : List A)
    → get_elem? (pre ++ (x ∷ post)) (length pre) ≡ some x
get_elem?-append_at [] x post = refl
get_elem?-append_at (p ∷ pre) x post = get_elem?-append_at pre x post

set-append_at {ℓ} :
    {A : Type ℓ} (pre : List A) (x y : A) (post : List A)
    → set (pre ++ (x ∷ post)) (length pre) y ≡ (pre ++ (y ∷ [])) ++ post
set-append_at [] x y post = refl
set-append_at (p ∷ pre) x y post = ap (λ l. p ∷ l) (set-append_at pre x y post)

get_elem?-length {ℓ} : {A : Type ℓ} (xs : List A) → get_elem? xs (length xs) ≡ none
get_elem?-length [] = refl
get_elem?-length (x ∷ xs) = get_elem?-length xs

length-snoc {ℓ} : {A : Type ℓ} (xs : List A) (y : A) → length (xs ++ (y ∷ [])) ≡ suc (length xs)
length-snoc [] y = refl
length-snoc (x ∷ xs) y = ap suc (length-snoc xs y)

try_from-entry : (m : MeteredCostComponent) → try_from (entry m.const_term m.lin_term) ≡ ok m
unfolding try_from
try_from-entry m = ground arith

fill_lem :
    (pre ms : List MeteredCostComponent) (k : ℕ) (z : MeteredCostComponent)
    → length ms ≤ k
    → fill (length pre) (entries ms) (pre ++ replicate k z)
      ≡ ok ((pre ++ ms) ++ replicate (k - length ms) z)
unfolding fill
fill_lem pre [] k z h = let e : k - 0 ≡ k = omega arith in rw (e, append-nil)
fill_lem pre (m ∷ ms) zero z h = absurd (omega arith)
fill_lem pre (m ∷ ms) (suc k) z h =
    rw
      (
        try_from-entry,
        get_elem?-append_at pre z (replicate k z),
        set-append_at pre z m (replicate k z),
        ← length-snoc pre m,
      )
      (fill_lem (pre ++ (m ∷ [])) ms k z (omega arith) ∙ ap ok same)
  where
    same :
        ((pre ++ (m ∷ [])) ++ ms) ++ replicate (k - length ms) z
        ≡ (pre ++ (m ∷ ms)) ++ replicate (suc k - suc (length ms)) z
    same = let e : suc k - suc (length ms) ≡ k - length ms = omega arith in simp (e, append_assoc)

fill_too_many :
    (pre ms : List MeteredCostComponent) (k : ℕ) (z : MeteredCostComponent)
    → k < length ms
    → fill (length pre) (entries ms) (pre ++ replicate k z) ≡ err internal_error
unfolding fill
fill_too_many pre [] k z h = absurd (omega arith)
fill_too_many pre (m ∷ ms) zero z h = rw (append-nil, get_elem?-length pre)
fill_too_many pre (m ∷ ms) (suc k) z h =
    rw
      (
        try_from-entry,
        get_elem?-append_at pre z (replicate k z),
        set-append_at pre z m (replicate k z),
        ← length-snoc pre m,
      )
      (fill_too_many (pre ++ (m ∷ [])) ms k z (omega arith))

-- A configuration of non-negative terms for at most the known cost types gives a dimension with
-- these models in order, the cost types that it does not name free of charge, both limits set and
-- nothing counted; one for more cost types is an internal error of the budget.
pub try_from_config_lem :
    (variants limit : ℕ) (ms : List MeteredCostComponent)
    → try_from_config variants (entries ms) limit ≡ (
        if leb (length ms) variants
        then ok (record {
          cost_models = ms ++ replicate (variants - length ms) zero_component;
          limit = limit;
          total_count = 0;
          shadow_limit = limit;
          shadow_total_count = 0;
        })
        else err internal_error)
unfolding try_from_config
try_from_config_lem variants limit ms = elim (Bool-cases (leb (length ms) variants)) [
  | inl h ↦ rw (h, fill_lem [] ms variants zero_component (ground arith))
  | inr h ↦ rw (h, fill_too_many [] ms variants zero_component (ground arith))
]

unfoldable pub has_negative : List ContractCostParamEntry → Bool
has_negative [] = false
has_negative (e ∷ es) =
    (ltb_ℤ e.const_term (pos 0) || ltb_ℤ e.linear_term (pos 0)) || has_negative es

fill_negative :
    (es : List ContractCostParamEntry) (i : ℕ) (models : List MeteredCostComponent)
    → has_negative es ≡ true
    → is_ok (fill i es models) ≡ false
unfolding fill has_negative try_from
fill_negative [] i models h = cc
fill_negative (e ∷ es) i models h = ground (
  arith,
  fill_negative es (suc i) (
      set models i
        (record { const_term = pos_part e.const_term; lin_term = pos_part e.linear_term })),
)

-- A configuration with a negative term anywhere is refused.
pub try_from_config_negative :
    (variants limit : ℕ) (es : List ContractCostParamEntry)
    → has_negative es ≡ true
    → is_ok (try_from_config variants es limit) ≡ false
unfolding try_from_config
try_from_config_negative variants limit es h =
    ground (arith, fill_negative es 0 (replicate variants zero_component) h)
