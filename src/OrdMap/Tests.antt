-- ===== src/OrdMap/Tests.antt =====
-- Maps from numbers to numbers under a budget that may be unlimited, and the theorems at small maps.
use rs_soroban_env.Prelude.{
  ℕ, ◌+◌, ◌-◌, ◌≤◌, ◌≡◌, refl, compare, Bool-cases, Option, none, some, true, false, List, [], ◌∷◌,
  length, arith, ltb, if◌then◌else◌, Ordering, inl, inr, ◌⊎◌,
}
use Prim.Native.Nat.Ordering.{lt}
use rs_soroban_env.Errors.{ok, err, is_ok, error, ScErrorType, ScErrorCode}
use rs_soroban_env.Errors.Exec.{Exec, pure}
use rs_soroban_env.Errors.Computes.{Computes, pure-Computes}
use rs_soroban_env.OrdMap.Search.{Search, binary_search, binary_search_total}
use rs_soroban_env.OrdMap.Order.{IsSorted, locate}
use rs_soroban_env.OrdMap.Order.Numbers.{by_number}
use rs_soroban_env.OrdMap.Finite.{put, erase, removed}
use rs_soroban_env.OrdMap.Ops.{Context, find, insert, get, remove, contains_key, from_map}
use rs_soroban_env.OrdMap.Ops.Find.{Lawful, find-Computes}
use rs_soroban_env.OrdMap.Ops.Input.{invalid_input, from_map_lem}
use rs_soroban_env.OrdMap.Ops.Refinement.{insert_lem, remove_lem, get_lem}

-- The budget: `none` is unlimited.
abbrev spend : ℕ → Exec (Option ℕ) (Unit {0})
spend n none = (ok tt, none)
spend n (some left) =
    if ltb left n
    then (err (error ScErrorType.budget ScErrorCode.exceeded_limit), some left)
    else (ok tt, some (left - n))

abbrev numbers : Context (Option ℕ) ℕ ℕ
numbers = record {
  entry_size = 16;
  charge_mem_cpy = spend;
  charge_deep_clone = λ m. spend (length m);
  metered_clone = pure;
  compare = λ a b. pure (compare a b);
}

abbrev Unlimited : Option ℕ → Type 0
Unlimited s = s ≡ none

spend-outcome : (n : ℕ) (s : Option ℕ) → ((spend n s).0 ≡ ok tt) ⊎ (is_ok (spend n s).0 ≡ false)
spend-outcome n none = inl refl
spend-outcome n (some left) = elim (Bool-cases (ltb left n)) [
  | inl short ↦ rw (short, spend) (inr refl)
  | inr enough ↦ rw (enough, spend) (inl refl)
]

spend-Computes : (n : ℕ) → Computes Unlimited (spend n) (ok tt)
spend-Computes n = record { outcome = spend-outcome n; free = λ s h. rw (h) (refl, refl) }

numbers-Lawful : Lawful numbers by_number Unlimited
numbers-Lawful = record {
  charging = spend-Computes;
  cloning = λ m. spend-Computes (length m);
  copying = λ v. pure-Computes Unlimited v;
  comparing = λ a b. pure-Computes Unlimited (compare a b);
}

abbrev three : List (ℕ × ℕ)
three = (2, 20) ∷ (4, 40) ∷ (6, 60) ∷ []

three-IsSorted : IsSorted by_number three
three-IsSorted = ((refl, (refl, tt)), ((refl, tt), (tt, tt)))

insert_unlimited :
    insert numbers three 5 50 none ≡ (ok ((2, 20) ∷ (4, 40) ∷ (5, 50) ∷ (6, 60) ∷ []), none)
unfolding insert
insert_unlimited = refl

-- A budget of 100 pays for a lookup and not for an insertion.
get_limited : (get numbers three 4 (some 100)).0 ≡ ok (some 40)
unfolding get
get_limited = refl

insert_limited :
    (insert numbers three 5 50 (some 100)).0
    ≡ err (error ScErrorType.budget ScErrorCode.exceeded_limit)
unfolding insert
insert_limited = refl

remove_first : (remove numbers three 2 none).0 ≡ ok (some ((4, 40) ∷ (6, 60) ∷ [], 20))
unfolding remove
remove_first = refl

insert_lem_example :
    Computes Unlimited (insert numbers three 5 50) (ok (put by_number three 5 50))
    × IsSorted by_number (put by_number three 5 50)
    × (length (put by_number three 5 50) ≤ length three + 1)
    × Computes Unlimited (get numbers (put by_number three 5 50) 6) (ok (some 60))
insert_lem_example =
    insert_lem numbers by_number Unlimited numbers-Lawful three 5 50 6 three-IsSorted (omega arith)

remove_lem_example :
    Computes Unlimited (remove numbers three 4) (ok (removed by_number three 4))
    × IsSorted by_number (erase by_number three 4)
    × (length (erase by_number three 4) ≤ length three)
    × Computes Unlimited (get numbers (erase by_number three 4) 4) (ok none)
remove_lem_example =
    remove_lem numbers by_number Unlimited numbers-Lawful three 4 4 three-IsSorted (omega arith)

get_lem_example :
    Computes Unlimited (get numbers three 6) (ok (some 60))
    × Computes Unlimited (contains_key numbers three 6) (ok true)
get_lem_example = get_lem numbers by_number Unlimited numbers-Lawful three 6 three-IsSorted

find-Computes_example : Computes Unlimited (find numbers three 5) (ok (locate by_number three 5))
find-Computes_example =
    find-Computes numbers by_number Unlimited numbers-Lawful three 5 three-IsSorted

abbrev twice : List (ℕ × ℕ)
twice = (2, 20) ∷ (2, 21) ∷ []

from_map_lem_example :
    (IsSorted by_number twice × Computes Unlimited (from_map numbers twice) (ok twice))
    ⊎ ((IsSorted by_number twice → ⊥)
        × Computes Unlimited (from_map numbers twice) (err invalid_input))
from_map_lem_example = from_map_lem numbers by_number Unlimited numbers-Lawful twice (omega arith)

-- A comparison that finds every element too small, and counts its calls.
abbrev always : Ordering → ℕ → ℕ → Ordering × ℕ
always ordering probed calls = (ordering, calls + 1)

binary_search_total_example :
    (out : Search × ℕ) × (binary_search (always lt) (1 ∷ 2 ∷ 3 ∷ []) 0 ≡ some out)
binary_search_total_example = binary_search_total (always lt) (1 ∷ 2 ∷ 3 ∷ []) 0
