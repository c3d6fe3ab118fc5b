-- ===== src/OrdMap/Search.antt =====
-- `binary_search_by_pre_rust_182` of soroban-env-host/src/host/metered_vector.rs.
use rs_soroban_env.Prelude.{
  ℕ, zero, suc, ◌+◌, ◌-◌, ◌/◌, ◌≤◌, ◌<◌, ◌≡◌, refl, sym, ◌≢◌, ap, ◌∙◌, Option, none, some, Bool,
  true, false, List, [], ◌∷◌, get_elem?, length, arith, ltb, if◌then◌else◌, Ordering, Option-cases,
  inl, inr, Bool-cases,
}
use Prim.Native.Nat.Ordering.{lt, eq, gt}

-- `Result<usize, usize>`: where the element is, or where it would go.
pub data Search : Type 0 where
  found insert_at : ℕ → Search

-- `Result::is_ok`.
abbrev pub is_found : Search → Bool
is_found (found i) = true
is_found (insert_at i) = false

module _ {T St : Type 0} (f : T → St → Ordering × St) where
  -- The `while` loop; `f` may change a state. `none` is a panic of `unwrap`, or the end of the fuel.
  unfoldable pub search_loop : ℕ → List T → ℕ → ℕ → ℕ → St → Option (Search × St)
  search_loop zero slice size left right s = none
  search_loop (suc fuel) slice size left right s =
      let mid = left + size / 2 in
      let more : Option (Search × St) = elim (get_elem? slice mid) [
        | none ↦ none
        | some x ↦
            let (cmp, s') = f x s in
            elim cmp [
              | lt ↦ search_loop fuel slice (right - (mid + 1)) (mid + 1) right s'
              | gt ↦ search_loop fuel slice (mid - left) left mid s'
              | eq ↦ some (found mid, s')
            ]
      ] in
      if ltb left right then more else some (insert_at left, s)

  -- One round more than there are elements is always enough.
  unfoldable pub binary_search : List T → St → Option (Search × St)
  unfolding search_loop
  binary_search slice s = search_loop (suc (length slice)) slice (length slice) 0 (length slice) s

pub get_in_range {ℓ} :
    {T : Type ℓ} (xs : List T) (i : ℕ) → i < length xs → (x : T) × (get_elem? xs i ≡ some x)
get_in_range [] i h = absurd (omega arith)
get_in_range (x ∷ xs) zero h = (x, refl)
get_in_range (x ∷ xs) (suc i) h = get_in_range xs i (omega arith)

module _ {T St : Type 0} (f : T → St → Ordering × St) where
  -- One round of the loop.
  pub search_loop-round :
      (fuel : ℕ) (xs : List T) (left right : ℕ) (x : T) (ordering : Ordering) (s s' : St)
      → left < right
      → get_elem? xs (left + (right - left) / 2) ≡ some x
      → f x s ≡ (ordering, s')
      → let mid = left + (right - left) / 2 in
        search_loop f (suc fuel) xs (right - left) left right s ≡ elim ordering [
          | lt ↦ search_loop f fuel xs (right - (mid + 1)) (mid + 1) right s'
          | gt ↦ search_loop f fuel xs (mid - left) left mid s'
          | eq ↦ some (found mid, s')
        ]
  unfolding search_loop
  search_loop-round fuel xs left right x ordering s s' h ex ef = ground (arith, ex, ef)

  search_loop-ne-none :
      (fuel : ℕ) (xs : List T) (left right : ℕ) (s : St)
      → right ≤ length xs
      → right - left < fuel
      → search_loop f fuel xs (right - left) left right s ≢ none
  unfolding search_loop
  search_loop-ne-none zero xs left right s h k = absurd (omega arith)
  search_loop-ne-none (suc fuel) xs left right s h k = elim (Bool-cases (ltb left right)) [
    | inr done ↦ ground arith
    | inl more ↦
        let mid = left + (right - left) / 2 in
        let (x, e) = get_in_range xs mid (ground arith) in
        ground (
          arith,
          e,
          search_loop-ne-none fuel xs (mid + 1) right (f x s).1,
          search_loop-ne-none fuel xs left mid (f x s).1,
        )
  ]

  pub binary_search_bounds :
      (xs : List T) (s : St)
      → binary_search f xs s ≡ search_loop f (suc (length xs)) xs (length xs - 0) 0 (length xs) s
  unfolding binary_search
  binary_search_bounds xs s =
      ap (λ n. search_loop f (suc (length xs)) xs n 0 (length xs) s) (omega arith)

  -- The binary search ends with an answer on every slice, whatever the comparison says: it reads no
  -- index out of bounds, and a round for each element and one more are enough.
  pub binary_search_total :
      (xs : List T) (s : St) → (out : Search × St) × (binary_search f xs s ≡ some out)
  binary_search_total xs s = elim (Option-cases (binary_search f xs s)) [
    | inl e ↦ absurd (
        search_loop-ne-none (suc (length xs)) xs 0 (length xs) s (omega arith) (omega arith)
          (sym (binary_search_bounds xs s) ∙ e))
    | inr answer ↦ answer
  ]
