-- ===== src/OrdMap/Changes.antt =====
-- What an insertion and a removal do to a sorted vector and to the finite map it stands for.
use rs_soroban_env.Prelude.{
  suc, ◌≤◌, ◌≡◌, refl, ◌∙◌, sym, none, some, List, [], ◌∷◌, length, arith, inl, inr, if◌then◌else◌,
  subst,
}
use Prim.Native.Nat.Ordering.{lt}
use rs_soroban_env.OrdMap.Order.{Order, Ordering-cases, Above, Above-trans, IsSorted}
use rs_soroban_env.OrdMap.Finite.{is_eq, lookup, put, erase, Above-none}

module _ {K V : Type 0} (o : Order K) where
  Above-put :
      (j : K) (xs : List (K × V)) (key : K) (value : V)
      → o.cmp j key ≡ lt
      → Above o j xs
      → Above o j (put o xs key value)
  Above-put j [] key value h a = (h, tt)
  Above-put j ((k, v) ∷ xs) key value h (a, rest) = elim (Ordering-cases (o.cmp k key)) [
    | inl is_lt ↦ rw (is_lt, put) (a, Above-put j xs key value h rest)
    | inr (inl same) ↦ rw (same, put) (h, rest)
    | inr (inr is_gt) ↦ rw (is_gt, put) (h, (a, rest))
  ]

  pub put-IsSorted :
      (xs : List (K × V)) (key : K) (value : V) → IsSorted o xs → IsSorted o (put o xs key value)
  put-IsSorted [] key value sorted = (tt, tt)
  put-IsSorted ((k, v) ∷ xs) key value (above, sorted) = elim (Ordering-cases (o.cmp k key)) [
    | inl is_lt ↦
        rw (is_lt, put) (Above-put k xs key value is_lt above, put-IsSorted xs key value sorted)
    | inr (inl same) ↦ rw (same, put) (rw (sym (o.eq_of_cmp k key same)) above, sorted)
    | inr (inr is_gt) ↦
        let below = o.lt_of_gt k key is_gt in
        rw (is_gt, put) ((below, Above-trans o key k xs below above), (above, sorted))
  ]

  pub length-put :
      (xs : List (K × V)) (key : K) (value : V) → length (put o xs key value) ≤ suc (length xs)
  length-put [] key value = omega arith
  length-put ((k, v) ∷ xs) key value = elim (Ordering-cases (o.cmp k key)) [
    | inl is_lt ↦ rw (is_lt, put) (omega (arith, length-put xs key value))
    | inr (inl same) ↦ rw (same, put) (omega arith)
    | inr (inr is_gt) ↦ rw (is_gt, put) (omega arith)
  ]

  pub lookup-put :
      (xs : List (K × V)) (key : K) (value : V) (j : K)
      → lookup o (put o xs key value) j
        ≡ (if is_eq (o.cmp key j) then some value else lookup o xs j)
  lookup-put [] key value j = elim (Ordering-cases (o.cmp key j)) [
    | inl is_lt ↦ rw (is_lt, lookup) refl
    | inr (inl same) ↦ rw (same, lookup) refl
    | inr (inr is_gt) ↦ rw (is_gt, lookup) refl
  ]
  lookup-put ((k, v) ∷ xs) key value j = elim (Ordering-cases (o.cmp k key)) [
    | inl is_lt ↦
        ground (arith, is_lt, lookup-put xs key value j, o.eq_of_cmp k j, o.gt_of_lt k key is_lt)
    | inr (inl same) ↦ ground (arith, same, o.eq_of_cmp k key same)
    | inr (inr is_gt) ↦ ground (arith, is_gt)
  ]

  Above-erase : (j : K) (xs : List (K × V)) (key : K) → Above o j xs → Above o j (erase o xs key)
  Above-erase j [] key a = tt
  Above-erase j ((k, v) ∷ xs) key (a, rest) = elim (Ordering-cases (o.cmp k key)) [
    | inl is_lt ↦ rw (is_lt, erase) (a, Above-erase j xs key rest)
    | inr (inl same) ↦ rw (same, erase) rest
    | inr (inr is_gt) ↦ rw (is_gt, erase) (a, Above-erase j xs key rest)
  ]

  pub erase-IsSorted : (xs : List (K × V)) (key : K) → IsSorted o xs → IsSorted o (erase o xs key)
  erase-IsSorted [] key sorted = tt
  erase-IsSorted ((k, v) ∷ xs) key (above, sorted) = elim (Ordering-cases (o.cmp k key)) [
    | inl is_lt ↦ rw (is_lt, erase) (Above-erase k xs key above, erase-IsSorted xs key sorted)
    | inr (inl same) ↦ rw (same, erase) sorted
    | inr (inr is_gt) ↦ rw (is_gt, erase) (Above-erase k xs key above, erase-IsSorted xs key sorted)
  ]

  pub length-erase : (xs : List (K × V)) (key : K) → length (erase o xs key) ≤ length xs
  length-erase [] key = omega arith
  length-erase ((k, v) ∷ xs) key = elim (Ordering-cases (o.cmp k key)) [
    | inl is_lt ↦ rw (is_lt, erase) (omega (arith, length-erase xs key))
    | inr (inl same) ↦ rw (same, erase) (omega arith)
    | inr (inr is_gt) ↦ rw (is_gt, erase) (omega (arith, length-erase xs key))
  ]

  pub lookup-erase :
      (xs : List (K × V)) (key j : K)
      → IsSorted o xs
      → lookup o (erase o xs key) j ≡ (if is_eq (o.cmp key j) then none else lookup o xs j)
  lookup-erase [] key j sorted = ground arith
  lookup-erase ((k, v) ∷ xs) key j (above, sorted) = elim (Ordering-cases (o.cmp k key)) [
    | inl is_lt ↦
        ground (arith, is_lt, lookup-erase xs key j sorted, o.eq_of_cmp k j, o.gt_of_lt k key is_lt)
    | inr (inl same) ↦
        let here = o.eq_of_cmp k key same in
        elim (Ordering-cases (o.cmp key j)) [
          | inl is_lt ↦ ground (arith, same, here, is_lt)
          | inr (inl equal) ↦
              let there = o.eq_of_cmp key j equal in
              rw (same, erase, equal)
                (Above-none o xs j (subst (λ i. Above o i xs) (here ∙ there) above))
          | inr (inr is_gt) ↦ ground (arith, same, here, is_gt)
        ]
    | inr (inr is_gt) ↦
        ground (arith, is_gt, lookup-erase xs key j sorted, o.eq_of_cmp k j, o.lt_of_gt k key is_gt)
  ]
