-- ===== src/OrdMap/Finite.antt =====
-- The finite map that a sorted vector of entries stands for, and its operations entry by entry.
use rs_soroban_env.Prelude.{
  suc, ◌≡◌, refl, ap, ◌∙◌, sym, Option, none, some, List, [], ◌∷◌, ◌++◌, get_elem?, take, drop,
  Ordering, Bool, true, false, inl, inr,
}
use Prim.Native.Nat.Ordering.{lt, eq, gt}
use rs_soroban_env.OrdMap.Search.{Search, found, insert_at, is_found}
use rs_soroban_env.OrdMap.Order.{Order, Ordering-cases, Above, Above-trans, IsSorted, locate, shift}

abbrev pub is_eq : Ordering → Bool
is_eq eq = true
is_eq _ = false

-- What the vector becomes at the place that was found.
abbrev pub put_at : {K V : Type 0} → List (K × V) → Search → K → V → List (K × V)
put_at m (found i) key value = take i m ++ (key, value) ∷ drop (suc i) m
put_at m (insert_at i) key value = take i m ++ (key, value) ∷ drop i m

abbrev pub value_at : {K V : Type 0} → List (K × V) → Search → Option V
value_at m (found i) = elim (get_elem? m i) [ none ↦ none | some x ↦ some x.1 ]
value_at m (insert_at i) = none

abbrev pub drop_at : {K V : Type 0} → List (K × V) → Search → List (K × V)
drop_at m (found i) = take i m ++ drop (suc i) m
drop_at m (insert_at i) = m

-- `Option::is_some`.
abbrev pub is_some : {A : Type 0} → Option A → Bool
is_some none = false
is_some (some a) = true

is_found-shift : (pos : Search) → is_found (shift pos) ≡ is_found pos
is_found-shift (found i) = refl
is_found-shift (insert_at i) = refl

module _ {K V : Type 0} (o : Order K) where
  abbrev pub lookup : List (K × V) → K → Option V
  lookup [] key = none
  lookup ((k, v) ∷ xs) key =
      let rest = lookup xs key in elim (o.cmp k key) [ eq ↦ some v | _ ↦ rest ]

  abbrev pub put : List (K × V) → K → V → List (K × V)
  put [] key value = (key, value) ∷ []
  put ((k, v) ∷ xs) key value =
      let rest = put xs key value in
      elim (o.cmp k key) [
        | lt ↦ (k, v) ∷ rest
        | eq ↦ (key, value) ∷ xs
        | gt ↦ (key, value) ∷ (k, v) ∷ xs
      ]

  abbrev pub erase : List (K × V) → K → List (K × V)
  erase [] key = []
  erase ((k, v) ∷ xs) key =
      let rest = erase xs key in elim (o.cmp k key) [ eq ↦ xs | _ ↦ (k, v) ∷ rest ]

  -- What `remove` gives for a key: nothing, or the map without its entry and the value.
  abbrev pub removed : List (K × V) → K → Option (List (K × V) × V)
  removed m key = elim (lookup m key) [ none ↦ none | some v ↦ some (erase m key, v) ]

  put_at-shift :
      (k : K) (v : V) (xs : List (K × V)) (pos : Search) (key : K) (value : V)
      → put_at ((k, v) ∷ xs) (shift pos) key value ≡ (k, v) ∷ put_at xs pos key value
  put_at-shift k v xs (found i) key value = refl
  put_at-shift k v xs (insert_at i) key value = refl

  pub put_at-locate :
      (xs : List (K × V)) (key : K) (value : V)
      → put_at xs (locate o xs key) key value ≡ put xs key value
  unfolding locate
  put_at-locate [] key value = refl
  put_at-locate ((k, v) ∷ xs) key value = elim (Ordering-cases (o.cmp k key)) [
    | inl is_lt ↦
        rw (is_lt, locate, put)
          (put_at-shift k v xs (locate o xs key) key value
            ∙ ap (λ m. (k, v) ∷ m) (put_at-locate xs key value))
    | inr (inl same) ↦ rw (same, locate, put) refl
    | inr (inr is_gt) ↦ rw (is_gt, locate, put) refl
  ]

  drop_at-shift :
      (k : K) (v : V) (xs : List (K × V)) (pos : Search)
      → drop_at ((k, v) ∷ xs) (shift pos) ≡ (k, v) ∷ drop_at xs pos
  drop_at-shift k v xs (found i) = refl
  drop_at-shift k v xs (insert_at i) = refl

  value_at-shift :
      (k : K) (v : V) (xs : List (K × V)) (pos : Search)
      → value_at ((k, v) ∷ xs) (shift pos) ≡ value_at xs pos
  value_at-shift k v xs (found i) = refl
  value_at-shift k v xs (insert_at i) = refl

  pub Above-none : (xs : List (K × V)) (key : K) → Above o key xs → lookup xs key ≡ none
  Above-none [] key a = refl
  Above-none ((j, v) ∷ xs) key (a, rest) = rw (o.gt_of_lt key j a, lookup) (Above-none xs key rest)

  Above-erase : (xs : List (K × V)) (key : K) → Above o key xs → erase xs key ≡ xs
  Above-erase [] key a = refl
  Above-erase ((j, v) ∷ xs) key (a, rest) =
      rw (o.gt_of_lt key j a, erase) (ap (λ m. (j, v) ∷ m) (Above-erase xs key rest))

  pub value_at-locate :
      (xs : List (K × V)) (key : K) → IsSorted o xs → value_at xs (locate o xs key) ≡ lookup xs key
  unfolding locate
  value_at-locate [] key sorted = refl
  value_at-locate ((k, v) ∷ xs) key (above, sorted) = elim (Ordering-cases (o.cmp k key)) [
    | inl is_lt ↦
        rw (is_lt, locate, lookup)
          (value_at-shift k v xs (locate o xs key) ∙ value_at-locate xs key sorted)
    | inr (inl same) ↦ rw (same, locate, lookup) refl
    | inr (inr is_gt) ↦
        rw (is_gt, locate, lookup)
          (sym (Above-none xs key (Above-trans o key k xs (o.lt_of_gt k key is_gt) above)))
  ]

  pub drop_at-locate :
      (xs : List (K × V)) (key : K) → IsSorted o xs → drop_at xs (locate o xs key) ≡ erase xs key
  unfolding locate
  drop_at-locate [] key sorted = refl
  drop_at-locate ((k, v) ∷ xs) key (above, sorted) = elim (Ordering-cases (o.cmp k key)) [
    | inl is_lt ↦
        rw (is_lt, locate, erase)
          (drop_at-shift k v xs (locate o xs key)
            ∙ ap (λ m. (k, v) ∷ m) (drop_at-locate xs key sorted))
    | inr (inl same) ↦ rw (same, locate, erase) refl
    | inr (inr is_gt) ↦
        rw (is_gt, locate, erase)
          (ap (λ m. (k, v) ∷ m)
            (sym (Above-erase xs key (Above-trans o key k xs (o.lt_of_gt k key is_gt) above))))
  ]

  -- A key has a place in the vector exactly if the finite map has a value for it.
  pub is_found-locate :
      (xs : List (K × V)) (key : K)
      → IsSorted o xs
      → is_found (locate o xs key) ≡ is_some (lookup xs key)
  unfolding locate
  is_found-locate [] key sorted = refl
  is_found-locate ((k, v) ∷ xs) key (above, sorted) = elim (Ordering-cases (o.cmp k key)) [
    | inl is_lt ↦
        rw (is_lt, locate, lookup)
          (is_found-shift (locate o xs key) ∙ is_found-locate xs key sorted)
    | inr (inl same) ↦ rw (same, locate, lookup) refl
    | inr (inr is_gt) ↦
        rw (is_gt, locate, lookup)
          (ap is_some
            (sym (Above-none xs key (Above-trans o key k xs (o.lt_of_gt k key is_gt) above))))
  ]
