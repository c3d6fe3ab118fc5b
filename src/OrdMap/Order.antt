-- ===== src/OrdMap/Order.antt =====
-- The order of keys, sorted vectors, and the position of a key in one.
pub mod Numbers
use rs_soroban_env.Prelude.{
  ℕ, zero, suc, ◌≤◌, ◌<◌, ◌≡◌, refl, some, List, [], ◌∷◌, get_elem?, length, arith, Ordering, ap,
  ltb, Bool-cases, ◌⊎◌, inl, inr,
}
use Prim.Native.Nat.Ordering.{lt, eq, gt}
use rs_soroban_env.OrdMap.Search.{Search, found, insert_at}

-- A total order by `Ordering`, as `Ord` documents it.
pub record Order (K : Type 0) : Type 0 where
  pub cmp : K → K → Ordering
  pub eq_of_cmp : (a b : K) → cmp a b ≡ eq → a ≡ b
  pub cmp_refl : (a : K) → cmp a a ≡ eq
  pub gt_of_lt : (a b : K) → cmp a b ≡ lt → cmp b a ≡ gt
  pub lt_of_gt : (a b : K) → cmp a b ≡ gt → cmp b a ≡ lt
  pub lt_trans : (a b c : K) → cmp a b ≡ lt → cmp b c ≡ lt → cmp a c ≡ lt

pub Ordering-cases : (ordering : Ordering) → (ordering ≡ lt) ⊎ (ordering ≡ eq) ⊎ (ordering ≡ gt)
Ordering-cases lt = inl refl
Ordering-cases eq = inr (inl refl)
Ordering-cases gt = inr (inr refl)

lt_or_eq : {m n : ℕ} → m < suc n → (m < n) ⊎ (m ≡ n)
lt_or_eq {m} {n} h = elim (Bool-cases (ltb m n)) [
  | inl less ↦ inl (ground arith)
  | inr not_less ↦ inr (ground arith)
]

abbrev pub shift : Search → Search
shift (found n) = found (suc n)
shift (insert_at n) = insert_at (suc n)

module _ {K V : Type 0} (o : Order K) where
  -- Every key of the entries is above `k`.
  abbrev pub Above : K → List (K × V) → Type 0
  Above k [] = Unit
  Above k ((j, _) ∷ xs) = (o.cmp k j ≡ lt) × Above k xs

  abbrev pub IsSorted : List (K × V) → Type 0
  IsSorted [] = Unit
  IsSorted ((k, _) ∷ xs) = Above k xs × IsSorted xs

  pub Above-trans : (j k : K) (xs : List (K × V)) → o.cmp j k ≡ lt → Above k xs → Above j xs
  Above-trans j k [] h a = tt
  Above-trans j k ((i, v) ∷ xs) h (a, rest) = (o.lt_trans j k i h a, Above-trans j k xs h rest)

  Above-get :
      (k : K) (xs : List (K × V)) (i : ℕ) (x : K × V)
      → Above k xs
      → get_elem? xs i ≡ some x
      → o.cmp k x.0 ≡ lt
  Above-get k [] i x a e = cc
  Above-get k (y ∷ xs) zero x a e = ground (arith)
  Above-get k (y ∷ xs) (suc i) x a e = Above-get k xs i x a.1 e

  pub sorted_before :
      (xs : List (K × V)) (i j : ℕ) (x y : K × V)
      → IsSorted xs
      → i < j
      → get_elem? xs i ≡ some x
      → get_elem? xs j ≡ some y
      → o.cmp x.0 y.0 ≡ lt
  sorted_before [] i j x y s h ei ej = cc
  sorted_before (z ∷ xs) zero zero x y s h ei ej = absurd (omega arith)
  sorted_before (z ∷ xs) zero (suc j) x y s h ei ej = ground (arith, Above-get z.0 xs j y s.0 ej)
  sorted_before (z ∷ xs) (suc i) zero x y s h ei ej = absurd (omega arith)
  sorted_before (z ∷ xs) (suc i) (suc j) x y s h ei ej =
      sorted_before xs i j x y s.1 (omega arith) ei ej

  -- The position of a key, by going through the entries in order.
  unfoldable pub locate : List (K × V) → K → Search
  locate [] key = insert_at 0
  locate ((k, v) ∷ xs) key =
      let rest = shift (locate xs key) in
      elim (o.cmp k key) [ lt ↦ rest | eq ↦ found 0 | gt ↦ insert_at 0 ]

  -- Every entry before the position is below the key.
  abbrev pub AllBefore : List (K × V) → K → ℕ → Type 0
  AllBefore xs key n = (i : ℕ) (x : K × V) → i < n → get_elem? xs i ≡ some x → o.cmp x.0 key ≡ lt

  abbrev pub AllFrom : List (K × V) → K → ℕ → Type 0
  AllFrom xs key n = (i : ℕ) (x : K × V) → n ≤ i → get_elem? xs i ≡ some x → o.cmp x.0 key ≡ gt

  pub locate_found :
      (xs : List (K × V)) (key : K) (n : ℕ) (x : K × V)
      → AllBefore xs key n
      → get_elem? xs n ≡ some x
      → o.cmp x.0 key ≡ eq
      → locate xs key ≡ found n
  unfolding locate
  locate_found [] key n x b e h = cc
  locate_found (y ∷ xs) key zero x b e h = ground arith
  locate_found (y ∷ xs) key (suc n) x b e h =
      rw (b zero y (omega arith) refl, locate)
        (ap shift (locate_found xs key n x (λ i z hi ez. b (suc i) z (omega arith) ez) e h))

  pub locate_insert :
      (xs : List (K × V)) (key : K) (n : ℕ)
      → n ≤ length xs
      → AllBefore xs key n
      → AllFrom xs key n
      → locate xs key ≡ insert_at n
  unfolding locate
  locate_insert [] key n h b a = ap insert_at (omega arith)
  locate_insert (y ∷ xs) key zero h b a = rw (a zero y (omega arith) refl, locate)
  locate_insert (y ∷ xs) key (suc n) h b a =
      rw (b zero y (omega arith) refl, locate)
        (ap shift (
          locate_insert xs key n (omega arith) (λ i z hi ez. b (suc i) z (omega arith) ez)
            (λ i z hi ez. a (suc i) z (omega arith) ez)))

  pub AllBefore-lt :
      (xs : List (K × V)) (key : K) (mid : ℕ) (x : K × V)
      → IsSorted xs
      → get_elem? xs mid ≡ some x
      → o.cmp x.0 key ≡ lt
      → AllBefore xs key (suc mid)
  AllBefore-lt xs key mid x s e h i y hi ey = elim (lt_or_eq hi) [
    | inl before ↦ o.lt_trans y.0 x.0 key (sorted_before xs i mid y x s before ey e) h
    | inr same ↦ ground (arith)
  ]

  pub AllFrom-gt :
      (xs : List (K × V)) (key : K) (mid : ℕ) (x : K × V)
      → IsSorted xs
      → get_elem? xs mid ≡ some x
      → o.cmp x.0 key ≡ gt
      → AllFrom xs key mid
  AllFrom-gt xs key mid x s e h i y hi ey = elim (lt_or_eq {m = mid} {n = i} (omega arith)) [
    | inl after ↦
        o.gt_of_lt key y.0
          (o.lt_trans key x.0 y.0 (o.lt_of_gt x.0 key h) (sorted_before xs mid i x y s after e ey))
    | inr same ↦ ground (arith)
  ]

  pub AllBefore-eq :
      (xs : List (K × V)) (key : K) (mid : ℕ) (x : K × V)
      → IsSorted xs
      → get_elem? xs mid ≡ some x
      → o.cmp x.0 key ≡ eq
      → AllBefore xs key mid
  AllBefore-eq xs key mid x s e h i y hi ey =
      ground (arith, o.eq_of_cmp x.0 key h, sorted_before xs i mid y x s hi ey e)
