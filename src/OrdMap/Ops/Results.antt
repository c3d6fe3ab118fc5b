-- ===== src/OrdMap/Ops/Results.antt =====
-- What the operations of the map compute, against the finite map it stands for.
use rs_soroban_env.Prelude.{
  ℕ, zero, suc, ◌-◌, ◌≤◌, ◌<◌, ◌≡◌, refl, sym, none, some, false, List, [], ◌∷◌, ◌++◌, get_elem?,
  length, arith, ltb, ◌==◌, if◌then◌else◌, subst, inl, inr, take, drop,
}
use rs_soroban_env.Prelude.Words.{u32_max, u64_max}
use rs_soroban_env.Errors.{Result, ok}
use rs_soroban_env.Errors.Exec.{◌>>=◌, ◌>>◌, pure, throw}
use rs_soroban_env.Errors.Computes.{Computes, bind-Computes, pure-Computes, seq-Computes}
use rs_soroban_env.OrdMap.Search.{Search, found, insert_at, is_found, get_in_range}
use rs_soroban_env.OrdMap.Order.{Order, Ordering-cases, IsSorted, locate, shift}
use rs_soroban_env.OrdMap.Finite.{
  lookup, put, erase, removed, put_at, value_at, drop_at, put_at-locate, value_at-locate,
  drop_at-locate,
}
use rs_soroban_env.OrdMap.Changes.{put-IsSorted, length-put, erase-IsSorted, length-erase}
use rs_soroban_env.OrdMap.Ops.{
  Context, map_oob, internal_error, find, insert, insert_into, get, get_from, remove, remove_from,
  contains_key, charge_access, charge_scan, check_windows, check_less, from_map, from_exact_iter,
}
use rs_soroban_env.OrdMap.Ops.Find.{Lawful, find-Computes}

-- A place that is found is that of an entry.
abbrev Within : {A : Type 0} → List A → Search → Type 0
Within m (found i) = i < length m
Within m (insert_at i) = Unit

Within-shift :
    {A : Type 0} (x : A) (m : List A) (pos : Search) → Within m pos → Within (x ∷ m) (shift pos)
Within-shift x m (found i) h = omega arith
Within-shift x m (insert_at i) h = tt

module _ {K V : Type 0} (o : Order K) where
  locate-Within : (m : List (K × V)) (key : K) → Within m (locate o m key)
  unfolding locate
  locate-Within [] key = tt
  locate-Within ((k, v) ∷ m) key = elim (Ordering-cases (o.cmp k key)) [
    | inl is_lt ↦ rw (is_lt, locate) (Within-shift (k, v) m (locate o m key) (locate-Within m key))
    | inr (inl same) ↦ rw (same, locate) (omega arith)
    | inr (inr is_gt) ↦ rw (is_gt, locate) tt
  ]

not_above : (a b : ℕ) → b ≤ a → ltb a b ≡ false
not_above a b h = ground arith

not_same : (a b : ℕ) → a < b → (a == b) ≡ false
not_same a b h = ground arith

module _ {S K V : Type 0} (ctx : Context S K V) (o : Order K) (Free : S → Type 0)
    (laws : Lawful ctx o Free) where
  pub check_windows-Computes :
      (m : List (K × V)) → IsSorted o m → Computes Free (check_windows ctx m) (ok tt)
  unfolding check_windows
  check_windows-Computes [] sorted = pure-Computes Free tt
  check_windows-Computes (x ∷ []) sorted = pure-Computes Free tt
  check_windows-Computes (x ∷ y ∷ m) (above, sorted) =
      bind-Computes Free (ctx.compare x.0 y.0)
        (λ ordering. check_less ctx ordering >> check_windows ctx (y ∷ m)) (o.cmp x.0 y.0) (ok tt)
        (laws.comparing x.0 y.0)
        (seq-Computes Free (check_less ctx (o.cmp x.0 y.0)) (check_windows ctx (y ∷ m)) (ok tt)
          (rw (above.0, check_less) (pure-Computes Free tt))
          (check_windows-Computes (y ∷ m) sorted))

  -- A vector that a `u32` counts is a map or not as the check of its order ends.
  pub from_map-Computes :
      (m : List (K × V)) (r : Result (List (K × V)))
      → length m ≤ u32_max
      → Computes Free (check_windows ctx m >> pure m) r
      → Computes Free (from_map ctx m) r
  unfolding from_map charge_scan charge_access
  from_map-Computes m r h checked =
      rw (not_above u32_max (length m) h, from_map)
        (seq-Computes Free (charge_scan ctx m) (check_windows ctx m >> pure m) r (laws.charging _)
          checked)

  sorted-Computes :
      (m : List (K × V)) → IsSorted o m → length m ≤ u32_max → Computes Free (from_map ctx m) (ok m)
  sorted-Computes m sorted h = from_map-Computes m (ok m) h (
      seq-Computes Free (check_windows ctx m) (pure m) (ok m) (check_windows-Computes m sorted)
        (pure-Computes Free m))

  from_exact_iter-Computes :
      (m : List (K × V))
      → IsSorted o m
      → length m ≤ u32_max
      → Computes Free (from_exact_iter ctx m) (ok m)
  unfolding from_exact_iter
  from_exact_iter-Computes m sorted h =
      subst
        (λ too_long.
          Computes Free
            (if too_long then throw map_oob else ctx.charge_deep_clone m >> from_map ctx m) (ok m))
        (sym (not_above u32_max (length m) h))
        (seq-Computes Free (ctx.charge_deep_clone m) (from_map ctx m) (ok m) (laws.cloning m)
          (sorted-Computes m sorted h))

  insert_into-Computes :
      (m : List (K × V)) (pos : Search) (key : K) (value : V)
      → Within m pos
      → length m < u32_max
      → IsSorted o (put_at m pos key value)
      → length (put_at m pos key value) ≤ u32_max
      → Computes Free (insert_into ctx m key value pos) (ok (put_at m pos key value))
  unfolding insert_into
  insert_into-Computes m (found i) key value within room sorted h =
      rw (not_same i (u64_max - 1) (omega arith), insert_into)
        (from_exact_iter-Computes (put_at m (found i) key value) sorted h)
  insert_into-Computes m (insert_at i) key value within room sorted h =
      rw (not_same (length m) u32_max room, insert_into)
        (from_exact_iter-Computes (put_at m (insert_at i) key value) sorted h)

  pub insert-Computes :
      (m : List (K × V)) (key : K) (value : V)
      → IsSorted o m
      → length m < u32_max
      → Computes Free (insert ctx m key value) (ok (put o m key value))
  unfolding insert charge_access
  insert-Computes m key value sorted room =
      let pos = locate o m key in
      let e = put_at-locate o m key value in
      seq-Computes Free (charge_access ctx 1)
        (find ctx m key >>= λ p. insert_into ctx m key value p) (ok (put o m key value))
        (laws.charging _)
        (bind-Computes Free (find ctx m key) (insert_into ctx m key value) pos
          (ok (put o m key value)) (find-Computes ctx o Free laws m key sorted)
          (subst (λ r. Computes Free (insert_into ctx m key value pos) (ok r)) e
            (insert_into-Computes m pos key value (locate-Within o m key) room
              (subst (IsSorted o) (sym e) (put-IsSorted o m key value sorted))
              (rw (e) (omega (arith, length-put o m key value))))))

  get_from-Computes :
      (m : List (K × V)) (pos : Search)
      → Within m pos
      → Computes Free (get_from ctx m pos) (ok (value_at m pos))
  unfolding get_from charge_access
  get_from-Computes m (found i) within =
      let (x, e) = get_in_range m i within in
      seq-Computes Free (charge_access ctx 1)
        (elim (get_elem? m i) [ none ↦ throw internal_error | some x ↦ pure (some x.1) ])
        (ok (value_at m (found i))) (laws.charging _)
        (rw (e, value_at) (pure-Computes Free (some x.1)))
  get_from-Computes m (insert_at i) within = pure-Computes Free none

  pub get-Computes :
      (m : List (K × V)) (key : K)
      → IsSorted o m
      → Computes Free (get ctx m key) (ok (lookup o m key))
  unfolding get
  get-Computes m key sorted =
      bind-Computes Free (find ctx m key) (get_from ctx m) (locate o m key) (ok (lookup o m key))
        (find-Computes ctx o Free laws m key sorted)
        (subst (λ r. Computes Free (get_from ctx m (locate o m key)) (ok r))
          (value_at-locate o m key sorted)
          (get_from-Computes m (locate o m key) (locate-Within o m key)))

  remove_from-Computes :
      (m : List (K × V)) (i : ℕ) (x : K × V)
      → get_elem? m i ≡ some x
      → IsSorted o (drop_at m (found i))
      → length (drop_at m (found i)) ≤ u32_max
      → Computes Free (remove_from ctx m (found i)) (ok (some (drop_at m (found i), x.1)))
  unfolding remove_from
  remove_from-Computes m i x e sorted h =
      let new = drop_at m (found i) in
      rw (kept i, e)
        (bind-Computes Free (from_exact_iter ctx new)
          (λ made. ctx.metered_clone x.1 >>= λ res. pure (some (made, res))) new
          (ok (some (new, x.1))) (from_exact_iter-Computes new sorted h)
          (bind-Computes Free (ctx.metered_clone x.1) (λ res. pure (some (new, res))) x.1
            (ok (some (new, x.1))) (laws.copying x.1) (pure-Computes Free (some (new, x.1)))))
    where
      kept :
          (j : ℕ)
          → (if ltb 0 j then take j m ++ drop (suc j) m else drop 1 m) ≡ take j m ++ drop (suc j) m
      kept zero = refl
      kept (suc j) = ground arith

  remove_at-Computes :
      (m : List (K × V)) (key : K) (pos : Search)
      → Within m pos
      → IsSorted o m
      → length m ≤ u32_max
      → value_at m pos ≡ lookup o m key
      → drop_at m pos ≡ erase o m key
      → Computes Free (remove_from ctx m pos) (ok (removed o m key))
  unfolding remove_from
  remove_at-Computes m key (insert_at i) within sorted h value kept =
      rw (removed, sym value) (pure-Computes Free none)
  remove_at-Computes m key (found i) within sorted h value kept =
      let (x, e) = get_in_range m i within in
      let was : lookup o m key ≡ some x.1 = ground (arith, e, value) in
      rw (was, removed, sym kept)
        (remove_from-Computes m i x e
          (subst (IsSorted o) (sym kept) (erase-IsSorted o m key sorted))
          (rw (kept) (omega (arith, length-erase o m key))))

  pub remove-Computes :
      (m : List (K × V)) (key : K)
      → IsSorted o m
      → length m ≤ u32_max
      → Computes Free (remove ctx m key) (ok (removed o m key))
  unfolding remove
  remove-Computes m key sorted h =
      bind-Computes Free (find ctx m key) (remove_from ctx m) (locate o m key)
        (ok (removed o m key)) (find-Computes ctx o Free laws m key sorted)
        (remove_at-Computes m key (locate o m key) (locate-Within o m key) sorted h
          (value_at-locate o m key sorted) (drop_at-locate o m key sorted))

  pub contains_key-Computes :
      (m : List (K × V)) (key : K)
      → IsSorted o m
      → Computes Free (contains_key ctx m key) (ok (is_found (locate o m key)))
  unfolding contains_key
  contains_key-Computes m key sorted =
      bind-Computes Free (find ctx m key) (λ pos. pure (is_found pos)) (locate o m key)
        (ok (is_found (locate o m key))) (find-Computes ctx o Free laws m key sorted)
        (pure-Computes Free (is_found (locate o m key)))
