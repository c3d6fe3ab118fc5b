-- ===== src/OrdMap/Ops/Refinement.antt =====
-- The operations of the map against the finite map it stands for: what is read after a write.
use rs_soroban_env.Prelude.{◌+◌, ◌≤◌, ◌<◌, none, some, List, length, arith, if◌then◌else◌, subst}
use rs_soroban_env.Prelude.Words.{u32_max}
use rs_soroban_env.Errors.{ok}
use rs_soroban_env.Errors.Computes.{Computes}
use rs_soroban_env.OrdMap.Order.{Order, IsSorted}
use rs_soroban_env.OrdMap.Finite.{is_eq, is_some, lookup, put, erase, removed, is_found-locate}
use rs_soroban_env.OrdMap.Changes.{
  put-IsSorted, length-put, lookup-put, erase-IsSorted, length-erase, lookup-erase,
}
use rs_soroban_env.OrdMap.Ops.{Context, insert, get, remove, contains_key}
use rs_soroban_env.OrdMap.Ops.Find.{Lawful}
use rs_soroban_env.OrdMap.Ops.Results.{
  insert-Computes, get-Computes, remove-Computes, contains_key-Computes,
}

module _ {S K V : Type 0} (ctx : Context S K V) (o : Order K) (Free : S → Type 0)
    (laws : Lawful ctx o Free) where
  -- On a sorted map of less than `u32::MAX` entries an insertion computes a sorted map, at most one
  -- entry longer, in which a lookup of any key computes the new value if it is the inserted key, and
  -- else what the old map holds for it.
  pub insert_lem :
      (m : List (K × V)) (key : K) (value : V) (j : K)
      → IsSorted o m
      → length m < u32_max
      → Computes Free (insert ctx m key value) (ok (put o m key value))
        × IsSorted o (put o m key value)
        × (length (put o m key value) ≤ length m + 1)
        × Computes Free
            (get ctx (put o m key value) j)
            (ok (if is_eq (o.cmp key j) then some value else lookup o m j))
  insert_lem m key value j sorted room =
      let after = put-IsSorted o m key value sorted in
      (
        insert-Computes ctx o Free laws m key value sorted room,
        after,
        omega (arith, length-put o m key value),
        subst (λ r. Computes Free (get ctx (put o m key value) j) (ok r))
            (lookup-put o m key value j) (get-Computes ctx o Free laws (put o m key value) j after),
      )

  -- On a sorted map that a `u32` counts a removal computes nothing if the key has no value, and else
  -- its value with a sorted map, no longer than before, in which a lookup of any key computes nothing
  -- for the removed key, and else what the old map holds for it.
  pub remove_lem :
      (m : List (K × V)) (key j : K)
      → IsSorted o m
      → length m ≤ u32_max
      → Computes Free (remove ctx m key) (ok (removed o m key))
        × IsSorted o (erase o m key)
        × (length (erase o m key) ≤ length m)
        × Computes Free
            (get ctx (erase o m key) j)
            (ok (if is_eq (o.cmp key j) then none else lookup o m j))
  remove_lem m key j sorted h =
      let after = erase-IsSorted o m key sorted in
      (
        remove-Computes ctx o Free laws m key sorted h,
        after,
        length-erase o m key,
        subst (λ r. Computes Free (get ctx (erase o m key) j) (ok r))
            (lookup-erase o m key j sorted) (get-Computes ctx o Free laws (erase o m key) j after),
      )

  -- On a sorted map `get` computes the value of the key, and `contains_key` whether it has one.
  pub get_lem :
      (m : List (K × V)) (key : K)
      → IsSorted o m
      → Computes Free (get ctx m key) (ok (lookup o m key))
        × Computes Free (contains_key ctx m key) (ok (is_some (lookup o m key)))
  get_lem m key sorted = (
    get-Computes ctx o Free laws m key sorted,
    subst (λ r. Computes Free (contains_key ctx m key) (ok r)) (is_found-locate o m key sorted)
        (contains_key-Computes ctx o Free laws m key sorted),
  )
