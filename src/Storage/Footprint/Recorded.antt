-- ===== src/Storage/Footprint/Recorded.antt =====
-- What the footprint allows, and what it allows after an access is recorded.
use rs_soroban_env.Prelude.{
  ◌<◌, ◌≡◌, refl, Option, none, some, List, length, arith, Bool, true, false, ◌||◌, ◌&&◌,
  if◌then◌else◌, subst, Bool-cases, inl, inr,
}
use rs_soroban_env.Prelude.Words.{u32_max}
use rs_soroban_env.Errors.{ok, err}
use rs_soroban_env.Errors.Computes.{Computes, bind-Computes, pure-Computes, throw-Computes}
use rs_soroban_env.OrdMap.Order.{Order, Ordering-cases, IsSorted}
use rs_soroban_env.OrdMap.Finite.{is_eq, lookup, put}
use rs_soroban_env.OrdMap.Changes.{put-IsSorted, lookup-put}
use rs_soroban_env.OrdMap.Ops.{Context, get}
use rs_soroban_env.OrdMap.Ops.Find.{Lawful}
use rs_soroban_env.OrdMap.Ops.Results.{insert-Computes, get-Computes}
use rs_soroban_env.Storage.Footprint.AccessType.{read_only, read_write}
use rs_soroban_env.Storage.Footprint.{
  AccessType, footprint_exceeded, record_existing, record_access, enforce_existing, enforce_access,
}

-- An access that is declared serves every access that asks for no more.
abbrev pub covers : AccessType → AccessType → Bool
covers read_only read_write = false
covers _ _ = true

abbrev pub allowed : Option AccessType → AccessType → Bool
allowed none ty = false
allowed (some declared) ty = covers declared ty

held :
    (existing : Option AccessType) (ty asked : AccessType)
    → allowed existing ty ≡ true
    → allowed existing asked ≡ (allowed existing asked || covers ty asked)
held none ty asked h = ground arith
held (some read_only) read_only read_only h = refl
held (some read_only) read_only read_write h = refl
held (some read_only) read_write asked h = ground arith
held (some read_write) ty asked h = refl

missed :
    (existing : Option AccessType) (ty asked : AccessType)
    → allowed existing ty ≡ false
    → covers ty asked ≡ (allowed existing asked || covers ty asked)
missed none ty asked h = refl
missed (some read_only) read_only asked h = ground arith
missed (some read_only) read_write read_only h = refl
missed (some read_only) read_write read_write h = refl
missed (some read_write) ty asked h = ground arith

module _ {K : Type 0} (o : Order K) where
  -- The footprint after the access, entry by entry.
  abbrev pub recorded : List (K × AccessType) → K → AccessType → List (K × AccessType)
  recorded footprint key ty =
      if allowed (lookup o footprint key) ty then footprint else put o footprint key ty

  recorded-IsSorted :
      (footprint : List (K × AccessType)) (key : K) (ty : AccessType)
      → IsSorted o footprint
      → IsSorted o (recorded footprint key ty)
  recorded-IsSorted footprint key ty sorted =
      elim (Bool-cases (allowed (lookup o footprint key) ty)) [
        | inl granted ↦ rw (granted) sorted
        | inr denied ↦ rw (denied) (put-IsSorted o footprint key ty sorted)
      ]

  -- What is allowed afterwards is what was allowed before, and what the access covers of its key.
  allowed-recorded :
      (footprint : List (K × AccessType)) (key : K) (ty : AccessType) (j : K) (asked : AccessType)
      → allowed (lookup o (recorded footprint key ty) j) asked
        ≡ (allowed (lookup o footprint j) asked || (is_eq (o.cmp key j) && covers ty asked))
  allowed-recorded footprint key ty j asked = elim (Ordering-cases (o.cmp key j)) [
    | inl is_lt ↦ ground (arith, is_lt, lookup-put o footprint key ty j)
    | inr (inl same) ↦ ground (
      arith,
      same,
      lookup-put o footprint key ty j,
      o.eq_of_cmp key j same,
      held (lookup o footprint key) ty asked,
      missed (lookup o footprint key) ty asked,
    )
    | inr (inr is_gt) ↦ ground (arith, is_gt, lookup-put o footprint key ty j)
  ]

module _ {S K : Type 0} (ctx : Context S K AccessType) (o : Order K) (Free : S → Type 0)
    (laws : Lawful ctx o Free) where
  enforce_existing-Computes :
      (ty : AccessType) (existing : Option AccessType)
      → Computes Free
          (enforce_existing ctx ty existing)
          (if allowed existing ty then ok tt else err footprint_exceeded)
  unfolding enforce_existing
  enforce_existing-Computes ty none = throw-Computes Free footprint_exceeded
  enforce_existing-Computes read_only (some read_only) = pure-Computes Free tt
  enforce_existing-Computes read_write (some read_only) = throw-Computes Free footprint_exceeded
  enforce_existing-Computes read_only (some read_write) = pure-Computes Free tt
  enforce_existing-Computes read_write (some read_write) = pure-Computes Free tt

  pub enforce-Computes :
      (footprint : List (K × AccessType)) (key : K) (ty : AccessType)
      → IsSorted o footprint
      → Computes Free
          (enforce_access ctx footprint key ty)
          (if allowed (lookup o footprint key) ty then ok tt else err footprint_exceeded)
  unfolding enforce_access
  enforce-Computes footprint key ty sorted =
      bind-Computes Free (get ctx footprint key) (enforce_existing ctx ty) (lookup o footprint key)
        (if allowed (lookup o footprint key) ty then ok tt else err footprint_exceeded)
        (get-Computes ctx o Free laws footprint key sorted)
        (enforce_existing-Computes ty (lookup o footprint key))

  record_existing-Computes :
      (footprint : List (K × AccessType)) (key : K) (ty : AccessType) (existing : Option AccessType)
      → IsSorted o footprint
      → length footprint < u32_max
      → Computes Free
          (record_existing ctx footprint key ty existing)
          (ok (if allowed existing ty then footprint else put o footprint key ty))
  unfolding record_existing
  record_existing-Computes footprint key ty none sorted room =
      insert-Computes ctx o Free laws footprint key ty sorted room
  record_existing-Computes footprint key read_only (some read_only) sorted room =
      pure-Computes Free footprint
  record_existing-Computes footprint key read_write (some read_only) sorted room =
      insert-Computes ctx o Free laws footprint key read_write sorted room
  record_existing-Computes footprint key read_only (some read_write) sorted room =
      pure-Computes Free footprint
  record_existing-Computes footprint key read_write (some read_write) sorted room =
      pure-Computes Free footprint

  record-Computes :
      (footprint : List (K × AccessType)) (key : K) (ty : AccessType)
      → IsSorted o footprint
      → length footprint < u32_max
      → Computes Free (record_access ctx footprint key ty) (ok (recorded o footprint key ty))
  unfolding record_access
  record-Computes footprint key ty sorted room =
      bind-Computes Free (get ctx footprint key) (record_existing ctx footprint key ty)
        (lookup o footprint key) (ok (recorded o footprint key ty))
        (get-Computes ctx o Free laws footprint key sorted)
        (record_existing-Computes footprint key ty (lookup o footprint key) sorted room)

  -- An access is recorded in a sorted footprint of less than `u32::MAX` keys as a sorted footprint
  -- that enforces any access to any key just so: it passes if the old footprint allows it or if the
  -- key is the recorded one and the recorded access covers it, and else it is the limit error.
  pub record_access_lem :
      (footprint : List (K × AccessType)) (key : K) (ty : AccessType) (j : K) (asked : AccessType)
      → IsSorted o footprint
      → length footprint < u32_max
      → Computes Free (record_access ctx footprint key ty) (ok (recorded o footprint key ty))
        × IsSorted o (recorded o footprint key ty)
        × Computes Free (enforce_access ctx (recorded o footprint key ty) j asked) (
            if allowed (lookup o footprint j) asked || (is_eq (o.cmp key j) && covers ty asked)
            then ok tt
            else err footprint_exceeded)
  record_access_lem footprint key ty j asked sorted room =
      let after = recorded-IsSorted o footprint key ty sorted in
      (
        record-Computes footprint key ty sorted room,
        after,
        subst
            (λ passes.
              Computes Free (enforce_access ctx (recorded o footprint key ty) j asked)
                (if passes then ok tt else err footprint_exceeded))
            (allowed-recorded o footprint key ty j asked)
            (enforce-Computes (recorded o footprint key ty) j asked after),
      )
