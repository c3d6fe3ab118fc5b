-- ===== src/OrdMap/Ops.antt =====
-- `MeteredOrdMap` of soroban-env-host/src/host/metered_map.rs.
pub mod Find
pub mod Results
pub mod Input
pub mod Refinement
use rs_soroban_env.Prelude.{
  ℕ, zero, suc, ◌+◌, ◌-◌, ◌/◌, Option, none, some, Bool, true, false, List, [], ◌∷◌, ◌++◌,
  get_elem?, length, take, drop, ltb, ◌==◌, if◌then◌else◌, Ordering, map,
}
use Prim.Native.Nat.Ordering.{lt, eq, gt}
use rs_soroban_env.Prelude.Words.{u32_max, u64_max, saturating_mul, saturating_add_u32}
use rs_soroban_env.Errors.{Result, ok, err, Error, error, ScErrorType, ScErrorCode, ok_or}
use rs_soroban_env.Errors.Exec.{Exec, ◌>>=◌, ◌>>◌, pure, throw, lift}
use rs_soroban_env.OrdMap.Search.{Search, found, insert_at, is_found, binary_search}

-- What `Ctx: AsBudget + Compare<K>` and `K, V: MeteredClone` give: `charge_mem_cpy n` is
-- `budget.charge(MemCpy, Some(n))`.
pub record Context (S K V : Type 0) : Type 0 where
  pub entry_size : ℕ
  pub charge_mem_cpy : ℕ → Exec S (Unit {0})
  pub charge_deep_clone : List (K × V) → Exec S (Unit {0})
  pub metered_clone : V → Exec S V
  pub compare : K → K → Exec S Ordering

abbrev pub map_oob : Error
map_oob = error ScErrorType.object ScErrorCode.index_bounds

abbrev pub internal_error : Error
internal_error = error ScErrorType.object ScErrorCode.internal_error

-- The bits of a number of at most `width` bits: `64 - leading_zeros`.
unfoldable pub magnitude : ℕ → ℕ → ℕ
magnitude zero n = 0
magnitude (suc width) n = if n == 0 then 0 else suc (magnitude width (n / 2))

module _ {S K V : Type 0} (ctx : Context S K V) where
  unfoldable pub charge_access : ℕ → Exec S (Unit {0})
  unfolding saturating_mul
  charge_access count = ctx.charge_mem_cpy (saturating_mul ctx.entry_size count)

  unfoldable pub charge_scan : List (K × V) → Exec S (Unit {0})
  unfolding charge_access
  charge_scan m = charge_access (length m)

  unfoldable pub charge_binsearch : List (K × V) → Exec S (Unit {0})
  unfolding magnitude saturating_mul saturating_add_u32
  charge_binsearch m =
      let mag = magnitude 64 (length m) in
      ctx.charge_mem_cpy (saturating_mul ctx.entry_size (saturating_add_u32 mag 1))

  unfoldable pub check_less : Ordering → Exec S (Unit {0})
  check_less lt = pure tt
  check_less _ = throw (error ScErrorType.object ScErrorCode.invalid_input)

  -- The `for` loop over `windows(2)`.
  unfoldable pub check_windows : List (K × V) → Exec S (Unit {0})
  unfolding check_less
  check_windows [] = pure tt
  check_windows (x ∷ []) = pure tt
  check_windows (x ∷ y ∷ rest) = do
    ordering ← ctx.compare x.0 y.0
    check_less ordering
    check_windows (y ∷ rest)

  unfoldable pub from_map : List (K × V) → Exec S (List (K × V))
  unfolding charge_scan check_windows
  from_map m =
      if ltb u32_max (length m) then throw map_oob else do charge_scan m; check_windows m; pure m

  -- The iterators of this file know their exact size, so its last `else` is never reached.
  unfoldable pub from_exact_iter : List (K × V) → Exec S (List (K × V))
  unfolding from_map
  from_exact_iter m =
      if ltb u32_max (length m) then throw map_oob else do ctx.charge_deep_clone m; from_map m

  -- The closure of `find`: the first error of a comparison is kept, and every later call is `Equal`.
  unfoldable pub probe : K → K × V → Option Error × S → Ordering × (Option Error × S)
  probe key x (some e, s) = (eq, (some e, s))
  probe key x (none, s) =
      let (compared, s') = ctx.compare x.0 key s in
      elim compared [ ok ordering ↦ (ordering, (none, s')) | err e ↦ (eq, (some e, s')) ]

  -- `none` would be a panic of the search: `binary_search_total` excludes it.
  unfoldable pub settle : S → Option (Search × (Option Error × S)) → Result Search × S
  settle s none = (err internal_error, s)
  settle s (some (res, (some e, s'))) = (err e, s')
  settle s (some (res, (none, s'))) = (ok res, s')

  unfoldable pub find : List (K × V) → K → Exec S Search
  unfolding charge_binsearch probe binary_search settle
  find m key = do charge_binsearch m; λ s. settle s (binary_search (probe key) m (none, s))

  -- The two arms of `insert`; `usize::MAX` is that of 64 bits.
  unfoldable pub insert_into : List (K × V) → K → V → Search → Exec S (List (K × V))
  unfolding from_exact_iter
  insert_into m key value (found replace_pos) =
      if replace_pos == u64_max - 1
      then throw map_oob
      else from_exact_iter (take replace_pos m ++ (key, value) ∷ drop (suc replace_pos) m)
  insert_into m key value (insert_at insert_pos) =
      if length m == u32_max
      then throw map_oob
      else from_exact_iter (take insert_pos m ++ (key, value) ∷ drop insert_pos m)

  unfoldable pub insert : List (K × V) → K → V → Exec S (List (K × V))
  unfolding charge_access find insert_into
  insert m key value = do charge_access 1; pos ← find m key; insert_into m key value pos

  unfoldable pub get_from : List (K × V) → Search → Exec S (Option V)
  unfolding charge_access
  get_from m (found i) = do
    charge_access 1
    elim (get_elem? m i) [ none ↦ throw internal_error | some x ↦ pure (some x.1) ]
  get_from m (insert_at i) = pure none

  unfoldable pub get : List (K × V) → K → Exec S (Option V)
  unfolding find get_from
  get m key = do pos ← find m key; get_from m pos

  unfoldable pub get_at_index : List (K × V) → ℕ → Exec S (K × V)
  unfolding charge_access
  get_at_index m index = do charge_access 1; lift λ _. ok_or (get_elem? m index) map_oob

  -- The arms of `remove`: at place 0 there is no prefix to keep.
  unfoldable pub remove_from : List (K × V) → Search → Exec S (Option (List (K × V) × V))
  unfolding from_exact_iter
  remove_from m (found i) = do
    new ← from_exact_iter (if ltb 0 i then take i m ++ drop (suc i) m else drop 1 m)
    elim (get_elem? m i) [
      | none ↦ throw internal_error
      | some x ↦ do res ← ctx.metered_clone x.1; pure (some (new, res))
    ]
  remove_from m (insert_at i) = pure none

  unfoldable pub remove : List (K × V) → K → Exec S (Option (List (K × V) × V))
  unfolding find remove_from
  remove m key = do pos ← find m key; remove_from m pos

  unfoldable pub contains_key : List (K × V) → K → Exec S Bool
  unfolding find
  contains_key m key = do pos ← find m key; pure (is_found pos)

  unfoldable pub keys : List (K × V) → Exec S (List K)
  unfolding charge_scan
  keys m = do charge_scan m; pure (map (λ x. x.0) m)

  unfoldable pub values : List (K × V) → Exec S (List V)
  unfolding charge_scan
  values m = do charge_scan m; pure (map (λ x. x.1) m)
