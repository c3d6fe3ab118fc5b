-- ===== src/OrdMap/Ops/Find.antt =====
-- What `find` computes: the place of the key in a sorted map.
use rs_soroban_env.Prelude.{
  ℕ, zero, suc, ◌+◌, ◌-◌, ◌/◌, ◌≤◌, ◌<◌, ◌≡◌, refl, sym, ap, none, some, false, List, [], ◌∷◌,
  get_elem?, length, arith, ◌⊎◌, inl, inr, Bool-cases, ltb,
}
use Prim.Native.Nat.Ordering.{eq}
use rs_soroban_env.Errors.{Result, ok, is_ok, Result-cases}
use rs_soroban_env.Errors.Computes.{Computes, bind-Computes}
use rs_soroban_env.OrdMap.Search.{
  search_loop, search_loop-round, binary_search, binary_search_bounds, get_in_range,
}
use rs_soroban_env.OrdMap.Order.{
  Order, Ordering-cases, IsSorted, AllBefore, AllFrom, AllBefore-lt, AllBefore-eq, AllFrom-gt,
  locate, locate_found, locate_insert,
}
use rs_soroban_env.OrdMap.Ops.{Context, find, probe, settle, charge_binsearch}

-- What is relied on of a context: its comparison is that of the order, and charges give nothing but
-- errors, and none of those in the states that `Free` names.
pub record Lawful {S K V : Type 0} (ctx : Context S K V) (o : Order K) (Free : S → Type 0)
    : Type 0 where
  pub charging : (n : ℕ) → Computes Free (ctx.charge_mem_cpy n) (ok tt)
  pub cloning : (m : List (K × V)) → Computes Free (ctx.charge_deep_clone m) (ok tt)
  pub copying : (v : V) → Computes Free (ctx.metered_clone v) (ok v)
  pub comparing : (a b : K) → Computes Free (ctx.compare a b) (ok (o.cmp a b))

-- `Computes` at one state, for an outcome.
abbrev Gives : {S A : Type 0} → (S → Type 0) → S → A → Result A × S → Type 0
Gives Free s a out =
    ((out.0 ≡ ok a) ⊎ (is_ok out.0 ≡ false)) × (Free s → (out.0 ≡ ok a) × Free out.1)

past_end : {A : Type 0} (xs : List A) (i : ℕ) (x : A) → length xs ≤ i → get_elem? xs i ≡ some x → ⊥
past_end [] i x h e = cc
past_end (y ∷ xs) zero x h e = omega arith
past_end (y ∷ xs) (suc i) x h e = past_end xs i x (omega arith) e

module _ {S K V : Type 0} (ctx : Context S K V) (o : Order K) (Free : S → Type 0)
    (laws : Lawful ctx o Free) where
  -- What the rest of a search gives, from any bounds that still hold the key's place.
  abbrev Settles : ℕ → List (K × V) → K → S → Type 0
  Settles fuel xs key s₀ =
      (left right : ℕ) (s : S)
      → left ≤ right
      → right ≤ length xs
      → right - left < fuel
      → AllBefore o xs key left
      → AllFrom o xs key right
      → Gives Free s (locate o xs key)
          (settle ctx s₀ (search_loop (probe ctx key) fuel xs (right - left) left right (none, s)))

  round-Gives :
      (fuel : ℕ) (xs : List (K × V)) (key : K) (s₀ : S)
      → Settles fuel xs key s₀
      → IsSorted o xs
      → (left right : ℕ) (s : S) → left < right
      → right ≤ length xs
      → right - left < suc fuel
      → AllBefore o xs key left
      → AllFrom o xs key right
      → (x : K × V) → get_elem? xs (left + (right - left) / 2) ≡ some x
      → Gives Free s (locate o xs key) (
          settle ctx s₀
            (search_loop (probe ctx key) (suc fuel) xs (right - left) left right (none, s)))
  unfolding settle probe
  round-Gives fuel xs key s₀ next sorted left right s less b f lo hi x ex =
      let mid = left + (right - left) / 2 in
      let law = laws.comparing x.0 key in
      let s' = (ctx.compare x.0 key s).1 in
      elim (Result-cases (ctx.compare x.0 key s).0) [
        | inr (he, failed) ↦
            let step =
              search_loop-round (probe ctx key) fuel xs left right x eq (none, s) (some he, s') less
                ex (rw (failed, probe) refl) in
            rw (step, settle) (inr refl, λ free. absurd (ground (arith, failed, law.free s free)))
        | inl (ordering, compared) ↦
            let step =
              search_loop-round (probe ctx key) fuel xs left right x ordering (none, s) (none, s')
                less ex (rw (compared, probe) refl) in
            let agrees : ordering ≡ o.cmp x.0 key = ground (arith, compared, law.outcome s) in
            elim (Ordering-cases (o.cmp x.0 key)) [
              | inl is_lt ↦
                  let (gives, keeps) =
                    next (mid + 1) right s' (omega arith) b (ground arith)
                      (λ i y before ey.
                        AllBefore-lt o xs key mid x sorted ex is_lt i y (omega arith) ey)
                      hi in
                  rw (step, agrees, is_lt) (gives, λ free. keeps (law.free s free).1)
              | inr (inl is_eq) ↦
                  let e =
                    locate_found o xs key mid x (AllBefore-eq o xs key mid x sorted ex is_eq) ex
                      is_eq in
                  rw (step, agrees, is_eq, settle)
                    (inl (ap ok (sym e)), λ free. (ap ok (sym e), (law.free s free).1))
              | inr (inr is_gt) ↦
                  let (gives, keeps) =
                    next left mid s' (omega arith) (ground arith) (ground arith) lo
                      (AllFrom-gt o xs key mid x sorted ex is_gt) in
                  rw (step, agrees, is_gt) (gives, λ free. keeps (law.free s free).1)
            ]
      ]

  search_loop-Gives :
      (fuel : ℕ) (xs : List (K × V)) (key : K) (s₀ : S) → IsSorted o xs → Settles fuel xs key s₀
  unfolding search_loop settle
  search_loop-Gives zero xs key s₀ sorted left right s a b f lo hi = absurd (omega arith)
  search_loop-Gives (suc fuel) xs key s₀ sorted left right s a b f lo hi =
      elim (Bool-cases (ltb left right)) [
        | inr done ↦
            let e =
              locate_insert o xs key left (omega arith) lo
                (λ i x hi' ex. hi i x (ground arith) ex) in
            rw (done, search_loop, settle) (inl (ap ok (sym e)), λ free. (ap ok (sym e), free))
        | inl more ↦
            let (x, ex) = get_in_range xs (left + (right - left) / 2) (ground arith) in
            round-Gives fuel xs key s₀ (search_loop-Gives fuel xs key s₀ sorted) sorted left right s
              (ground arith) b f lo hi x ex
      ]

  -- On a sorted map `find` computes the place of the key: where it is, or where it would be inserted.
  pub find-Computes :
      (xs : List (K × V)) (key : K)
      → IsSorted o xs
      → Computes Free (find ctx xs key) (ok (locate o xs key))
  unfolding find charge_binsearch
  find-Computes xs key sorted =
      let whole = λ (s : S).
        search_loop-Gives (suc (length xs)) xs key s sorted 0 (length xs) s (omega arith)
          (omega arith) (omega arith) (λ i x h e. absurd (omega arith))
          (λ i x h e. absurd (past_end xs i x h e)) in
      bind-Computes Free (charge_binsearch ctx xs)
        (λ _ s. settle ctx s (binary_search (probe ctx key) xs (none, s))) tt (ok (locate o xs key))
        (laws.charging _)
        (record {
          outcome = λ s. rw (binary_search_bounds (probe ctx key) xs (none, s)) (whole s).0;
          free = λ s. rw (binary_search_bounds (probe ctx key) xs (none, s)) (whole s).1;
        })
