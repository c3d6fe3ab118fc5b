-- ===== src/OrdMap/Ops/Input.antt =====
-- What `from_map` accepts.
use rs_soroban_env.Prelude.{
  ◌≤◌, ◌≡◌, refl, List, [], ◌∷◌, length, arith, Ordering, inl, inr, ◌⊎◌, subst,
}
use Prim.Native.Nat.Ordering.{lt, eq, gt}
use rs_soroban_env.Prelude.Words.{u32_max}
use rs_soroban_env.Errors.{Result, ok, err, error, ScErrorType, ScErrorCode, Error}
use rs_soroban_env.Errors.Exec.{Exec, ◌>>◌, pure, throw}
use rs_soroban_env.Errors.Computes.{
  Computes, bind-Computes, seq-Computes, pure-Computes, throw-Computes, seq_fails-Computes,
}
use rs_soroban_env.OrdMap.Order.{Order, Ordering-cases, Above-trans, IsSorted}
use rs_soroban_env.OrdMap.Ops.{Context, check_less, check_windows, from_map}
use rs_soroban_env.OrdMap.Ops.Find.{Lawful}
use rs_soroban_env.OrdMap.Ops.Results.{from_map-Computes}

abbrev pub invalid_input : Error
invalid_input = error ScErrorType.object ScErrorCode.invalid_input

module _ {S K V : Type 0} (ctx : Context S K V) (o : Order K) (Free : S → Type 0)
    (laws : Lawful ctx o Free) where
  -- A check of the order ends as the map is sorted or not.
  abbrev Judges : {A : Type 0} → List (K × V) → Exec S A → A → Type 0
  Judges m check accepted =
      (IsSorted o m × Computes Free check (ok accepted))
      ⊎ ((IsSorted o m → ⊥) × Computes Free check (err invalid_input))

  stop-Computes :
      (x y : K × V) (m : List (K × V)) (ordering : Ordering)
      → o.cmp x.0 y.0 ≡ ordering
      → check_less ctx ordering ≡ throw invalid_input
      → Computes Free (check_windows ctx (x ∷ y ∷ m)) (err invalid_input)
  unfolding check_windows
  stop-Computes x y m ordering e fails =
      bind-Computes Free (ctx.compare x.0 y.0)
        (λ ordering. check_less ctx ordering >> check_windows ctx (y ∷ m)) ordering
        (err invalid_input)
        (subst (λ r. Computes Free (ctx.compare x.0 y.0) (ok r)) e (laws.comparing x.0 y.0))
        (rw (fails) (
          seq_fails-Computes Free (throw invalid_input) (check_windows ctx (y ∷ m)) invalid_input
            (throw-Computes Free invalid_input)))

  check_windows-Judges : (m : List (K × V)) → Judges m (check_windows ctx m) tt
  unfolding check_windows check_less
  check_windows-Judges [] = inl (tt, pure-Computes Free tt)
  check_windows-Judges (x ∷ []) = inl ((tt, tt), pure-Computes Free tt)
  check_windows-Judges (x ∷ y ∷ m) =
      let rest = check_windows-Judges (y ∷ m) in
      elim (Ordering-cases (o.cmp x.0 y.0)) [
        | inl is_lt ↦
            let next : (r : Result (Unit {0}))
                → Computes Free (check_windows ctx (y ∷ m)) r
                → Computes Free (check_windows ctx (x ∷ y ∷ m)) r =
              λ r h.
                bind-Computes Free (ctx.compare x.0 y.0)
                  (λ ordering. check_less ctx ordering >> check_windows ctx (y ∷ m)) lt r
                  (subst (λ r. Computes Free (ctx.compare x.0 y.0) (ok r)) is_lt
                    (laws.comparing x.0 y.0))
                  (seq-Computes Free (check_less ctx lt) (check_windows ctx (y ∷ m)) r
                    (pure-Computes Free tt) h) in
            elim rest [
              | inl ((above, sorted), passes) ↦ inl (
                ((is_lt, Above-trans o x.0 y.0 m is_lt above), (above, sorted)),
                next (ok tt) passes,
              )
              | inr (unsorted, fails) ↦
                  inr ((λ sorted. unsorted sorted.1), next (err invalid_input) fails)
            ]
        | inr (inl same) ↦
            inr ((λ sorted. ground (arith, same, sorted.0.0)), stop-Computes x y m eq same refl)
        | inr (inr is_gt) ↦
            inr ((λ sorted. ground (arith, is_gt, sorted.0.0)), stop-Computes x y m gt is_gt refl)
      ]

  -- Of a vector that a `u32` counts `from_map` computes the vector itself and its keys are in strict
  -- order, or it computes the invalid-input error and they are not.
  pub from_map_lem : (m : List (K × V)) → length m ≤ u32_max → Judges m (from_map ctx m) m
  from_map_lem m h = elim (check_windows-Judges m) [
    | inl (sorted, passes) ↦ inl (
      sorted,
      from_map-Computes ctx o Free laws m (ok m) h
          (seq-Computes Free (check_windows ctx m) (pure m) (ok m) passes (pure-Computes Free m)),
    )
    | inr (unsorted, fails) ↦ inr (
      unsorted,
      from_map-Computes ctx o Free laws m (err invalid_input) h
          (seq_fails-Computes Free (check_windows ctx m) (pure m) invalid_input fails),
    )
  ]
