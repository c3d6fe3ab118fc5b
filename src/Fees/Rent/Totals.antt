-- ===== src/Fees/Rent/Totals.antt =====
-- The total rent fee of a transaction.
use mathlib.Core.Logic.{∥∥₁_elim}
use mathlib.Core.List.{Perm, Permᴰ}
use rs_soroban_env.Prelude.{
  ℕ, ◌+◌, ◌-◌, ◌*◌, ◌/◌, ◌≤◌, ◌<◌, ◌≡◌, refl, min, arith, Bool, List, [], ◌∷◌, ◌++◌, ap, ◌∙◌, ◌⊎◌,
}
use rs_soroban_env.Prelude.Int.{ℤ, ℤ-set, pos, ◌≤ℤ◌, pos_part, ◌+ℤ◌}
use rs_soroban_env.Prelude.Words.{u32_max, mul_mono}
use rs_soroban_env.Prelude.Signed.{
  NumInteger, i64_top, saturating_add, saturating_mul, saturating_add-pos, saturating_mul-pos,
  eq-pos, div_trunc,
}
use rs_soroban_env.Fees.Resource.{compute_fee_per_increment}
use rs_soroban_env.Fees.Resource.Bounds.{FeeLe, per_increment-pos}
use rs_soroban_env.Fees.Rent.{
  LedgerEntryRentChange, RentFeeConfiguration, rent_fee_for_size_and_ledgers,
  rent_fee_per_entry_change, compute_rent_fee, ttl_entry_size,
}
use rs_soroban_env.Fees.Rent.Laws.{
  IsSane, fee_sum, count_extended, rent_loop-sum, rent_fee_for_size_and_ledgers-pos,
}

-- The entry existed, and neither grows nor lives longer.
pub record IsUnchanged (e : LedgerEntryRentChange) : Type 0 where
  pub existed : (0 < e.old_size_bytes) ⊎ (0 < e.old_live_until_ledger)
  pub size : e.new_size_bytes ≤ e.old_size_bytes
  pub live : e.new_live_until_ledger ≤ e.old_live_until_ledger

abbrev pub AllUnchanged : List LedgerEntryRentChange → Type 0
AllUnchanged [] = Unit
AllUnchanged (e ∷ es) = IsUnchanged e × AllUnchanged es

-- The fee from the sum of the entries' fees and the number of extended entries.
abbrev total : RentFeeConfiguration → ℕ → ℕ → ℕ
total c s n =
    min
      (min (min s i64_top + min (pos_part c.fee_per_write_entry * min n i64_top) i64_top) i64_top
        + (min (min (ttl_entry_size * n) u32_max * pos_part c.fee_per_write_1kb) i64_top
            + (1024 - 1))
          / 1024)
      i64_top

total_mono :
    (c : RentFeeConfiguration) (s s' n n' : ℕ) → s ≤ s' → n ≤ n' → total c s n ≤ total c s' n'
total_mono c s s' n n' h k =
    let w = pos_part c.fee_per_write_entry in
    let r = pos_part c.fee_per_write_1kb in
    omega (
      arith,
      mul_mono w (min n i64_top) w (min n' i64_top) (omega arith) (omega arith),
      mul_mono (min (ttl_entry_size * n) u32_max) r (min (ttl_entry_size * n') u32_max) r
          (omega arith) (omega arith),
    )

count_extended-perm :
    {xs ys : List LedgerEntryRentChange} → Permᴰ xs ys → count_extended xs ≡ count_extended ys
count_extended-perm Permᴰ.nil = refl
count_extended-perm (Permᴰ.cons e p) = rw (e, count_extended-perm p)
count_extended-perm (Permᴰ.swap e e') = rw (e, e') (omega arith)
count_extended-perm (Permᴰ.trans p q) = count_extended-perm p ∙ count_extended-perm q

count_extended-append :
    (xs ys : List LedgerEntryRentChange)
    → count_extended (xs ++ ys) ≡ count_extended xs + count_extended ys
count_extended-append [] ys = omega arith
count_extended-append (x ∷ xs) ys = omega (arith, count_extended-append xs ys)

saturating_mul-sane :
    (f : ℤ) (n : ℕ) → pos 0 ≤ℤ f → saturating_mul f (pos n) ≡ pos (min (pos_part f * n) i64_top)
saturating_mul-sane f n h = rw (eq-pos f h, saturating_mul-pos (pos_part f) n)

per_increment-sane :
    (num : NumInteger) (v : ℕ) (f : ℤ)
    → pos 0 ≤ℤ f
    → compute_fee_per_increment num v f (pos 1024)
      ≡ pos ((min (v * pos_part f) i64_top + (1024 - 1)) / 1024)
per_increment-sane num v f h =
    rw (eq-pos f h) (per_increment-pos num v (pos_part f) 1024 (omega arith))

module _ (num : NumInteger) (c : RentFeeConfiguration) where
  fee_sum-perm :
      (seq : ℕ) {xs ys : List LedgerEntryRentChange}
      → Permᴰ xs ys
      → fee_sum num c seq xs ≡ fee_sum num c seq ys
  unfolding fee_sum
  fee_sum-perm seq Permᴰ.nil = refl
  fee_sum-perm seq (Permᴰ.cons e p) = rw (e, fee_sum-perm seq p)
  fee_sum-perm seq (Permᴰ.swap e e') = rw (e, e') (omega arith)
  fee_sum-perm seq (Permᴰ.trans p q) = fee_sum-perm seq p ∙ fee_sum-perm seq q

  fee_sum-append :
      (seq : ℕ) (xs ys : List LedgerEntryRentChange)
      → fee_sum num c seq (xs ++ ys) ≡ fee_sum num c seq xs + fee_sum num c seq ys
  unfolding fee_sum
  fee_sum-append seq [] ys = omega arith
  fee_sum-append seq (x ∷ xs) ys = omega (arith, fee_sum-append seq xs ys)

module _ (num : NumInteger) (c : RentFeeConfiguration) (sane : IsSane c) where
  compute_rent_fee-total :
      (es : List LedgerEntryRentChange) (seq : ℕ)
      → compute_rent_fee num es c seq ≡ pos (total c (fee_sum num c seq es) (count_extended es))
  unfolding compute_rent_fee
  compute_rent_fee-total es seq =
      rw
        (
          rent_loop-sum num c sane seq es 0 0 0 (omega arith) (omega arith) (omega arith),
          saturating_mul-sane c.fee_per_write_entry (min (0 + count_extended es) i64_top)
              sane.write_entry,
          per_increment-sane num (min (0 + ttl_entry_size * count_extended es) u32_max)
              c.fee_per_write_1kb sane.write,
          saturating_add-pos,
          saturating_add-pos,
        )
        (ground arith)

  zero-div : (d : ℕ) → (0 + (d - 1)) / d ≡ 0
  zero-div d = grind arith

  no_ledgers : (p : Bool) (size : ℕ) → rent_fee_for_size_and_ledgers num p size 0 c ≡ pos 0
  no_ledgers p size =
      let (d, e) = rent_fee_for_size_and_ledgers-pos num c sane p size 0 in
      e ∙ ap pos (ap (λ n. (n + (d - 1)) / d) (omega arith) ∙ zero-div d)

  no_bytes : (p : Bool) (ledgers : ℕ) → rent_fee_for_size_and_ledgers num p 0 ledgers c ≡ pos 0
  no_bytes p ledgers =
      let (d, e) = rent_fee_for_size_and_ledgers-pos num c sane p 0 ledgers in
      e ∙ ap pos (ap (λ n. (n + (d - 1)) / d) (grind arith) ∙ zero-div d)

  unchanged_free :
      (e : LedgerEntryRentChange) (seq : ℕ)
      → IsUnchanged e
      → rent_fee_per_entry_change num e c seq ≡ pos 0
  unfolding rent_fee_per_entry_change saturating_add ◌+ℤ◌ div_trunc
  unchanged_free e seq h = ground (
    arith,
    no_ledgers e.is_persistent e.new_size_bytes,
    no_bytes e.is_persistent (min (e.old_live_until_ledger - seq + 1) u32_max),
  )

  AllUnchanged-free :
      (es : List LedgerEntryRentChange) (seq : ℕ)
      → AllUnchanged es
      → (fee_sum num c seq es ≡ 0) × (count_extended es ≡ 0)
  unfolding fee_sum
  AllUnchanged-free [] seq h = (refl, refl)
  AllUnchanged-free (e ∷ es) seq h =
      ground (arith, unchanged_free e seq h.0, AllUnchanged-free es seq h.1)

  -- For a configuration without negative fees, changes of existing entries that neither grow nor
  -- live longer cost no rent.
  pub compute_rent_fee_unchanged :
      (es : List LedgerEntryRentChange) (seq : ℕ)
      → AllUnchanged es
      → compute_rent_fee num es c seq ≡ pos 0
  compute_rent_fee_unchanged es seq h =
      let (no_fee, not_extended) = AllUnchanged-free es seq h in
      rw (compute_rent_fee-total es seq, no_fee, not_extended) (ap pos (omega arith))

  -- For a configuration without negative fees the rent fee is non-negative and fits an i64, and
  -- does not fall when further changes are charged; the order of the changes makes no difference.
  pub compute_rent_fee_lem :
      (xs ys zs : List LedgerEntryRentChange) (seq : ℕ)
      → Perm (xs ++ ys) zs
      → FeeLe (compute_rent_fee num xs c seq) (compute_rent_fee num (xs ++ ys) c seq)
        × (compute_rent_fee num zs c seq ≡ compute_rent_fee num (xs ++ ys) c seq)
  compute_rent_fee_lem xs ys zs seq p = (more, ∥∥₁_elim p (ℤ-set _ _) same)
    where
      more : FeeLe (compute_rent_fee num xs c seq) (compute_rent_fee num (xs ++ ys) c seq)
      more =
          rw (compute_rent_fee-total xs seq, compute_rent_fee-total (xs ++ ys) seq)
            (omega (
              arith,
              total_mono c (fee_sum num c seq xs) (fee_sum num c seq (xs ++ ys)) (count_extended xs)
                  (count_extended (xs ++ ys)) (omega (arith, fee_sum-append num c seq xs ys))
                  (omega (arith, count_extended-append xs ys)),
            ))

      same :
          Permᴰ (xs ++ ys) zs
          → compute_rent_fee num zs c seq ≡ compute_rent_fee num (xs ++ ys) c seq
      same q = rw (
        compute_rent_fee-total zs seq,
        compute_rent_fee-total (xs ++ ys) seq,
        fee_sum-perm num c seq q,
        count_extended-perm q,
      )
