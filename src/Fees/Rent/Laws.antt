-- ===== src/Fees/Rent/Laws.antt =====
-- The rent fee for a configuration without negative fees.
use rs_soroban_env.Prelude.{
  ℕ, ◌+◌, ◌-◌, ◌*◌, ◌/◌, ◌≤◌, ◌<◌, ◌≡◌, min, arith, ltb, if◌then◌else◌, Bool, List, [], ◌∷◌,
  Option-cases, inl, inr,
}
use rs_soroban_env.Prelude.Int.{ℤ, pos, negsuc, ◌≤ℤ◌, pos_part, ◌+ℤ◌}
use rs_soroban_env.Prelude.Words.{u32_max}
use rs_soroban_env.Prelude.Signed.{
  NumInteger, i64_top, saturating_add, saturating_mul, saturating_add-pos, saturating_mul-pos,
  eq-pos, ceil-le, max_ℤ, div_trunc,
}
use rs_soroban_env.Fees.Resource.{data_size_1kb_increment}
use rs_soroban_env.Fees.Rent.{
  LedgerEntryRentChange, RentFeeConfiguration, rent_fee_for_size_and_ledgers, extension_fee,
  top_up_fee, rent_fee_per_entry_change, rent_loop, ttl_entry_size, extension_ledgers,
  prepaid_ledgers, size_increase,
}

-- A configuration without negative fees; the denominators may be anything.
pub record IsSane (c : RentFeeConfiguration) : Type 0 where
  pub write : pos 0 ≤ℤ c.fee_per_write_1kb
  pub rent : pos 0 ≤ℤ c.fee_per_rent_1kb
  pub write_entry : pos 0 ≤ℤ c.fee_per_write_entry

-- A fee: neither negative nor above the largest i64.
abbrev pub InRange : ℤ → Type 0
InRange a = (pos 0 ≤ℤ a) × (a ≤ℤ pos i64_top)

denominator :
    (c : ℤ) → (d : ℕ) × (0 < d) × (max_ℤ (saturating_mul data_size_1kb_increment c) (pos 1) ≡ pos d)
denominator c = (
  pos_part (max_ℤ (saturating_mul data_size_1kb_increment c) (pos 1)),
  ground arith,
  ground arith,
)

saturating_add-InRange : (a b : ℤ) → InRange a → InRange b → InRange (saturating_add a b)
unfolding saturating_add ◌+ℤ◌
saturating_add-InRange a b h k = ground arith

div_trunc-InRange : (a : ℤ) → InRange a → InRange (div_trunc a 3)
unfolding div_trunc
div_trunc-InRange (pos n) h = omega arith
div_trunc-InRange (negsuc n) h = absurd (omega arith)

abbrev pub is_extended : LedgerEntryRentChange → Bool
is_extended e = ltb e.old_live_until_ledger e.new_live_until_ledger

abbrev pub count_extended : List LedgerEntryRentChange → ℕ
count_extended [] = 0
count_extended (e ∷ es) = (if is_extended e then 1 else 0) + count_extended es

module _ (num : NumInteger) (c : RentFeeConfiguration) where
  -- The fee of one change, as a number.
  unfoldable pub change_fee : ℕ → LedgerEntryRentChange → ℕ
  change_fee seq e = pos_part (rent_fee_per_entry_change num e c seq)

  unfoldable pub fee_sum : ℕ → List LedgerEntryRentChange → ℕ
  unfolding change_fee
  fee_sum seq [] = 0
  fee_sum seq (e ∷ es) = change_fee seq e + fee_sum seq es

module _ (num : NumInteger) (c : RentFeeConfiguration) (sane : IsSane c) where
  pub rent_fee_for_size_and_ledgers-pos :
      (p : Bool) (size ledgers : ℕ)
      → (d : ℕ) × (rent_fee_for_size_and_ledgers num p size ledgers c
          ≡ pos (
              (min (min (size * pos_part c.fee_per_rent_1kb) i64_top * ledgers) i64_top + (d - 1))
              / d))
  unfolding rent_fee_for_size_and_ledgers
  rent_fee_for_size_and_ledgers-pos p size ledgers =
      let (d, hd, e) =
        denominator
          (if p then c.persistent_rent_rate_denominator else c.temporary_rent_rate_denominator) in
      let r = pos_part c.fee_per_rent_1kb in
      (
        d,
        rw
            (
              rent_fee_for_size_and_ledgers,
              e,
              eq-pos c.fee_per_rent_1kb sane.rent,
              saturating_mul-pos size r,
              saturating_mul-pos (min (size * r) i64_top) ledgers,
            )
            (num.div_ceil-pos _ d hd),
      )

  rent_fee_for_size_and_ledgers-InRange :
      (p : Bool) (size ledgers : ℕ) → InRange (rent_fee_for_size_and_ledgers num p size ledgers c)
  rent_fee_for_size_and_ledgers-InRange p size ledgers =
      let (d, e) = rent_fee_for_size_and_ledgers-pos p size ledgers in
      rw e (
        omega (
          arith,
          ceil-le (min (min (size * pos_part c.fee_per_rent_1kb) i64_top * ledgers) i64_top) d,
        ))

  extension_fee-InRange :
      (e : LedgerEntryRentChange) (seq : ℕ) (fee : ℤ)
      → InRange fee
      → InRange (extension_fee num e c seq fee)
  unfolding extension_fee
  extension_fee-InRange e seq fee h = elim (Option-cases (extension_ledgers e seq)) [
    | inl q ↦ rw (q, extension_fee) h
    | inr (n, q) ↦
        rw (q, extension_fee)
          (saturating_add-InRange _ _ h
            (rent_fee_for_size_and_ledgers-InRange e.is_persistent e.new_size_bytes n))
  ]

  top_up_fee-InRange :
      (e : LedgerEntryRentChange) (seq : ℕ) (fee : ℤ)
      → InRange fee
      → InRange (top_up_fee num e c seq fee)
  unfolding top_up_fee
  top_up_fee-InRange e seq fee h = elim (Option-cases (prepaid_ledgers e seq)) [
    | inl q ↦ rw (q, top_up_fee) h
    | inr (n, q) ↦ elim (Option-cases (size_increase e)) [
      | inl q' ↦ rw (q, q', top_up_fee) h
      | inr (m, q') ↦
          rw (q, q', top_up_fee)
            (saturating_add-InRange _ _ h
              (rent_fee_for_size_and_ledgers-InRange e.is_persistent m n))
    ]
  ]

  pub rent_fee_per_entry_change-InRange :
      (e : LedgerEntryRentChange) (seq : ℕ) → InRange (rent_fee_per_entry_change num e c seq)
  unfolding rent_fee_per_entry_change
  rent_fee_per_entry_change-InRange e seq = ground (
    arith,
    div_trunc-InRange (top_up_fee num e c seq (extension_fee num e c seq (pos 0))),
    top_up_fee-InRange e seq (extension_fee num e c seq (pos 0))
        (extension_fee-InRange e seq (pos 0) (omega arith)),
  )

  pub rent_loop-sum :
      (seq : ℕ) (es : List LedgerEntryRentChange) (fee extended size : ℕ)
      → fee ≤ i64_top
      → extended ≤ i64_top
      → size ≤ u32_max
      → rent_loop num c seq es (pos fee) (pos extended) size ≡ (
        pos (min (fee + fee_sum num c seq es) i64_top),
        pos (min (extended + count_extended es) i64_top),
        min (size + ttl_entry_size * count_extended es) u32_max,
      )
  unfolding rent_loop fee_sum change_fee
  rent_loop-sum seq [] fee extended size h k l = ground arith
  rent_loop-sum seq (e ∷ es) fee extended size h k l =
      let f = pos_part (rent_fee_per_entry_change num e c seq) in
      ground (
        arith,
        eq-pos (rent_fee_per_entry_change num e c seq) (rent_fee_per_entry_change-InRange e seq).0,
        saturating_add-pos fee f,
        saturating_add-pos extended 1,
        rent_loop-sum seq es (min (fee + f) i64_top) (min (extended + 1) i64_top)
            (min (size + ttl_entry_size) u32_max),
        rent_loop-sum seq es (min (fee + f) i64_top) extended size,
      )
