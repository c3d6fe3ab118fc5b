-- ===== src/Storage/Access/Enforced.antt =====
-- Accesses outside an enforced footprint.
use rs_soroban_env.Prelude.{◌≡◌, refl, Option, arith, false, inl, inr}
use rs_soroban_env.Errors.{Result, ok, err, is_ok, Result-cases}
use rs_soroban_env.Errors.Exec.{Exec, ◌>>=◌, ◌>>◌, lift}
use rs_soroban_env.OrdMap.Order.{Order, IsSorted}
use rs_soroban_env.OrdMap.Finite.{lookup}
use rs_soroban_env.OrdMap.Ops.Find.{Lawful}
use rs_soroban_env.Storage.Ledger.{check_supported_ledger_type}
use rs_soroban_env.Storage.Footprint.{AccessType, enforce_access}
use rs_soroban_env.Storage.Footprint.AccessType.{read_only, read_write}
use rs_soroban_env.Storage.Footprint.Recorded.{allowed, enforce-Computes}
use rs_soroban_env.Storage.Access.FootprintMode.{enforcing}
use rs_soroban_env.Storage.Access.{
  Storage, Host, EntryWithLiveUntil, put_opt, try_get_full, check_entry, access_for_write,
  enforce_in_footprint, if_recording_mode, prepare_read_only_access, map_insert,
  handle_maybe_expired_entry,
}

-- The computation fails in the state, and neither entries nor footprint change.
abbrev Refuses : {S K E A : Type 0} → Storage S K E → Exec (Storage S K E) A → Type 0
Refuses s m = (is_ok (m s).0 ≡ false) × ((m s).1.map ≡ s.map) × ((m s).1.footprint ≡ s.footprint)

lift-Refuses :
    {S K E A : Type 0} (s : Storage S K E) (r : Result (Unit {0})) (m : Exec (Storage S K E) A)
    → Refuses s m
    → Refuses s (lift (λ _. r) >> m)
lift-Refuses s (err e) m h = (refl, refl, refl)
lift-Refuses s (ok _) m h = h

seq-Refuses :
    {S K E A : Type 0} (s : Storage S K E) (m : Exec (Storage S K E) (Unit {0}))
    (k : Exec (Storage S K E) A)
    → Refuses s m
    → Refuses s (m >> k)
seq-Refuses s m k (fails, map_same, footprint_same) = elim (Result-cases (m s).0) [
  | inl (a, passed) ↦ absurd (ground (arith, passed, fails))
  | inr (e, failed) ↦ rw (failed, ◌>>=◌) (refl, map_same, footprint_same)
]

module _ {S K E : Type 0} (h : Host S K E) (o : Order K) (Free : S → Type 0)
    (laws : Lawful h.footprint_ctx o Free) where
  denied :
      (s : Storage S K E) (key : K) (ty : AccessType)
      → IsSorted o s.footprint
      → allowed (lookup o s.footprint key) ty ≡ false
      → is_ok (enforce_access h.footprint_ctx s.footprint key ty s.host).0 ≡ false
  denied s key ty sorted out =
      let law = enforce-Computes h.footprint_ctx o Free laws s.footprint key ty sorted in
      ground (arith, out, law.outcome s.host)

  -- In enforcing mode and in a build without the recording feature, a write that the footprint does
  -- not allow fails, and neither the stored entries nor the footprint change.
  pub put_opt-outside :
      (s : Storage S K E) (key : K) (val : Option (EntryWithLiveUntil E))
      → s.mode ≡ enforcing
      → h.recording_mode ≡ false
      → IsSorted o s.footprint
      → allowed (lookup o s.footprint key) read_write ≡ false
      → let out = put_opt h key val s in
        (is_ok out.0 ≡ false) × (out.1.map ≡ s.map) × (out.1.footprint ≡ s.footprint)
  unfolding put_opt access_for_write enforce_in_footprint
  put_opt-outside s key val mode build sorted out =
      let outside = denied s key read_write sorted out in
      let write : Refuses s (access_for_write h key) = ground (arith, mode, outside) in
      lift-Refuses s (check_supported_ledger_type (h.key_type key))
        (lift (λ _. check_entry h val)
          >> (if_recording_mode h (handle_maybe_expired_entry h key)
              >> (access_for_write h key >> map_insert h key val)))
        (lift-Refuses s (check_entry h val)
          (if_recording_mode h (handle_maybe_expired_entry h key)
            >> (access_for_write h key >> map_insert h key val))
          (rw (build, if_recording_mode)
            (seq-Refuses s (access_for_write h key) (map_insert h key val) write)))

  -- In enforcing mode a read that the footprint does not allow fails, and neither the stored entries
  -- nor the footprint change.
  pub try_get_full-outside :
      (s : Storage S K E) (key : K)
      → s.mode ≡ enforcing
      → IsSorted o s.footprint
      → allowed (lookup o s.footprint key) read_only ≡ false
      → let out = try_get_full h key s in
        (is_ok out.0 ≡ false) × (out.1.map ≡ s.map) × (out.1.footprint ≡ s.footprint)
  unfolding try_get_full prepare_read_only_access enforce_in_footprint
  try_get_full-outside s key mode sorted out =
      let outside = denied s key read_only sorted out in ground (arith, mode, outside)
