-- ===== src/Auth/Invocation/Shape.antt =====
-- What a step on a tree keeps, and how many of its nodes are not exhausted.
use rs_soroban_env.Prelude.{ℕ, ◌+◌, ◌≡◌, refl, ap, ◌∙◌, if◌then◌else◌, arith}
use rs_soroban_env.Errors.{Result, ok, err}
use rs_soroban_env.Errors.Exec.{Exec, ◌>>=◌, pure}
use rs_soroban_env.Errors.Kept.{after_any}
use rs_soroban_env.Auth.Function.{AuthHost}
use rs_soroban_env.Auth.Invocation.{
  AuthorizedInvocation, invocation, SubInvocations, AuthorizedInvocationSnapshot, snapshot_of,
  SubSnapshots, count_subs, count_snapshots, snapshot, snapshot_subs, rollback, rollback_subs,
}

-- A copy that is put into a larger one.
abbrev pub Returns : {S A : Type 0} → A → Result A × S → Type 0
Returns a (ok b, s) = b ≡ a
Returns a (err _, s) = Unit

pub then_lem :
    {S A B : Type 0} (g : A → B) (a : A) (out : Result A × S)
    → Returns a out
    → Returns (g a) (((λ _. out) >>= λ x. pure (g x)) out.1)
then_lem g a (ok b, s) p = ap g p
then_lem g a (err e, s) p = tt

pub both_lem :
    {S A B C : Type 0} (g : A → B → C) (a : A) (b : B) (out : Result A × S) (m : Exec S B)
    → Returns a out
    → Returns b (m out.1)
    → Returns (g a b) (((λ _. out) >>= λ x. m >>= λ y. pure (g x y)) out.1)
both_lem g a b (ok x, s) m p q = rw p (then_lem (g a) b (m s) q)
both_lem g a b (err e, s) m p q = tt

module _ {CreateArgs : Type 0} where
  -- The same functions in the same places.
  unfoldable mutual
    pub SameShape : AuthorizedInvocation CreateArgs → AuthorizedInvocation CreateArgs → Type 0
    SameShape (invocation f subs _) (invocation g subs' _) = (f ≡ g) × SameSubs subs subs'

    pub SameSubs : SubInvocations CreateArgs → SubInvocations CreateArgs → Type 0
    SameSubs SubInvocations.nil SubInvocations.nil = Unit
    SameSubs SubInvocations.nil (SubInvocations.cons _ _) = ⊥
    SameSubs (SubInvocations.cons _ _) SubInvocations.nil = ⊥
    SameSubs (SubInvocations.cons i subs) (SubInvocations.cons j subs') =
        SameShape i j × SameSubs subs subs'

  -- What a snapshot holds of a tree.
  unfoldable mutual
    pub flags : AuthorizedInvocation CreateArgs → AuthorizedInvocationSnapshot
    flags (invocation f subs exhausted) = snapshot_of exhausted (flags_subs subs)

    pub flags_subs : SubInvocations CreateArgs → SubSnapshots
    flags_subs SubInvocations.nil = SubSnapshots.nil
    flags_subs (SubInvocations.cons i subs) = SubSnapshots.cons (flags i) (flags_subs subs)

  -- The nodes that are not exhausted.
  unfoldable mutual
    pub remaining : AuthorizedInvocation CreateArgs → ℕ
    remaining (invocation f subs exhausted) = (if exhausted then 0 else 1) + remaining_subs subs

    pub remaining_subs : SubInvocations CreateArgs → ℕ
    remaining_subs SubInvocations.nil = 0
    remaining_subs (SubInvocations.cons i subs) = remaining i + remaining_subs subs

  mutual
    unfolding SameShape

    pub SameShape-refl : (a : AuthorizedInvocation CreateArgs) → SameShape a a
    SameShape-refl (invocation f subs _) = (refl, SameSubs-refl subs)

    pub SameSubs-refl : (a : SubInvocations CreateArgs) → SameSubs a a
    SameSubs-refl SubInvocations.nil = tt
    SameSubs-refl (SubInvocations.cons i subs) = (SameShape-refl i, SameSubs-refl subs)

  mutual
    unfolding SameShape

    pub SameShape-trans :
        (a b c : AuthorizedInvocation CreateArgs) → SameShape a b → SameShape b c → SameShape a c
    SameShape-trans (invocation f x _) (invocation g y _) (invocation h z _) (p, s) (q, t) =
        (p ∙ q, SameSubs-trans x y z s t)

    SameSubs-trans :
        (a b c : SubInvocations CreateArgs) → SameSubs a b → SameSubs b c → SameSubs a c
    SameSubs-trans SubInvocations.nil SubInvocations.nil c s t = t
    SameSubs-trans SubInvocations.nil (SubInvocations.cons j y) c s t = absurd s
    SameSubs-trans (SubInvocations.cons i x) SubInvocations.nil c s t = absurd s
    SameSubs-trans (SubInvocations.cons i x) (SubInvocations.cons j y) SubInvocations.nil s t =
        absurd t
    SameSubs-trans (SubInvocations.cons i x) (SubInvocations.cons j y) (SubInvocations.cons k z)
          (p, s) (q, t) =
        (SameShape-trans i j k p q, SameSubs-trans x y z s t)

  mutual
    unfolding rollback flags SameShape

    -- Rolled back to the flags of a tree with its shape, a tree becomes that tree.
    pub rollback-flags :
        (a b : AuthorizedInvocation CreateArgs) → SameShape a b → rollback b (flags a) ≡ (ok tt, a)
    rollback-flags (invocation f x e) (invocation g y e') (p, s) =
        ground (arith, rollback_subs-flags_subs x y s, p)

    rollback_subs-flags_subs :
        (a b : SubInvocations CreateArgs)
        → SameSubs a b
        → (rollback_subs b (flags_subs a) ≡ (ok tt, a))
          × (count_subs b ≡ count_snapshots (flags_subs a))
    rollback_subs-flags_subs SubInvocations.nil SubInvocations.nil s = (refl, refl)
    rollback_subs-flags_subs SubInvocations.nil (SubInvocations.cons j y) s = absurd s
    rollback_subs-flags_subs (SubInvocations.cons i x) SubInvocations.nil s = absurd s
    rollback_subs-flags_subs (SubInvocations.cons i x) (SubInvocations.cons j y) (p, s) =
        ground (arith, rollback-flags i j p, rollback_subs-flags_subs x y s)

module _ {S CreateArgs : Type 0} (host : AuthHost S CreateArgs) where
  mutual
    unfolding snapshot flags

    -- A snapshot holds the flags of the tree.
    pub snapshot-Returns :
        (a : AuthorizedInvocation CreateArgs) (s : S) → Returns (flags a) (snapshot host a s)
    snapshot-Returns (invocation f subs exhausted) s =
        after_any (Returns (snapshot_of exhausted (flags_subs subs)))
          (λ _. snapshot_subs host subs >>= λ snaps. pure (snapshot_of exhausted snaps))
          (host.charge_collect (count_subs subs)) s (λ e p. tt)
          (λ u p.
            then_lem (snapshot_of exhausted) (flags_subs subs)
              (snapshot_subs host subs (host.charge_collect (count_subs subs) s).1)
              (snapshot_subs-Returns subs (host.charge_collect (count_subs subs) s).1))

    snapshot_subs-Returns :
        (a : SubInvocations CreateArgs) (s : S) → Returns (flags_subs a) (snapshot_subs host a s)
    snapshot_subs-Returns SubInvocations.nil s = refl
    snapshot_subs-Returns (SubInvocations.cons i subs) s =
        both_lem SubSnapshots.cons (flags i) (flags_subs subs) (snapshot host i s)
          (snapshot_subs host subs) (snapshot-Returns i s)
          (snapshot_subs-Returns subs (snapshot host i s).1)
