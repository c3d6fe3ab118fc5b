-- ===== src/Auth/Account/Nonce.antt =====
-- What the verification of a nonce checks and stores.
use rs_soroban_env.Prelude.{
  ℕ, max, ◌≤◌, ◌≡◌, refl, sym, ap, Bool, Bool-cases, true, false, ltb, if◌then◌else◌, inl, inr,
  Option, none, some, arith,
}
use rs_soroban_env.Prelude.Int.{ℤ}
use rs_soroban_env.Errors.{Result, ok, err}
use rs_soroban_env.Errors.Exec.{Exec, ◌>>=◌, ◌>>◌, pure, lift}
use rs_soroban_env.Errors.Kept.{after_any}
use rs_soroban_env.Storage.Ledger.{
  LedgerInfo, temporary, max_live_until_ledger, get_min_live_until_ledger,
}
use rs_soroban_env.Auth.Account.{
  AccountAuthorizationTracker, AccountHost, ScAddress, beside, bind_ledger, store_nonce,
  consume_nonce, check_latest, check_expiration, verify_nonce, verify_and_consume_nonce,
}

ltb_false→le : (a b : ℕ) → ltb a b ≡ false → b ≤ a
ltb_false→le a b h = ground arith

module _ {M S CreateArgs : Type 0} (host : AccountHost M S CreateArgs) where
  -- A nonce of the address that had no entry has one now, which lives at least as long as the signature.
  pub record Stored (address : ℕ) (nonce : ℤ) (live_until_ledger : ℕ) (after : M × S) : Type 0 where
    pub sc_address : ScAddress
    pub resolved_at : M × S
    pub resolved : (host.scaddress_from_address address resolved_at).0 ≡ ok sc_address
    pub key : ℕ
    pub keyed_at : M × S
    pub keyed : (host.storage_key_for_address sc_address nonce keyed_at).0 ≡ ok key
    pub looked_at : M × S
    pub absent : (host.has key looked_at).0 ≡ ok false
    pub live_until : ℕ
    pub covers : live_until_ledger ≤ live_until
    pub stored_at : M × S
    pub stored : host.put key live_until stored_at ≡ (ok tt, after)

  -- The signature has not expired, and its expiration is not later than an entry may live.
  pub record Timely (live_until_ledger : ℕ) (s : M × S) : Type 0 where
    pub ledger : LedgerInfo
    pub read : host.ledger_info s ≡ ok ledger
    pub latest : ℕ
    pub bounded : max_live_until_ledger ledger ≡ ok latest
    pub not_expired : ledger.sequence_number ≤ live_until_ledger
    pub not_late : live_until_ledger ≤ latest

  abbrev pub IfStored : ℕ → ℤ → ℕ → Result (Unit {0}) × (M × S) → Type 0
  IfStored address nonce l (ok _, s) = Stored address nonce l s
  IfStored address nonce l (err _, s) = Unit

  put_lem :
      (address : ℕ) (nonce : ℤ) (l : ℕ) (sc : ScAddress) (key live : ℕ) (s₀ s₁ s₂ s₃ : M × S)
      → (host.scaddress_from_address address s₀).0 ≡ ok sc
      → (host.storage_key_for_address sc nonce s₁).0 ≡ ok key
      → (host.has key s₂).0 ≡ ok false
      → l ≤ live
      → (out : Result (Unit {0}) × (M × S)) → host.put key live s₃ ≡ out
      → IfStored address nonce l out
  put_lem address nonce l sc key live s₀ s₁ s₂ s₃ o p q n (err e, s) h = tt
  put_lem address nonce l sc key live s₀ s₁ s₂ s₃ o p q n (ok u, s) h = record {
    sc_address = sc;
    resolved_at = s₀;
    resolved = o;
    key = key;
    keyed_at = s₁;
    keyed = p;
    looked_at = s₂;
    absent = q;
    live_until = live;
    covers = n;
    stored_at = s₃;
    stored = h;
  }

  store_nonce-IfStored :
      (address : ℕ) (nonce : ℤ) (l : ℕ) (sc : ScAddress) (key live : ℕ) (s₀ s₁ s₂ : M × S)
      (found : Bool) (s : M × S)
      → (host.scaddress_from_address address s₀).0 ≡ ok sc
      → (host.storage_key_for_address sc nonce s₁).0 ≡ ok key
      → (host.has key s₂).0 ≡ ok found
      → l ≤ live
      → IfStored address nonce l (store_nonce host key live found s)
  unfolding store_nonce
  store_nonce-IfStored address nonce l sc key live s₀ s₁ s₂ true s o p q n = tt
  store_nonce-IfStored address nonce l sc key live s₀ s₁ s₂ false s o p q n =
      after_any (IfStored address nonce l) (λ _. host.put key live) host.charge_entry s (λ e h. tt)
        (λ u h. put_lem address nonce l sc key live s₀ s₁ s₂ _ o p q n _ refl)

  least_live_until : Exec (M × S) ℕ
  least_live_until =
      lift (λ s. bind_ledger (host.ledger_info s) (λ li. get_min_live_until_ledger li temporary))

  look_up-IfStored :
      (address : ℕ) (nonce : ℤ) (l : ℕ) (sc : ScAddress) (s₀ s : M × S)
      → (host.scaddress_from_address address s₀).0 ≡ ok sc
      → IfStored address nonce l (
          (host.storage_key_for_address sc nonce >>= λ key.
          least_live_until >>= λ m. host.has key >>= store_nonce host key (max l m))
            s)
  look_up-IfStored address nonce l sc s₀ s o =
      let P = IfStored address nonce l in
      let look = λ (key : ℕ) (m : ℕ). host.has key >>= store_nonce host key (max l m) in
      after_any P (λ key. least_live_until >>= look key) (host.storage_key_for_address sc nonce) s
        (λ e h. tt)
        (λ key h.
          after_any P (look key) least_live_until _ (λ e h₁. tt)
            (λ m h₁.
              after_any P (store_nonce host key (max l m)) (host.has key) _ (λ e h₂. tt)
                (λ found h₂.
                  store_nonce-IfStored address nonce l sc key (max l m) s₀ s _ found _ o h h₂
                    (omega arith))))

  -- A nonce that is consumed had no entry, and has one for as long as its signature may be used.
  pub consume_nonce-IfStored :
      (address : ℕ) (nonce : ℤ) (l : ℕ) (s : M × S)
      → IfStored address nonce l (consume_nonce host address nonce l s)
  unfolding consume_nonce least_live_until
  consume_nonce-IfStored address nonce l s =
      let P = IfStored address nonce l in
      let charges = beside host.auth_host.charge_clone >> beside host.auth_host.charge_clone in
      let keyed = λ (sc : ScAddress). host.storage_key_for_address sc nonce >>= λ key.
      least_live_until >>= λ m. host.has key >>= store_nonce host key (max l m) in
      after_any P (λ sc. charges >> keyed sc) (host.scaddress_from_address address) s (λ e h. tt)
        (λ sc h.
          after_any P (λ u. keyed sc) charges _ (λ e h₁. tt)
            (λ u h₁. look_up-IfStored address nonce l sc s _ h))

  -- What lets a tracker be used: it is of the transaction's source account, or its signature is timely
  -- and its nonce is stored for the first time.
  pub data Usable (t : AccountAuthorizationTracker CreateArgs) (s after : M × S) : Type 0 where
    source_account : t.is_transaction_source_account ≡ true → Usable t s after
    nonce_stored :
        (nonce : ℤ) (l : ℕ)
        → t.nonce ≡ some (nonce, l)
        → Timely l s
        → Stored t.address nonce l after
        → Usable t s after

  abbrev pub IfUsable :
      AccountAuthorizationTracker CreateArgs → M × S → Result (Unit {0}) × (M × S) → Type 0
  IfUsable t s (ok _, after) = Usable t s after
  IfUsable t s (err _, after) = Unit

  abbrev pub IfTimely : ℕ → M × S → Result (Unit {0}) × (M × S) → Type 0
  IfTimely l s (ok _, after) = Timely l s
  IfTimely l s (err _, after) = Unit

  check_latest-IfTimely :
      (l : ℕ) (s : M × S) (li : LedgerInfo) (latest : Result ℕ)
      → host.ledger_info s ≡ ok li
      → max_live_until_ledger li ≡ latest
      → li.sequence_number ≤ l
      → IfTimely l s (((λ _. (latest, s)) >>= check_latest host l) s)
  unfolding check_latest
  check_latest-IfTimely l s li (err e) p q n = tt
  check_latest-IfTimely l s li (ok m) p q n = elim (Bool-cases (ltb m l)) [
    | inl e ↦ rw e tt
    | inr e ↦ rw e (record {
      ledger = li;
      read = p;
      latest = m;
      bounded = q;
      not_expired = n;
      not_late = omega (arith, ltb_false→le m l e);
    })
  ]

  check_expiration-IfTimely :
      (l : ℕ) (s : M × S) (li : LedgerInfo)
      → host.ledger_info s ≡ ok li
      → IfTimely l s (check_expiration host l li s)
  unfolding check_expiration
  check_expiration-IfTimely l s li p = elim (Bool-cases (ltb l li.sequence_number)) [
    | inl e ↦ rw e tt
    | inr e ↦ rw e (
        check_latest-IfTimely l s li (bind_ledger (host.ledger_info s) max_live_until_ledger) p
          (sym (ap (λ r. bind_ledger r max_live_until_ledger) p))
          (ltb_false→le l li.sequence_number e))
  ]

  checked-IfTimely :
      (l : ℕ) (s : M × S) (read : Result LedgerInfo)
      → host.ledger_info s ≡ read
      → IfTimely l s (((λ _. (read, s)) >>= check_expiration host l) s)
  checked-IfTimely l s (err e) p = tt
  checked-IfTimely l s (ok li) p = check_expiration-IfTimely l s li p

  IfStored-IfUsable :
      (t : AccountAuthorizationTracker CreateArgs) (nonce : ℤ) (l : ℕ) (s : M × S)
      → t.nonce ≡ some (nonce, l)
      → Timely l s
      → (out : Result (Unit {0}) × (M × S)) → IfStored t.address nonce l out
      → IfUsable t s out
  IfStored-IfUsable t nonce l s e timely (ok u, after) h = nonce_stored nonce l e timely h
  IfStored-IfUsable t nonce l s e timely (err x, after) h = tt

  IfTimely-Timely :
      (l : ℕ) (s : M × S) (out : Result (Unit {0}) × (M × S)) (u : Unit {0})
      → IfTimely l s out
      → out.0 ≡ ok u
      → Timely l s
  IfTimely-Timely l s (ok v, after) u h e = h
  IfTimely-Timely l s (err x, after) u h e = absurd (cc)

  verify_nonce-IfUsable :
      (t : AccountAuthorizationTracker CreateArgs) (nonce : Option (ℤ × ℕ)) (s : M × S)
      → t.nonce ≡ nonce
      → IfUsable t s (verify_nonce host t.address nonce s)
  unfolding verify_nonce
  verify_nonce-IfUsable t none s e = tt
  verify_nonce-IfUsable t (some (nonce, l)) s e =
      let P = IfUsable t s in
      let consumed = λ (u : Unit {0}). consume_nonce host t.address nonce l in
      after_any P consumed (lift host.ledger_info >>= check_expiration host l) s (λ x h. tt)
        (λ u h.
          IfStored-IfUsable t nonce l s e
            (IfTimely-Timely l s _ u (checked-IfTimely l s (host.ledger_info s) refl) h) _
            (consume_nonce-IfStored t.address nonce l _))

  by_source :
      (t : AccountAuthorizationTracker CreateArgs) (s : M × S) (source : Bool)
      → t.is_transaction_source_account ≡ source
      → IfUsable t s ((if source then pure tt else verify_nonce host t.address t.nonce) s)
  by_source t s true e = source_account e
  by_source t s false e = verify_nonce-IfUsable t t.nonce s refl

  -- A tracker whose nonce is verified and consumed may be used.
  pub verify_and_consume_nonce-IfUsable :
      (t : AccountAuthorizationTracker CreateArgs) (s : M × S)
      → IfUsable t s (verify_and_consume_nonce host t s)
  unfolding verify_and_consume_nonce
  verify_and_consume_nonce-IfUsable t s = by_source t s t.is_transaction_source_account refl
