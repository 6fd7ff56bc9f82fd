-- ===== src/Webauthn/Store/Counted.antt =====
-- What the operations of linux-hello/src/webauthn/store.py keep of a credential's sign counter.
use linux_hello.Prelude.{
  ℕ, ◌+◌, ◌≤◌, ◌≡◌, ◌≢◌, ◌⊎◌, inl, inr, true, some, List, [], ◌∷◌, ◌++◌, arith, Bool-cases,
}
use linux_hello.Prelude.Bytes.{Bytes, same_bytes, same_bytes_refl, same_bytes_differ}
use linux_hello.Webauthn.Store.{
  Credential, Disk, absent, corrupt, stored, is_replaced, without_replaced, find_by_id, bump,
  without_id,
}

-- No credential has the id.
abbrev pub Lacks : Bytes → List Credential → Type 0
Lacks id [] = Unit
Lacks id (c ∷ cs) = (c.credential_id ≢ id) × Lacks id cs

-- At most one credential has the id, and its counter is at least `n`.
abbrev pub Counted : ℕ → Bytes → List Credential → Type 0
Counted n id [] = Unit
Counted n id (c ∷ cs) =
    ((c.credential_id ≡ id) × (n ≤ c.sign_count) × Lacks id cs)
    ⊎ ((c.credential_id ≢ id) × Counted n id cs)

abbrev pub CountedDisk : ℕ → Bytes → Disk → Type 0
CountedDisk n id absent = Unit
CountedDisk n id corrupt = Unit
CountedDisk n id (stored cs) = Counted n id cs

Lacks-Counted : (n : ℕ) (id : Bytes) (cs : List Credential) → Lacks id cs → Counted n id cs
Lacks-Counted n id [] h = tt
Lacks-Counted n id (c ∷ cs) h = inr (h.0, Lacks-Counted n id cs h.1)

-- What filters keep.
module _ (id : Bytes) where
  Lacks-without_replaced :
      (new : Credential) (cs : List Credential) → Lacks id cs → Lacks id (without_replaced new cs)
  unfolding without_replaced
  Lacks-without_replaced new [] h = tt
  Lacks-without_replaced new (c ∷ cs) h = elim (Bool-cases (is_replaced new c)) [
    | inl out ↦ rw out (Lacks-without_replaced new cs h.1)
    | inr stays ↦ rw stays (h.0, Lacks-without_replaced new cs h.1)
  ]

  pub Counted-without_replaced :
      (n : ℕ) (new : Credential) (cs : List Credential)
      → Counted n id cs
      → Counted n id (without_replaced new cs)
  unfolding without_replaced
  Counted-without_replaced n new [] h = tt
  Counted-without_replaced n new (c ∷ cs) h = elim (Bool-cases (is_replaced new c)) [
    | inl out ↦ rw out (elim h [
      | inl (_, _, lacks) ↦ Lacks-Counted n id _ (Lacks-without_replaced new cs lacks)
      | inr (_, rest) ↦ Counted-without_replaced n new cs rest
    ])
    | inr stays ↦ rw stays (elim h [
      | inl (same, count, lacks) ↦ inl (same, count, Lacks-without_replaced new cs lacks)
      | inr (other, rest) ↦ inr (other, Counted-without_replaced n new cs rest)
    ])
  ]

  Lacks-without_id :
      (gone : Bytes) (cs : List Credential) → Lacks id cs → Lacks id (without_id gone cs)
  unfolding without_id
  Lacks-without_id gone [] h = tt
  Lacks-without_id gone (c ∷ cs) h = elim (Bool-cases (same_bytes c.credential_id gone)) [
    | inl out ↦ rw out (Lacks-without_id gone cs h.1)
    | inr stays ↦ rw stays (h.0, Lacks-without_id gone cs h.1)
  ]

  pub Counted-without_id :
      (n : ℕ) (gone : Bytes) (cs : List Credential)
      → Counted n id cs
      → Counted n id (without_id gone cs)
  unfolding without_id
  Counted-without_id n gone [] h = tt
  Counted-without_id n gone (c ∷ cs) h = elim (Bool-cases (same_bytes c.credential_id gone)) [
    | inl out ↦ rw out (elim h [
      | inl (_, _, lacks) ↦ Lacks-Counted n id _ (Lacks-without_id gone cs lacks)
      | inr (_, rest) ↦ Counted-without_id n gone cs rest
    ])
    | inr stays ↦ rw stays (elim h [
      | inl (same, count, lacks) ↦ inl (same, count, Lacks-without_id gone cs lacks)
      | inr (other, rest) ↦ inr (other, Counted-without_id n gone cs rest)
    ])
  ]

  pub Counted-append :
      (n : ℕ) (new : Credential) (cs : List Credential)
      → new.credential_id ≢ id
      → Counted n id cs
      → Counted n id (cs ++ new ∷ [])
  Counted-append n new [] other h = inr (other, tt)
  Counted-append n new (c ∷ cs) other h = elim h [
    | inl (same, count, lacks) ↦ inl (same, count, Lacks-append cs lacks)
    | inr (differs, rest) ↦ inr (differs, Counted-append n new cs other rest)
  ]
    where
      Lacks-append : (ds : List Credential) → Lacks id ds → Lacks id (ds ++ new ∷ [])
      Lacks-append [] k = (other, tt)
      Lacks-append (d ∷ ds) k = (k.0, Lacks-append ds k.1)

  Lacks-bump : (at : Bytes) (cs : List Credential) → Lacks id cs → Lacks id (bump at cs)
  unfolding bump
  Lacks-bump at [] h = tt
  Lacks-bump at (c ∷ cs) h = elim (Bool-cases (same_bytes c.credential_id at)) [
    | inl hit ↦ rw hit h
    | inr miss ↦ rw miss (h.0, Lacks-bump at cs h.1)
  ]

  pub Counted-bump :
      (n : ℕ) (at : Bytes) (cs : List Credential) → Counted n id cs → Counted n id (bump at cs)
  unfolding bump
  Counted-bump n at [] h = tt
  Counted-bump n at (c ∷ cs) h = elim (Bool-cases (same_bytes c.credential_id at)) [
    | inl hit ↦ rw hit (elim h [
      | inl (same, count, lacks) ↦ inl (same, omega (arith, count), lacks)
      | inr (other, rest) ↦ inr (other, rest)
    ])
    | inr miss ↦ rw miss (elim h [
      | inl (same, count, lacks) ↦ inl (same, count, Lacks-bump at cs lacks)
      | inr (other, rest) ↦ inr (other, Counted-bump n at cs rest)
    ])
  ]

  -- The counter of the credential that is found is the one that counts.
  pub find_by_id-Counted :
      (n : ℕ) (cs : List Credential) (c : Credential)
      → Counted n id cs
      → find_by_id id cs ≡ some c
      → (n ≤ c.sign_count) × Counted (c.sign_count + 1) id (bump id cs)
  unfolding find_by_id bump
  find_by_id-Counted n [] c h e = cc e
  find_by_id-Counted n (d ∷ ds) c h e = elim h [
    | inl (same, count, lacks) ↦
        let hit : same_bytes d.credential_id id ≡ true = rw same (same_bytes_refl id) in
        let there : some d ≡ some c = rw hit at e in
        let same_one : d ≡ c = cc there in
        rw (← same_one) (count, rw hit (inl (same, omega arith, lacks)))
    | inr (other, rest) ↦
        let miss = same_bytes_differ d.credential_id id other in
        let there : find_by_id id ds ≡ some c = rw miss at e in
        let below = find_by_id-Counted n ds c rest there in
        (below.0, rw miss (inr (other, below.1)))
  ]
