-- ===== src/Webauthn/Store/Counters.antt =====
-- The sign counters that processes sharing one file are given (linux-hello/src/webauthn/store.py).
use linux_hello.Prelude.{
  ℕ, ◌+◌, ◌<◌, ◌≡◌, ◌≢◌, refl, inl, inr, Option, none, some, List, [], ◌∷◌, ◌++◌, arith, ◌==◌,
  if◌then◌else◌, length, Bool-cases,
}
use linux_hello.Prelude.Bytes.{Bytes, same_bytes, same_bytes_sound}
use linux_hello.Webauthn.Store.{
  Credential, Disk, absent, corrupt, stored, Answer, ok, store_error, load, save, without_replaced,
  add, find_by_id, bump, bump_found, increment_counter, without_id, remove, destroy_all,
}
use linux_hello.Webauthn.Store.Counted.{
  Counted, CountedDisk, Counted-without_replaced, Counted-without_id, Counted-append, Counted-bump,
  find_by_id-Counted,
}

-- What a process that uses the file may do: another object of the class in the same process or in
-- another one has read what it has read.
pub data Call : Type 0 where
  loads : Call
  adds : Credential → Call
  increments : Bytes → Call
  removes : Bytes → Call
  destroys : Call

abbrev pub counted_value : Bytes → Bytes → Answer ℕ → List ℕ
counted_value id at store_error = []
counted_value id at (ok n) = if same_bytes at id then n ∷ [] else []

-- One call by a process that has read `cs`: the file after it, and the counter that it was given for
-- the credential `id`, if it was.
unfoldable pub call : Bytes → Call → List Credential → Disk → Disk × List ℕ
call id loads cs d = ((load (record { disk = d; credentials = cs })).0.disk, [])
call id (adds new) cs d = ((add new (record { disk = d; credentials = cs })).0.disk, [])
call id (increments at) cs d =
    let (s, answer) = increment_counter at (record { disk = d; credentials = cs }) in
    (s.disk, counted_value id at answer)
call id (removes at) cs d = ((remove at (record { disk = d; credentials = cs })).0.disk, [])
call id destroys cs d = ((destroy_all (record { disk = d; credentials = cs })).disk, [])

-- The counters that a sequence of calls gives out for the credential.
unfoldable pub counters : Bytes → List (List Credential × Call) → Disk → List ℕ
counters id [] d = []
counters id ((cs, c) ∷ rest) d = let (d', given) = call id c cs d in given ++ counters id rest d'

-- Each above the one before, the first above `n`.
abbrev pub Above : ℕ → List ℕ → Type 0
Above n [] = Unit
Above n (m ∷ ms) = (n < m) × Above m ms

abbrev pub OtherId : Bytes → Call → Type 0
OtherId id (adds new) = new.credential_id ≢ id
OtherId id _ = Unit

abbrev pub OtherIds : Bytes → List (List Credential × Call) → Type 0
OtherIds id [] = Unit
OtherIds id ((cs, c) ∷ rest) = OtherId id c × OtherIds id rest

module _ (id : Bytes) where
  load-Counted :
      (n : ℕ) (cs : List Credential) (d : Disk)
      → CountedDisk n id d
      → CountedDisk n id ((load (record { disk = d; credentials = cs })).0.disk)
  unfolding load
  load-Counted n cs absent h = tt
  load-Counted n cs corrupt h = tt
  load-Counted n cs (stored ds) h = h

  destroy_all-Counted :
      (n : ℕ) (cs : List Credential) (d : Disk)
      → CountedDisk n id ((destroy_all (record { disk = d; credentials = cs })).disk)
  unfolding destroy_all
  destroy_all-Counted n cs d = tt

  add-Counted :
      (n : ℕ) (new : Credential) (cs : List Credential) (d : Disk)
      → new.credential_id ≢ id
      → CountedDisk n id d
      → CountedDisk n id ((add new (record { disk = d; credentials = cs })).0.disk)
  unfolding add save without_replaced
  add-Counted n new cs absent other h = inr (other, tt)
  add-Counted n new cs corrupt other h = tt
  add-Counted n new cs (stored ds) other h =
      Counted-append id n new _ other (Counted-without_replaced id n new ds h)

  remove-Counted :
      (n : ℕ) (at : Bytes) (cs : List Credential) (d : Disk)
      → CountedDisk n id d
      → CountedDisk n id ((remove at (record { disk = d; credentials = cs })).0.disk)
  unfolding remove save without_id
  remove-Counted n at cs absent h = tt
  remove-Counted n at cs corrupt h = tt
  remove-Counted n at cs (stored ds) h =
      elim (Bool-cases (length (without_id at ds) == length ds)) [
        | inl same ↦ rw same h
        | inr fewer ↦ rw fewer (Counted-without_id id n at ds h)
      ]

  bump_found-Above :
      (n : ℕ) (at : Bytes) (ds : List Credential) (rest : Disk → List ℕ) (o : Option Credential)
      → ((m : ℕ) (d' : Disk) → CountedDisk m id d' → Above m (rest d'))
      → Counted n id ds
      → find_by_id at ds ≡ o
      → let (s, answer) = bump_found at o (record { disk = stored ds; credentials = ds }) in
        Above n (counted_value id at answer ++ rest s.disk)
  unfolding save
  bump_found-Above n at ds rest none k h e = k n (stored ds) h
  bump_found-Above n at ds rest (some c) k h e = elim (Bool-cases (same_bytes at id)) [
    | inl same ↦
        let this : at ≡ id = same_bytes_sound at id same in
        let there : find_by_id id ds ≡ some c = rw this at e in
        let next = find_by_id-Counted id n ds c h there in
        rw same (omega (arith, next.0), k (c.sign_count + 1) (stored (bump at ds)) (rw this next.1))
    | inr other ↦ rw other (k n (stored (bump at ds)) (Counted-bump id n at ds h))
  ]

  increment-Counted :
      (n : ℕ) (at : Bytes) (cs : List Credential) (d : Disk) (rest : Disk → List ℕ)
      → ((m : ℕ) (d' : Disk) → CountedDisk m id d' → Above m (rest d'))
      → CountedDisk n id d
      → let (d', given) = call id (increments at) cs d in Above n (given ++ rest d')
  unfolding call increment_counter find_by_id
  increment-Counted n at cs absent rest k h = k n absent tt
  increment-Counted n at cs corrupt rest k h = k n corrupt h
  increment-Counted n at cs (stored ds) rest k h =
      bump_found-Above n at ds rest (find_by_id at ds) k h refl

-- The counters that a credential's assertions are given rise strictly, whoever loads, adds, counts,
-- removes or destroys credentials in the file in between; the first is above the one stored at the
-- start. At most one credential has the id, and none is added with the id.
pub counters-Above :
    (n : ℕ) (id : Bytes) (calls : List (List Credential × Call)) (d : Disk)
    → CountedDisk n id d
    → OtherIds id calls
    → Above n (counters id calls d)
unfolding counters call
counters-Above n id [] d h o = tt
counters-Above n id ((cs, increments at) ∷ rest) d h o =
    increment-Counted id n at cs d (counters id rest) (λ m d' k. counters-Above m id rest d' k o.1)
      h
counters-Above n id ((cs, adds new) ∷ rest) d h o =
    counters-Above n id rest _ (add-Counted id n new cs d o.0 h) o.1
counters-Above n id ((cs, removes at) ∷ rest) d h o =
    counters-Above n id rest _ (remove-Counted id n at cs d h) o.1
counters-Above n id ((cs, loads) ∷ rest) d h o =
    counters-Above n id rest _ (load-Counted id n cs d h) o.1
counters-Above n id ((cs, destroys) ∷ rest) d h o =
    counters-Above n id rest _ (destroy_all-Counted id n cs d) o.1
