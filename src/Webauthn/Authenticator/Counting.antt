-- ===== src/Webauthn/Authenticator/Counting.antt =====
-- The counter of an assertion against the store's file (`_assert_credential` of
-- linux-hello/src/webauthn/authenticator.py).
use linux_hello.Prelude.{
  ℕ, ◌+◌, ◌≡◌, ◌≢◌, ◌∙◌, refl, sym, ap, inl, inr, Bool, true, false, Option, none, some, List, [],
  ◌∷◌, Bool-cases, if_cases, if◌then◌else◌,
}
use linux_hello.Prelude.Bytes.{Bytes, same_bytes, same_bytes_sound, same_bytes_differ}
use linux_hello.Webauthn.Store.{
  Credential, Disk, absent, corrupt, stored, Store, Answer, ok, store_error, find_by_id, bump,
  bump_found, increment_counter, save,
}
use linux_hello.Webauthn.Authenticator.{answers, AuthData, Keystore, User, Response, Authenticator}
use linux_hello.Webauthn.Authenticator.Assertion.{signed, counted_assertion, assert_credential}

-- The file had the credential, and now has it with its counter raised by one, which is what the response says;
-- what it says of every other id is the same. A face was verified.
pub record IsCounted {S : Type 0} (before after : Disk) (c : Credential) (r : Response S)
    : Type 0 where
  pub old : List Credential
  pub new : List Credential
  pub found : Credential
  pub read : before ≡ stored old
  pub is_found : find_by_id c.credential_id old ≡ some found
  pub written : after ≡ stored new
  pub found_after :
      find_by_id c.credential_id new ≡ some (record found { sign_count = found.sign_count + 1 })
  pub others : (id : Bytes) → c.credential_id ≢ id → find_by_id id new ≡ find_by_id id old
  pub says : r.auth_data.sign_count ≡ found.sign_count + 1
  pub of_credential : r.credential_id ≡ c.credential_id
  pub verified : r.auth_data.user_verified ≡ true

find-bump_self :
    (id : Bytes) (cs : List Credential) (found : Credential)
    → find_by_id id cs ≡ some found
    → find_by_id id (bump id cs) ≡ some (record found { sign_count = found.sign_count + 1 })
unfolding find_by_id bump
find-bump_self id [] found e = cc e
find-bump_self id (c ∷ cs) found e = elim (Bool-cases (same_bytes c.credential_id id)) [
  | inl same ↦
      let is_first : some c ≡ some found = rw same at e in
      let first : c ≡ found = cc is_first in
      rw (same, same)
        (ap (λ (d : Credential). some (record d { sign_count = d.sign_count + 1 })) first)
  | inr other ↦
      let later : find_by_id id cs ≡ some found = rw other at e in
      rw (other, other) (find-bump_self id cs found later)
]

find-bump_other :
    (id other : Bytes) (cs : List Credential)
    → id ≢ other
    → find_by_id other (bump id cs) ≡ find_by_id other cs
unfolding find_by_id bump
find-bump_other id other [] n = refl
find-bump_other id other (c ∷ cs) n = elim (Bool-cases (same_bytes c.credential_id id)) [
  | inl same ↦
      let first : c.credential_id ≡ id = same_bytes_sound c.credential_id id same in
      let differs : same_bytes c.credential_id other ≡ false =
        same_bytes_differ c.credential_id other (λ e. n (sym first ∙ e)) in
      rw (same, differs) refl
  | inr miss ↦ rw miss (
      if_cases
        (λ (o : Option Credential).
          (if same_bytes c.credential_id other then some c else find_by_id other (bump id cs)) ≡ o)
        (same_bytes c.credential_id other) (some c) (find_by_id other cs) (λ e. rw e refl)
        (λ e. rw e (find-bump_other id other cs n)))
]

signed-auth :
    {S : Type 0} (c : Credential) (auth : AuthData) (user : Option User) (total : Option ℕ)
    (o : Option S) (r : Response S)
    → signed c auth user total o ≡ answers r
    → (r.auth_data ≡ auth) × (r.credential_id ≡ c.credential_id)
signed-auth c auth user total none r e = cc e
signed-auth {S} c auth user total (some signature) r e =
    let same : record {
      credential_id = c.credential_id;
      auth_data = auth;
      signature = signature;
      user = user;
      total = total;
    }
        ≡ r =
      cc e in
    (
      ap (λ (x : Response S). x.auth_data) (sym same),
      ap (λ (x : Response S). x.credential_id) (sym same),
    )

module _ {K S : Type 0} (ks : Keystore K S) (hash : Bytes) (discoverable : Bool) (total : ℕ)
    (c : Credential) (a : Authenticator K S) where
  bump_found-IsCounted :
      (cs : List Credential) (before : Disk) (o : Option Credential) (r : Response S)
      → before ≡ stored cs
      → find_by_id c.credential_id cs ≡ o
      → let next = bump_found c.credential_id o (record { disk = before; credentials = cs }) in
        (counted_assertion ks c hash discoverable total next a).1 ≡ answers r
        → IsCounted before next.0.disk c r
  unfolding counted_assertion save
  bump_found-IsCounted cs before none r b f e = cc e
  bump_found-IsCounted cs before (some d) r b f e =
      let (same_auth, same_id) = signed-auth c _ _ _ _ r e in
      record {
        old = cs;
        new = bump c.credential_id cs;
        found = d;
        read = b;
        is_found = f;
        written = refl;
        found_after = find-bump_self c.credential_id cs d f;
        others = λ id n. find-bump_other c.credential_id id cs n;
        says = ap (λ (x : AuthData). x.sign_count) same_auth;
        of_credential = same_id;
        verified = ap (λ (x : AuthData). x.user_verified) same_auth;
      }

  increment-IsCounted :
      (d : Disk) (memory : List Credential) (r : Response S)
      → let next = increment_counter c.credential_id (record { disk = d; credentials = memory }) in
        (counted_assertion ks c hash discoverable total next a).1 ≡ answers r
        → IsCounted d next.0.disk c r
  unfolding increment_counter counted_assertion find_by_id
  increment-IsCounted absent memory r h = cc h
  increment-IsCounted corrupt memory r h = cc h
  increment-IsCounted (stored cs) memory r h =
      bump_found-IsCounted cs (stored cs) (find_by_id c.credential_id cs) r refl refl h

  counted_assertion-disk :
      (next : Store × Answer ℕ)
      → (counted_assertion ks c hash discoverable total next a).0.store.disk ≡ next.0.disk
  unfolding counted_assertion
  counted_assertion-disk (s, store_error) = refl
  counted_assertion-disk (s, ok count) = refl

  -- An assertion that `_assert_credential` answers with is of its credential, says that the user was verified, and
  -- has the counter of the file raised by one; looking the credential up in the file as it is left gives it
  -- with that counter, and looking another id up gives what it gave.
  pub assert_credential-IsCounted :
      (r : Response S)
      → (assert_credential ks hash discoverable total c a).1 ≡ answers r
      → IsCounted a.store.disk (assert_credential ks hash discoverable total c a).0.store.disk c r
  unfolding assert_credential
  assert_credential-IsCounted r h =
      rw (counted_assertion-disk (increment_counter c.credential_id a.store))
        (increment-IsCounted a.store.disk a.store.credentials r h)
