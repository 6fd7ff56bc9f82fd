-- ===== src/Webauthn/Authenticator/Gate.antt =====
-- Commands whose face check does not succeed (linux-hello/src/webauthn/authenticator.py).
use Prim.Native.String.{String}
use linux_hello.Prelude.{
  ℕ, ◌+◌, ◌≡◌, ◌≢◌, refl, inl, inr, Bool, true, false, not, Option, none, some, List, [], ◌∷◌,
  if◌then◌else◌, ltb, Bool-cases,
}
use linux_hello.Prelude.Bytes.{Bytes}
use linux_hello.Daemon.Results.{VerificationResult, success}
use linux_hello.Daemon.Manager.{or_else}
use linux_hello.Webauthn.Store.{Credential}
use linux_hello.Webauthn.Authenticator.{
  CtapError, Reply, answers, fails, AuthData, Keystore, User, Authenticator, reset_window,
  after_verify, is_success, is_pin_probe, reset, selection, verification_error,
}
use linux_hello.Webauthn.Authenticator.Commands.{
  Command, makes_credential, gets_assertion, gets_next_assertion, resets, selects, Output,
  attestation, assertion, nothing, output, handle,
}
use linux_hello.Webauthn.Authenticator.Assertion.{
  AssertionRequest, is_silent, silent_assertion, signed, answer_found, checked_assertion,
  get_assertion,
}
use linux_hello.Webauthn.Authenticator.Registration.{
  CredentialRequest, RelyingParty, UserEntity, KeyParam, Attestation, is_user_id, is_up_refused,
  has_es256, is_protection, is_excluded, with_names, with_maps, make_credential,
}

is_success-refused : (face : VerificationResult) → face ≢ success → is_success face ≡ false
is_success-refused success h = absurd (h refl)
is_success-refused _ h = refl

-- A failed check leaves the state alone, and its error is the answer.
pub after_verify-refused {ℓ} :
    {A : Type ℓ} {T : Type 0} (face : VerificationResult) (a : T) (next : T × Reply A)
    → face ≢ success
    → after_verify face a next ≡ (a, fails (verification_error face))
unfolding after_verify
after_verify-refused face a next h = rw (is_success-refused face h) refl

-- No answer, or one that claims neither that a user was there nor that the user was verified.
abbrev pub IsUnverified : {S : Type 0} → Reply (Output S) → Type 0
IsUnverified (fails e) = Unit
IsUnverified (answers (attestation r)) = ⊥
IsUnverified (answers (assertion r)) =
    (r.auth_data.user_present ≡ false) × (r.auth_data.user_verified ≡ false)
IsUnverified (answers (nothing _)) = ⊥

module _ {K S : Type 0} where
  -- A step that changes nothing and verifies nobody.
  pub record Refuses (a : Authenticator K S) (next : Authenticator K S × Reply (Output S))
      : Type 0 where
    pub same : next.0 ≡ a
    pub unverified : IsUnverified next.1

  signed-Refuses :
      (a : Authenticator K S) (c : Credential) (auth : AuthData) (user : Option User)
      (total : Option ℕ) (o : Option S)
      → auth.user_present ≡ false
      → auth.user_verified ≡ false
      → Refuses a (output assertion (a, signed c auth user total o))
  signed-Refuses a c auth user total none p v = record { same = refl; unverified = tt }
  signed-Refuses a c auth user total (some signature) p v = record {
    same = refl;
    unverified = (p, v);
  }

  refused :
      {A : Type 0} (f : A → Output S) (face : VerificationResult) (a : Authenticator K S)
      (next : Authenticator K S × Reply A)
      → face ≢ success
      → Refuses a (output f (after_verify face a next))
  refused f face a next h =
      rw (after_verify-refused face a next h) (record { same = refl; unverified = tt })

  found-Refuses :
      (ks : Keystore K S) (now : ℕ) (face : VerificationResult) (r : AssertionRequest)
      (hash : Bytes) (cs : List Credential) (a : Authenticator K S)
      → face ≢ success
      → Refuses a (output assertion (answer_found ks now face r hash cs a))
  unfolding answer_found silent_assertion
  found-Refuses ks now face r hash [] a h = record { same = refl; unverified = tt }
  found-Refuses ks now face r hash (c ∷ cs) a h = elim (Bool-cases (is_silent r.up)) [
    | inl silent ↦ rw silent (signed-Refuses a c _ none none _ refl refl)
    | inr loud ↦ rw loud (refused assertion face a _ h)
  ]

  checked-Refuses :
      (ks : Keystore K S) (now : ℕ) (face : VerificationResult) (r : AssertionRequest)
      (rp_id : Option String) (hash : Option Bytes) (a : Authenticator K S)
      → face ≢ success
      → Refuses a (output assertion (checked_assertion ks now face r rp_id hash a))
  unfolding checked_assertion
  checked-Refuses ks now face r none hash a h = record { same = refl; unverified = tt }
  checked-Refuses ks now face r (some rp_id) none a h = record { same = refl; unverified = tt }
  checked-Refuses ks now face r (some rp_id) (some hash) a h =
      elim (Bool-cases (is_pin_probe r.pin_uv_auth_param)) [
        | inl probe ↦ rw probe (record { same = refl; unverified = tt })
        | inr asks ↦ rw asks (found-Refuses ks now face r hash _ a h)
      ]

  if-Refuses :
      (b : Bool) (a : Authenticator K S) (x y : Authenticator K S × Reply (Attestation S))
      → Refuses a (output attestation x)
      → Refuses a (output attestation y)
      → Refuses a (output attestation (if b then x else y))
  if-Refuses true a x y h k = h
  if-Refuses false a x y h k = k

  fails-Refuses :
      (e : CtapError) (a : Authenticator K S)
      → Refuses a (output {A = Attestation S} attestation (a, fails e))
  fails-Refuses e a = record { same = refl; unverified = tt }

  names-Refuses :
      (ks : Keystore K S) (id : Bytes) (now : ℕ) (face : VerificationResult) (r : CredentialRequest)
      (hash : Bytes) (rp : RelyingParty) (user : UserEntity) (params : List KeyParam)
      (rp_id : Option String) (user_id : Option Bytes) (a : Authenticator K S)
      → face ≢ success
      → Refuses a
          (output attestation (with_names ks id now face r hash rp user params rp_id user_id a))
  unfolding with_names
  names-Refuses ks id now face r hash rp user params none user_id a h = record {
    same = refl;
    unverified = tt;
  }
  names-Refuses ks id now face r hash rp user params (some rp_id) none a h = record {
    same = refl;
    unverified = tt;
  }
  names-Refuses ks id now face r hash rp user params (some rp_id) (some user_id) a h =
      let no = λ (e : CtapError). fails-Refuses e a in
      if-Refuses (not (is_user_id user_id)) a _ _ (no _) (
        if-Refuses (is_up_refused r.up) a _ _ (no _) (
          if-Refuses (not (has_es256 params)) a _ _ (no _) (
            if-Refuses (not (is_protection (or_else r.cred_protect 1))) a _ _ (no _) (
              if-Refuses (is_excluded rp_id a.store.credentials r.exclude_list) a _ _
                (refused attestation face a _ h) (refused attestation face a _ h)))))

  maps-Refuses :
      (ks : Keystore K S) (id : Bytes) (now : ℕ) (face : VerificationResult) (r : CredentialRequest)
      (hash : Option Bytes) (rp : Option RelyingParty) (user : Option UserEntity)
      (params : Option (List KeyParam)) (a : Authenticator K S)
      → face ≢ success
      → Refuses a (output attestation (with_maps ks id now face r hash rp user params a))
  unfolding with_maps
  maps-Refuses ks id now face r none rp user params a h = record { same = refl; unverified = tt }
  maps-Refuses ks id now face r (some hash) none user params a h = record {
    same = refl;
    unverified = tt;
  }
  maps-Refuses ks id now face r (some hash) (some rp) none params a h = record {
    same = refl;
    unverified = tt;
  }
  maps-Refuses ks id now face r (some hash) (some rp) (some user) none a h = record {
    same = refl;
    unverified = tt;
  }
  maps-Refuses ks id now face r (some hash) (some rp) (some user) (some params) a h =
      if-Refuses (is_pin_probe r.pin_uv_auth_param) a _ _ (record { same = refl; unverified = tt })
        (names-Refuses ks id now face r hash rp user params rp.id user.id a h)

  reset-Refuses :
      (ks : Keystore K S) (now : ℕ) (face : VerificationResult) (a : Authenticator K S)
      → face ≢ success
      → Refuses a (output nothing (reset ks now face a))
  unfolding reset
  reset-Refuses ks now face a h = elim (Bool-cases (ltb (a.started + reset_window) now)) [
    | inl late ↦ rw late (record { same = refl; unverified = tt })
    | inr soon ↦ rw soon (refused nothing face a _ h)
  ]

  -- When the face check does not succeed, no command but the one for a further assertion changes the
  -- credentials, the keys or the pending assertions, and none answers with a registration, a
  -- reset, a selection, or an assertion that claims that a user was present or verified.
  pub handle-Refuses :
      (ks : Keystore K S) (now : ℕ) (face : VerificationResult) (command : Command)
      (a : Authenticator K S)
      → face ≢ success
      → command ≢ gets_next_assertion
      → Refuses a (handle ks now face command a)
  unfolding handle make_credential get_assertion selection
  handle-Refuses ks now face (makes_credential id r) a h n =
      maps-Refuses ks id now face r r.client_data_hash r.rp r.user r.key_params a h
  handle-Refuses ks now face (gets_assertion r) a h n =
      checked-Refuses ks now face r r.rp_id r.client_data_hash a h
  handle-Refuses ks now face gets_next_assertion a h n = absurd (n refl)
  handle-Refuses ks now face resets a h n = reset-Refuses ks now face a h
  handle-Refuses ks now face selects a h n = refused nothing face a _ h
