-- ===== src/Webauthn/Authenticator/Assertion.antt =====
-- `get_assertion`, `_silent_assertion` and `_assert_credential` of
-- linux-hello/src/webauthn/authenticator.py.
use Prim.Native.String.{String}
use linux_hello.Prelude.{
  ℕ, Bool, true, false, not, Option, none, some, List, [], ◌∷◌, ltb, if◌then◌else◌, length, is_some,
}
use linux_hello.Prelude.Bytes.{Bytes}
use linux_hello.Daemon.Results.{VerificationResult}
use linux_hello.Webauthn.Store.{
  Credential, Store, Answer, ok, store_error, increment_counter, find_for_rp,
}
use linux_hello.Webauthn.Authenticator.{
  Reply, answers, fails, AuthData, Keystore, User, Response, Authenticator, after_verify,
  is_pin_probe, missing_parameter, pin_not_set, no_credentials, other,
}

-- An entry of the allow list is `none` if it is no map with a byte string as its id.
pub record AssertionRequest : Type 0 where
  pub rp_id : Option String
  pub client_data_hash : Option Bytes
  pub allow_list : Option (List (Option Bytes))
  pub up : Option Bool
  pub pin_uv_auth_param : Option Bytes

unfoldable pub entry_ids : List (Option Bytes) → List Bytes
entry_ids [] = []
entry_ids (none ∷ entries) = entry_ids entries
entry_ids (some id ∷ entries) = id ∷ entry_ids entries

abbrev pub allow_ids : Option (List (Option Bytes)) → Option (List Bytes)
allow_ids none = none
allow_ids (some entries) = some (entry_ids entries)

-- options.get("up") is False
abbrev pub is_silent : Option Bool → Bool
is_silent (some false) = true
is_silent _ = false

abbrev pub signed :
    {S : Type 0} → Credential → AuthData → Option User → Option ℕ → Option S → Reply (Response S)
signed c auth user total none = fails other
signed c auth user total (some signature) = answers (record {
  credential_id = c.credential_id;
  auth_data = auth;
  signature = signature;
  user = user;
  total = total;
})

unfoldable pub user_of : Credential → Bool → ℕ → Option User
user_of c discoverable total =
    if discoverable
    then some (record {
      id = c.user_handle;
      names = if ltb 1 total then some (c.user_name, c.user_display_name) else none;
    })
    else none

module _ {K S : Type 0} where
  unfoldable pub silent_assertion :
      Keystore K S → Credential → Bytes → Authenticator K S → Reply (Response S)
  silent_assertion ks c hash a =
      let auth : AuthData = record {
        rp_id = c.rp_id;
        user_present = false;
        user_verified = false;
        sign_count = c.sign_count;
        attested = none;
        cred_protect = none;
      } in
      signed c auth none none (ks.sign a.keys c.key_ref auth hash)

  unfoldable pub counted_assertion :
      Keystore K S
      → Credential
      → Bytes
      → Bool
      → ℕ
      → Store × Answer ℕ
      → Authenticator K S
      → Authenticator K S × Reply (Response S)
  counted_assertion ks c hash discoverable total (s, store_error) a =
      (record a { store = s }, fails other)
  counted_assertion ks c hash discoverable total (s, ok count) a =
      let auth : AuthData = record {
        rp_id = c.rp_id;
        user_present = true;
        user_verified = true;
        sign_count = count;
        attested = none;
        cred_protect = none;
      } in
      (
        record a { store = s },
        signed c auth (user_of c discoverable total) (if ltb 1 total then some total else none)
            (ks.sign a.keys c.key_ref auth hash),
      )

  unfoldable pub assert_credential :
      Keystore K S
      → Bytes
      → Bool
      → ℕ
      → Credential
      → Authenticator K S
      → Authenticator K S × Reply (Response S)
  assert_credential ks hash discoverable total c a =
      counted_assertion ks c hash discoverable total (increment_counter c.credential_id a.store) a

  abbrev pub first_with :
      Response S
      → Authenticator K S × Reply (List (Response S))
      → Authenticator K S × Reply (List (Response S))
  first_with r (a, fails e) = (a, fails e)
  first_with r (a, answers rs) = (a, answers (r ∷ rs))

  abbrev pub then_rest :
      Authenticator K S × Reply (Response S)
      → (Authenticator K S → Authenticator K S × Reply (List (Response S)))
      → Authenticator K S × Reply (List (Response S))
  then_rest (a, fails e) rest = (a, fails e)
  then_rest (a, answers r) rest = first_with r (rest a)

  -- [self._assert_credential(credential, ...) for credential in credentials]
  unfoldable pub assert_all :
      Keystore K S
      → Bytes
      → Bool
      → ℕ
      → List Credential
      → Authenticator K S
      → Authenticator K S × Reply (List (Response S))
  assert_all ks hash discoverable total [] a = (a, answers [])
  assert_all ks hash discoverable total (c ∷ cs) a =
      then_rest (assert_credential ks hash discoverable total c a)
        (λ b. assert_all ks hash discoverable total cs b)

  -- The first response, with the others kept for `get_next_assertion`.
  unfoldable pub keep_next :
      ℕ → Authenticator K S × Reply (List (Response S)) → Authenticator K S × Reply (Response S)
  keep_next now (a, fails e) = (a, fails e)
  keep_next now (a, answers []) = (a, fails other)
  keep_next now (a, answers (r ∷ rs)) =
      (record a { next_assertions = rs; next_assertion_time = now }, answers r)

  unfoldable pub answer_found :
      Keystore K S
      → ℕ
      → VerificationResult
      → AssertionRequest
      → Bytes
      → List Credential
      → Authenticator K S
      → Authenticator K S × Reply (Response S)
  answer_found ks now face r hash [] a = (a, fails no_credentials)
  answer_found ks now face r hash (c ∷ cs) a =
      if is_silent r.up
      then (a, silent_assertion ks c hash a)
      else after_verify face a (
          keep_next now (
            assert_all ks hash (not (is_some (allow_ids r.allow_list))) (length (c ∷ cs)) (c ∷ cs)
              a))

  unfoldable pub checked_assertion :
      Keystore K S
      → ℕ
      → VerificationResult
      → AssertionRequest
      → Option String
      → Option Bytes
      → Authenticator K S
      → Authenticator K S × Reply (Response S)
  checked_assertion ks now face r none hash a = (a, fails missing_parameter)
  checked_assertion ks now face r (some rp_id) none a = (a, fails missing_parameter)
  checked_assertion ks now face r (some rp_id) (some hash) a =
      if is_pin_probe r.pin_uv_auth_param
      then (a, fails pin_not_set)
      else answer_found ks now face r hash (find_for_rp rp_id (allow_ids r.allow_list) a.store) a

  -- `now` is the time at which the responses are done.
  unfoldable pub get_assertion :
      Keystore K S
      → ℕ
      → VerificationResult
      → AssertionRequest
      → Authenticator K S
      → Authenticator K S × Reply (Response S)
  get_assertion ks now face r a = checked_assertion ks now face r r.rp_id r.client_data_hash a
