-- ===== src/Webauthn/Authenticator/Tests.antt =====
-- The theorems about linux-hello/src/webauthn/authenticator.py at concrete states, with a keystore
-- that counts its keys and signs with the reference's name.
use Prim.Native.String.{String}
use linux_hello.Prelude.{ℕ, suc, ◌≡◌, refl, true, false, none, some, List, [], ◌∷◌, All}
use linux_hello.Prelude.Bytes.{same_bytes}
use linux_hello.Daemon.Results.{success, timeout_reached}
use linux_hello.Webauthn.Store.{
  Credential, stored, increment_counter, find_by_id, bump, save, find_for_rp, matches, is_match,
  newest_first, insert_newest,
}
use linux_hello.Webauthn.Authenticator.{
  Reply, answers, Keystore, Response, Authenticator, after_verify,
}
use linux_hello.Webauthn.Authenticator.Assertion.{
  AssertionRequest, get_assertion, checked_assertion, answer_found, assert_credential,
  counted_assertion, assert_all, keep_next, user_of,
}
use linux_hello.Webauthn.Authenticator.Commands.{gets_assertion}
use linux_hello.Webauthn.Authenticator.Gate.{IsUnverified}
use linux_hello.Webauthn.Authenticator.Next.{Event, handle_all, handle_all-IsUnverified}
use linux_hello.Webauthn.Authenticator.Counting.{IsCounted, assert_credential-IsCounted}

abbrev keystore : Keystore ℕ String
keystore = record {
  generate_key = λ n. some (suc n, ("key", []));
  sign = λ n ref auth hash. some ref;
  destroy_keys = λ n. 0;
}

abbrev passkey : ℕ → String → ℕ → Credential
passkey id ref at = record {
  credential_id = id ∷ [];
  rp_id = "shop.example";
  rp_name = "Shop";
  user_handle = id ∷ [];
  user_name = "ann";
  user_display_name = "Ann";
  cose_public_key = [];
  key_ref = ref;
  sign_count = 4;
  resident = true;
  cred_protect = 1;
  created_at = at;
}

abbrev passkeys : List Credential
passkeys = passkey 1 "a" 10 ∷ passkey 2 "b" 20 ∷ []

abbrev idle : Authenticator ℕ String
idle = record {
  store = record { disk = stored passkeys; credentials = passkeys };
  keys = 2;
  started = 0;
  next_assertions = [];
  next_assertion_time = 0;
}

abbrev login : AssertionRequest
login = record {
  rp_id = some "shop.example";
  client_data_hash = some (9 ∷ []);
  allow_list = none;
  up = none;
  pin_uv_auth_param = none;
}

abbrev probe : AssertionRequest
probe = record login { up = some false }

abbrev events : List Event
events =
    record { now = 50; face = timeout_reached; command = gets_assertion login }
    ∷ record { now = 60; face = timeout_reached; command = gets_assertion probe }
    ∷ []

handle_all-IsUnverified_example :
    ((handle_all keystore events idle).0 ≡ idle)
    × All IsUnverified (handle_all keystore events idle).1
handle_all-IsUnverified_example =
    handle_all-IsUnverified keystore events idle refl ((λ e. cc e), ((λ e. cc e), tt))

-- A login with two passkeys: the newer one answers, the older one waits.
abbrev logged_in : Authenticator ℕ String × Reply (Response String)
logged_in = get_assertion keystore 50 success login idle

newer_first :
    (find_for_rp "shop.example" none idle.store) ≡ passkey 2 "b" 20 ∷ passkey 1 "a" 10 ∷ []
unfolding find_for_rp matches is_match newest_first insert_newest
newer_first = refl

abbrev waiting : Response String
waiting = record {
  credential_id = 1 ∷ [];
  auth_data = record {
    rp_id = "shop.example";
    user_present = true;
    user_verified = true;
    sign_count = 5;
    attested = none;
    cred_protect = none;
  };
  signature = "a";
  user = some (record { id = 1 ∷ []; names = some ("ann", "Ann") });
  total = some 2;
}

one_waits : (logged_in.0.next_assertions ≡ waiting ∷ []) × (logged_in.0.next_assertion_time ≡ 50)
unfolding get_assertion checked_assertion answer_found find_for_rp matches is_match newest_first
    insert_newest after_verify keep_next assert_all assert_credential counted_assertion
    increment_counter find_by_id bump save user_of same_bytes
one_waits = (refl, refl)

abbrev picking : Authenticator ℕ String
picking = record idle { next_assertions = waiting ∷ []; next_assertion_time = 50 }

asserted : (assert_credential keystore (9 ∷ []) true 2 (passkey 1 "a" 10) idle).1 ≡ answers waiting
unfolding assert_credential counted_assertion increment_counter find_by_id bump save user_of
    same_bytes
asserted = refl

assert_credential-IsCounted_example :
    IsCounted
      (stored passkeys)
      (assert_credential keystore (9 ∷ []) true 2 (passkey 1 "a" 10) idle).0.store.disk
      (passkey 1 "a" 10)
      waiting
assert_credential-IsCounted_example =
    assert_credential-IsCounted keystore (9 ∷ []) true 2 (passkey 1 "a" 10) idle waiting asserted
