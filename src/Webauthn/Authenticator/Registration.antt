-- ===== src/Webauthn/Authenticator/Registration.antt =====
-- `make_credential` of linux-hello/src/webauthn/authenticator.py.
use Prim.Native.String.{String}
use text.Mathlib.Text.{◌==◌ as str_eq}
use linux_hello.Prelude.{
  ℕ, Bool, true, false, ◌&&◌, not, Option, none, some, List, [], ◌∷◌, leb, if◌then◌else◌, length,
}
use linux_hello.Prelude.Bytes.{Bytes}
use linux_hello.Daemon.Results.{VerificationResult}
use linux_hello.Daemon.Manager.{or_else}
use linux_hello.Webauthn.Store.{Credential, Store, Answer, ok, store_error, find_by_id, add}
use linux_hello.Webauthn.Authenticator.{
  Reply, answers, fails, AuthData, Keystore, Authenticator, after_verify, is_pin_probe,
  missing_parameter, invalid_parameter, invalid_option, unsupported_algorithm, credential_excluded,
  pin_not_set, other,
}

pub record RelyingParty : Type 0 where
  pub id : Option String
  pub name : Option String

pub record UserEntity : Type 0 where
  pub id : Option Bytes
  pub name : Option String
  pub display_name : Option String

pub record KeyParam : Type 0 where
  pub kind : String
  pub is_es256 : Bool

-- An entry of the exclude list is `none` if it is no map with a byte string as its id.
pub record CredentialRequest : Type 0 where
  pub client_data_hash : Option Bytes
  pub rp : Option RelyingParty
  pub user : Option UserEntity
  pub key_params : Option (List KeyParam)
  pub exclude_list : List (Option Bytes)
  pub cred_protect : Option ℕ
  pub up : Option Bool
  pub rk : Bool
  pub pin_uv_auth_param : Option Bytes

pub record Attestation (S : Type 0) : Type 0 where
  pub auth_data : AuthData
  pub signature : S

abbrev pub is_up_refused : Option Bool → Bool
is_up_refused (some false) = true
is_up_refused _ = false

unfoldable pub has_es256 : List KeyParam → Bool
has_es256 [] = false
has_es256 (p ∷ ps) = if str_eq p.kind "public-key" && p.is_es256 then true else has_es256 ps

abbrev pub is_of : String → Option Credential → Bool
is_of rp_id none = false
is_of rp_id (some c) = str_eq c.rp_id rp_id

unfoldable pub is_excluded : String → List Credential → List (Option Bytes) → Bool
is_excluded rp_id cs [] = false
is_excluded rp_id cs (none ∷ entries) = is_excluded rp_id cs entries
is_excluded rp_id cs (some id ∷ entries) =
    if is_of rp_id (find_by_id id cs) then true else is_excluded rp_id cs entries

-- 1 <= len(user_id) <= 64
abbrev pub is_user_id : Bytes → Bool
is_user_id id = leb 1 (length id) && leb (length id) 64

abbrev pub is_protection : ℕ → Bool
is_protection n = leb 1 n && leb n 3

unfoldable pub new_credential :
    Bytes
    → ℕ
    → String
    → Bytes
    → RelyingParty
    → String
    → UserEntity
    → Bytes
    → CredentialRequest
    → Credential
new_credential id now key_ref cose_key rp rp_id user user_id r = record {
  credential_id = id;
  rp_id = rp_id;
  rp_name = or_else rp.name "";
  user_handle = user_id;
  user_name = or_else user.name "";
  user_display_name = or_else user.display_name "";
  cose_public_key = cose_key;
  key_ref = key_ref;
  sign_count = 0;
  resident = r.rk;
  cred_protect = or_else r.cred_protect 1;
  created_at = now;
}

abbrev pub attested : {S : Type 0} → AuthData → Option S → Reply (Attestation S)
attested auth none = fails other
attested auth (some signature) = answers (record { auth_data = auth; signature = signature })

module _ {K S : Type 0} where
  -- After `store.add`.
  unfoldable pub attest :
      Keystore K S
      → Credential
      → Option ℕ
      → Bytes
      → Store × Answer {0} Unit
      → Authenticator K S
      → Authenticator K S × Reply (Attestation S)
  attest ks c cred_protect hash (s, store_error) a = (record a { store = s }, fails other)
  attest ks c cred_protect hash (s, ok done) a =
      let auth : AuthData = record {
        rp_id = c.rp_id;
        user_present = true;
        user_verified = true;
        sign_count = 0;
        attested = some (c.credential_id, c.cose_public_key);
        cred_protect = cred_protect;
      } in
      (record a { store = s }, attested auth (ks.sign a.keys c.key_ref auth hash))

  -- After the face check.
  unfoldable pub create :
      Keystore K S
      → Bytes
      → ℕ
      → RelyingParty
      → String
      → UserEntity
      → Bytes
      → Bytes
      → CredentialRequest
      → Option (K × (String × Bytes))
      → Authenticator K S
      → Authenticator K S × Reply (Attestation S)
  create ks id now rp rp_id user user_id hash r none a = (a, fails other)
  create ks id now rp rp_id user user_id hash r (some (keys, (key_ref, cose_key))) a =
      let c = new_credential id now key_ref cose_key rp rp_id user user_id r in
      attest ks c r.cred_protect hash (add c a.store) (record a { keys = keys })

  unfoldable pub with_names :
      Keystore K S
      → Bytes
      → ℕ
      → VerificationResult
      → CredentialRequest
      → Bytes
      → RelyingParty
      → UserEntity
      → List KeyParam
      → Option String
      → Option Bytes
      → Authenticator K S
      → Authenticator K S × Reply (Attestation S)
  with_names ks id now face r hash rp user params none user_id a = (a, fails invalid_parameter)
  with_names ks id now face r hash rp user params (some rp_id) none a = (a, fails invalid_parameter)
  with_names ks id now face r hash rp user params (some rp_id) (some user_id) a =
      if not (is_user_id user_id)
      then (a, fails invalid_parameter)
      else if is_up_refused r.up
      then (a, fails invalid_option)
      else if not (has_es256 params)
      then (a, fails unsupported_algorithm)
      else if not (is_protection (or_else r.cred_protect 1))
      then (a, fails invalid_option)
      else if is_excluded rp_id a.store.credentials r.exclude_list
      then after_verify face a (a, fails credential_excluded)
      else after_verify face a
          (create ks id now rp rp_id user user_id hash r (ks.generate_key a.keys) a)

  unfoldable pub with_maps :
      Keystore K S
      → Bytes
      → ℕ
      → VerificationResult
      → CredentialRequest
      → Option Bytes
      → Option RelyingParty
      → Option UserEntity
      → Option (List KeyParam)
      → Authenticator K S
      → Authenticator K S × Reply (Attestation S)
  with_maps ks id now face r (some hash) (some rp) (some user) (some params) a =
      if is_pin_probe r.pin_uv_auth_param
      then (a, fails pin_not_set)
      else with_names ks id now face r hash rp user params rp.id user.id a
  with_maps ks id now face r _ _ _ _ a = (a, fails missing_parameter)

  -- `id` is what os.urandom gives, `now` the time of creation.
  unfoldable pub make_credential :
      Keystore K S
      → Bytes
      → ℕ
      → VerificationResult
      → CredentialRequest
      → Authenticator K S
      → Authenticator K S × Reply (Attestation S)
  make_credential ks id now face r a =
      with_maps ks id now face r r.client_data_hash r.rp r.user r.key_params a
