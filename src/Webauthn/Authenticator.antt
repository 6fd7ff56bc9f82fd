-- ===== src/Webauthn/Authenticator.antt =====
-- The authenticator (linux-hello/src/webauthn/authenticator.py, class Authenticator). A request is what
-- CBOR decoding gives, its fields `none` where they are missing or of a wrong type. The keystore is
-- an interface; what the verifier's face check says is an argument, as are the clock (in seconds) and
-- random bytes. The SHA-256 of a relying party's id is represented by the id.
pub mod Assertion
pub mod Registration
pub mod Commands
pub mod Gate
pub mod Next
pub mod Counting
mod Tests
use Prim.Native.String.{String}
use text.Mathlib.Text.{◌==◌ as str_eq}
use linux_hello.Prelude.{
  ℕ, ◌+◌, Bool, true, false, ◌&&◌, ◌||◌, not, Option, none, some, List, [], ◌∷◌, leb, ltb, ◌==◌,
  if◌then◌else◌, length, is_some,
}
use linux_hello.Prelude.Bytes.{Bytes}
use linux_hello.Daemon.Results.{
  VerificationResult, success, timeout_reached, not_confirmed, cancelled,
}
use linux_hello.Webauthn.Store.{Store, destroy_all}

abbrev pub reset_window : ℕ
reset_window = 10

abbrev pub next_assertion_window : ℕ
next_assertion_window = 30

-- The error codes that the handlers answer with; `other` is an unexpected exception's.
pub data CtapError : Type 0 where
  user_action_timeout keepalive_cancel operation_denied pin_not_set missing_parameter
        invalid_parameter invalid_option unsupported_algorithm credential_excluded no_credentials
        not_allowed other :
      CtapError

pub data Reply {ℓ} (A : Type ℓ) : Type ℓ where
  answers : A → Reply A
  fails : CtapError → Reply A

-- AuthenticatorData: the flags UP, UV, AT and ED are fields, the last two by what they announce.
pub record AuthData : Type 0 where
  pub rp_id : String
  pub user_present : Bool
  pub user_verified : Bool
  pub sign_count : ℕ
  pub attested : Option (Bytes × Bytes)
  pub cred_protect : Option ℕ

-- What the authenticator asks of a keystore: `none` is an exception.
pub record Keystore (K S : Type 0) : Type 0 where
  pub generate_key : K → Option (K × (String × Bytes))
  pub sign : K → String → AuthData → Bytes → Option S
  pub destroy_keys : K → K

pub record User : Type 0 where
  pub id : Bytes
  pub names : Option (String × String)

pub record Response (S : Type 0) : Type 0 where
  pub credential_id : Bytes
  pub auth_data : AuthData
  pub signature : S
  pub user : Option User
  pub total : Option ℕ

pub record Authenticator (K S : Type 0) : Type 0 where
  pub store : Store
  pub keys : K
  pub started : ℕ
  pub next_assertions : List (Response S)
  pub next_assertion_time : ℕ

unfoldable pub verification_error : VerificationResult → CtapError
verification_error timeout_reached = user_action_timeout
verification_error not_confirmed = user_action_timeout
verification_error cancelled = keepalive_cancel
verification_error _ = operation_denied

abbrev pub is_success : VerificationResult → Bool
is_success success = true
is_success _ = false

-- `_verify_user`, and what follows it unless it raises.
unfoldable pub after_verify {ℓ} :
    {A : Type ℓ} {T : Type 0} → VerificationResult → T → T × Reply A → T × Reply A
after_verify face a next = if is_success face then next else (a, fails (verification_error face))

-- `_check_pin_uv_auth_param`: an empty value asks for the PIN state.
abbrev pub is_pin_probe : Option Bytes → Bool
is_pin_probe (some []) = true
is_pin_probe _ = false

module _ {K S : Type 0} where
  unfoldable pub next_of :
      ℕ → List (Response S) → Authenticator K S → Authenticator K S × Reply (Response S)
  next_of now [] a = (a, fails not_allowed)
  next_of now (r ∷ rs) a =
      if ltb (a.next_assertion_time + next_assertion_window) now
      then (record a { next_assertions = [] }, fails not_allowed)
      else (
        record a { next_assertions = rs; next_assertion_time = now },
        answers (record r { total = none }),
      )

  unfoldable pub get_next_assertion : ℕ → Authenticator K S → Authenticator K S × Reply (Response S)
  get_next_assertion now a = next_of now a.next_assertions a

  unfoldable pub reset :
      Keystore K S → ℕ → VerificationResult → Authenticator K S → Authenticator K S × Reply {0} Unit
  reset ks now face a =
      if ltb (a.started + reset_window) now
      then (a, fails not_allowed)
      else after_verify face a
          (record a { store = destroy_all a.store; keys = ks.destroy_keys a.keys }, answers tt)

  unfoldable pub selection :
      VerificationResult → Authenticator K S → Authenticator K S × Reply {0} Unit
  selection face a = after_verify face a (a, answers tt)
