-- ===== src/Webauthn/Authenticator/Commands.antt =====
-- The table of handlers in `handle_cbor` of linux-hello/src/webauthn/authenticator.py, after decoding
-- and before encoding. `get_info` is a constant and left out.
use linux_hello.Prelude.{ℕ}
use linux_hello.Prelude.Bytes.{Bytes}
use linux_hello.Daemon.Results.{VerificationResult}
use linux_hello.Webauthn.Authenticator.{
  Reply, answers, fails, Keystore, Response, Authenticator, get_next_assertion, reset, selection,
}
use linux_hello.Webauthn.Authenticator.Assertion.{AssertionRequest, get_assertion}
use linux_hello.Webauthn.Authenticator.Registration.{
  CredentialRequest, Attestation, make_credential,
}

-- The byte string of the first is what os.urandom gives.
pub data Command : Type 0 where
  makes_credential : Bytes → CredentialRequest → Command
  gets_assertion : AssertionRequest → Command
  gets_next_assertion resets selects : Command

pub data Output (S : Type 0) : Type 0 where
  attestation : Attestation S → Output S
  assertion : Response S → Output S
  nothing : Unit {0} → Output S

abbrev pub output {ℓ κ} :
    {A : Type ℓ} {B : Type κ} {T : Type 0} → (A → B) → T × Reply A → T × Reply B
output f (t, answers x) = (t, answers (f x))
output f (t, fails e) = (t, fails e)

unfoldable pub handle :
    {K S : Type 0}
    → Keystore K S
    → ℕ
    → VerificationResult
    → Command
    → Authenticator K S
    → Authenticator K S × Reply (Output S)
handle ks now face (makes_credential id r) a =
    output attestation (make_credential ks id now face r a)
handle ks now face (gets_assertion r) a = output assertion (get_assertion ks now face r a)
handle ks now face gets_next_assertion a = output assertion (get_next_assertion now a)
handle ks now face resets a = output nothing (reset ks now face a)
handle ks now face selects a = output nothing (selection face a)
