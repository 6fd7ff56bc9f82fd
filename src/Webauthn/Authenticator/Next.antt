-- ===== src/Webauthn/Authenticator/Next.antt =====
-- Further assertions (`get_next_assertion` of linux-hello/src/webauthn/authenticator.py), and sequences
-- of commands.
use linux_hello.Prelude.{ℕ, ◌+◌, ◌≤◌, ◌≡◌, ◌≢◌, refl, none, List, [], ◌∷◌, All}
use linux_hello.Daemon.Results.{VerificationResult, success}
use linux_hello.Webauthn.Authenticator.{
  Reply, answers, Keystore, Response, Authenticator, next_assertion_window, next_of,
  get_next_assertion,
}
use linux_hello.Webauthn.Authenticator.Commands.{
  Command, makes_credential, gets_assertion, gets_next_assertion, resets, selects, Output, handle,
}
use linux_hello.Webauthn.Authenticator.Gate.{IsUnverified, Refuses, handle-Refuses}

-- Each at most 30 seconds after the one before.
abbrev pub InTime : ℕ → List ℕ → Type 0
InTime last [] = Unit
InTime last (now ∷ times) = (now ≤ last + next_assertion_window) × InTime now times

-- An answer of `get_next_assertion`: the number of credentials is only told with the first.
abbrev pub further : {S : Type 0} → Response S → Reply (Response S)
further r = answers (record r { total = none })

-- A command at a time, with what the face check would say.
pub record Event : Type 0 where
  pub now : ℕ
  pub face : VerificationResult
  pub command : Command

module _ {K S : Type 0} where
  -- Calls of `get_next_assertion` at some times.
  unfoldable pub nexts : List ℕ → Authenticator K S → Authenticator K S × List (Reply (Response S))
  nexts [] a = (a, [])
  nexts (now ∷ times) a =
      let (b, reply) = get_next_assertion now a in
      let (c, replies) = nexts times b in (c, reply ∷ replies)

  unfoldable pub handle_all :
      Keystore K S → List Event → Authenticator K S → Authenticator K S × List (Reply (Output S))
  handle_all ks [] a = (a, [])
  handle_all ks (e ∷ es) a =
      let (b, reply) = handle ks e.now e.face e.command a in
      let (c, replies) = handle_all ks es b in (c, reply ∷ replies)

  handle-same :
      (ks : Keystore K S) (now : ℕ) (face : VerificationResult) (c : Command)
      (a : Authenticator K S)
      → a.next_assertions ≡ []
      → face ≢ success
      → Refuses a (handle ks now face c a)
  unfolding handle get_next_assertion next_of
  handle-same ks now face gets_next_assertion a p k = rw p (record { same = refl; unverified = tt })
  handle-same ks now face (makes_credential id r) a p k =
      handle-Refuses ks now face (makes_credential id r) a k (λ e. cc e)
  handle-same ks now face (gets_assertion r) a p k =
      handle-Refuses ks now face (gets_assertion r) a k (λ e. cc e)
  handle-same ks now face resets a p k = handle-Refuses ks now face resets a k (λ e. cc e)
  handle-same ks now face selects a p k = handle-Refuses ks now face selects a k (λ e. cc e)

  -- From a state with no pending assertions, a sequence of commands in which no face check succeeds
  -- changes nothing, and no answer in it claims that a user was present or verified.
  pub handle_all-IsUnverified :
      (ks : Keystore K S) (es : List Event) (a : Authenticator K S)
      → a.next_assertions ≡ []
      → All (λ e. e.face ≢ success) es
      → ((handle_all ks es a).0 ≡ a) × All IsUnverified (handle_all ks es a).1
  unfolding handle_all
  handle_all-IsUnverified ks [] a p h = (refl, tt)
  handle_all-IsUnverified ks (e ∷ es) a p h =
      let here = handle-same ks e.now e.face e.command a p h.0 in
      let there = handle_all-IsUnverified ks es a p h.1 in
      (rw here.same there.0, (here.unverified, rw here.same there.1))
