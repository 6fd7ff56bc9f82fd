-- ===== src/Webauthn/Ctaphid/Steps.antt =====
-- The threads of linux-hello/src/webauthn/ctaphid.py as steps: a report from the host, a keepalive
-- of the running command, and the end of `_run_cbor` with the authenticator's answer.
use linux_hello.Prelude.{ℕ, not, ◌&&◌, Option, none, some, List, [], ◌∷◌, if◌then◌else◌}
use linux_hello.Webauthn.Codes.{ctaphid_cbor, ctaphid_keepalive, status_upneeded}
use linux_hello.Webauthn.Frames.{Bytes}
use linux_hello.Webauthn.Ctaphid.{Device, Outcome, done, raised, send_message, feed_report}

-- One round of `_keepalive_loop`. The loop runs while the worker does: `_run_cbor` joins it first.
abbrev pub keepalive_of : Option (ℕ × Bytes) → Device → Outcome
keepalive_of none d = done d
keepalive_of (some (cid, payload)) d = send_message cid ctaphid_keepalive (status_upneeded ∷ []) d

unfoldable pub keepalive : Device → Outcome
keepalive d = keepalive_of d.worker d

-- What `_run_cbor` sends: the answer of `authenticator.handle_cbor`, or `CtapError.ERR.OTHER`
-- (`other`) if it raised.
abbrev pub response : ℕ → Option Bytes → Bytes
response other none = other ∷ []
response other (some answer) = answer

unfoldable pub finish_cbor : ℕ → Bytes → Device → Outcome
finish_cbor cid answer d =
    let idle = record d { active_cid = none; worker = none } in
    if d.cancelled && not d.cancel_reply
    then done idle
    else send_message cid ctaphid_cbor answer idle

abbrev pub finish_of : Option (ℕ × Bytes) → Bytes → Device → Outcome
finish_of none answer d = done d
finish_of (some (cid, payload)) answer d = finish_cbor cid answer d

unfoldable pub run_cbor : ℕ → Option Bytes → Device → Outcome
unfolding finish_cbor
run_cbor other answer d = finish_of d.worker (response other answer) d

pub data Event : Type 0 where
  host_report : Bytes → Event
  keepalive_tick : Event
  cbor_answer : Option Bytes → Event

unfoldable pub step : ℕ → Event → Device → Outcome
step other (host_report report) d = feed_report report d
step other keepalive_tick d = keepalive d
step other (cbor_answer answer) d = run_cbor other answer d

-- The state that a step leaves, whether it raised or not.
abbrev pub after : Outcome → Device
after (done d) = d
after (raised d) = d

unfoldable pub run : ℕ → List Event → Device → Device
run other [] d = d
run other (e ∷ es) d = run other es (after (step other e d))
