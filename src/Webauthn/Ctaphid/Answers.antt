-- ===== src/Webauthn/Ctaphid/Answers.antt =====
-- The end of a command that ran while reports arrived (linux-hello/src/webauthn/ctaphid.py).
use linux_hello.Prelude.{
  ℕ, ◌+◌, ◌^◌, ◌<◌, ◌≡◌, ◌≢◌, refl, ◌∙◌, true, false, Option, none, some, List, [], ◌∷◌, arith,
  ◌==◌, find, All, is_empty,
}
use linux_hello.Webauthn.Codes.{ctaphid_cancel, ctaphid_cbor, cid_broadcast}
use linux_hello.Webauthn.Frames.{Bytes, init_frame}
use linux_hello.Webauthn.Ctaphid.{
  Device, Channel, done, send_message, cancel_active, start_cbor, begin_message, handle_init_frame,
  feed_report,
}
use linux_hello.Webauthn.Ctaphid.Steps.{Event, response, finish_cbor, run_cbor, after, run}
use linux_hello.Webauthn.Ctaphid.Echo.{init_frame-handled, length-init_frame, command-init_frame}
use linux_hello.Webauthn.Ctaphid.InFlight.{
  is_dropped, Running, NoResync, step-Running, NoResync-IsPending, step-is_dropped,
}

run_cbor-Running :
    (other cid : ℕ) (payload : Bytes) (answer : Option Bytes) (d : Device)
    → Running cid payload d
    → is_dropped d ≡ false
    → run_cbor other answer d
      ≡ send_message cid ctaphid_cbor
          (response other answer)
          (record d { active_cid = none; worker = none })
unfolding run_cbor finish_cbor
run_cbor-Running other cid payload answer d r h = simp r.worker (simp h)

-- A command that was not re-synchronised away is answered: whatever reports and keepalives come
-- meanwhile, a CANCEL among them, the end of the worker sends the authenticator's answer (or
-- the error byte, if it raised) on the channel that asked, and frees the device. The hypothesis is
-- that no INIT frame for that channel with a nonce of eight bytes comes before.
pub run_cbor-run :
    (other cid : ℕ) (payload : Bytes) (answer : Option Bytes) (es : List Event) (d : Device)
    → All (NoResync cid) es
    → Running cid payload d
    → is_dropped d ≡ false
    → run_cbor other answer (run other es d)
      ≡ send_message cid ctaphid_cbor
          (response other answer)
          (record (run other es d) { active_cid = none; worker = none })
unfolding run
run_cbor-run other cid payload answer [] d p r h = run_cbor-Running other cid payload answer d r h
run_cbor-run other cid payload answer (e ∷ es) d p r h =
    run_cbor-run other cid payload answer es _ p.1
      (step-Running other cid payload e d (NoResync-IsPending cid e p.0) r)
      (step-is_dropped other cid payload e d p.0 r h)

-- A command that starts on a free device is answered on its channel, whatever reports and
-- keepalives come meanwhile, a CANCEL among them: the end of the worker sends the authenticator's
-- answer, or the error byte if it raised, and frees the device. The hypotheses are that the payload is
-- not empty and that no INIT frame with a nonce of eight bytes comes for the channel before the end.
pub run_cbor-start_cbor :
    (other cid : ℕ) (payload : Bytes) (answer : Option Bytes) (es : List Event) (c d : Device)
    → c.active_cid ≡ none
    → is_empty payload ≡ false
    → start_cbor cid payload c ≡ done d
    → All (NoResync cid) es
    → run_cbor other answer (run other es d)
      ≡ send_message cid ctaphid_cbor
          (response other answer)
          (record (run other es d) { active_cid = none; worker = none })
unfolding start_cbor
run_cbor-start_cbor other cid payload answer es c d free filled start p =
    run_cbor-run other cid payload answer es d p
      (record { worker = ground arith; active = ground arith }) (ground arith)

cancel_frame :
    (cid : ℕ) (c : Channel) (d : Device)
    → cid < 2 ^ 32
    → cid ≢ cid_broadcast
    → find cid d.channels ≡ some c
    → feed_report (init_frame cid ctaphid_cancel []) d ≡ done (cancel_active cid true d)
unfolding handle_init_frame begin_message
cancel_frame cid c d hc hb e =
    init_frame-handled cid ctaphid_cancel [] d hc
    ∙ rw
        (
          length-init_frame cid ctaphid_cancel [],
          command-init_frame cid ctaphid_cancel [] (omega arith),
          e,
        )
        (let t : (cid == cid_broadcast) ≡ false = ground (arith, hb) in rw t refl)

-- A CANCEL for the channel of the running command has its answer sent, also where an INIT frame
-- had cancelled the command without a reply before.
pub run_cbor-cancel :
    (other cid : ℕ) (payload : Bytes) (answer : Option Bytes) (c : Channel) (d : Device)
    → cid < 2 ^ 32
    → cid ≢ cid_broadcast
    → find cid d.channels ≡ some c
    → Running cid payload d
    → run_cbor other answer (after (feed_report (init_frame cid ctaphid_cancel []) d))
      ≡ send_message cid ctaphid_cbor (response other answer) (record d {
        cancelled = true;
        cancel_reply = true;
        aborts = d.aborts + 1;
        active_cid = none;
        worker = none;
      })
unfolding cancel_active run_cbor finish_cbor
run_cbor-cancel other cid payload answer c d hc hb e r =
    rw (cancel_frame cid c d hc hb e)
      (simp r.active (let t : (cid == cid) ≡ true = ground arith in simp t (simp r.worker refl)))
