-- ===== src/Webauthn/Ctaphid/Preservation.antt =====
-- The steps of the transport (linux-hello/src/webauthn/ctaphid.py) against its invariant.
use linux_hello.Prelude.{
  ℕ, ◌<◌, ◌%◌, ◌≡◌, refl, inl, inr, ◌&&◌, not, Option, none, some, List, [], ◌∷◌, arith, All-find,
  length, find, Bool-cases, ◌==◌, get_or, take, true, false,
}
use linux_hello.Webauthn.Codes.{ctaphid_cancel, cid_broadcast}
use linux_hello.Webauthn.Frames.{Bytes, unpack_u32}
use linux_hello.Webauthn.Ctaphid.{
  Device, Channel, busy_with_other, handle_ctaphid_init, begin_message, handle_init_frame,
  continue_message, continue_channel, handle_cont_frame, feed_report, new_device, reset_channel,
}
use linux_hello.Webauthn.Ctaphid.Steps.{
  Event, host_report, keepalive_tick, cbor_answer, keepalive_of, keepalive, response, finish_cbor,
  finish_of, run_cbor, step, after, run,
}
use linux_hello.Webauthn.Ctaphid.Invariant.{
  IsValid, IsChannel, Keeps, send_message-Keeps, send_error-Keeps, cancel_active-IsValid,
  dispatch_if_complete-Keeps, put-IsValid, resync-IsValid, init_reply-Keeps, allocate-IsValid,
}

handle_ctaphid_init-Keeps :
    (cid : ℕ) (nonce : Bytes) (d : Device) → IsValid d → Keeps (handle_ctaphid_init cid nonce d)
unfolding handle_ctaphid_init
handle_ctaphid_init-Keeps cid nonce d v = elim (Bool-cases (length nonce == 8)) [
  | inl fits ↦ rw fits (elim (Bool-cases (cid == cid_broadcast)) [
    | inl fresh ↦ rw fresh (init_reply-Keeps cid d.next_cid nonce _ (allocate-IsValid d v))
    | inr known ↦ rw known (
        init_reply-Keeps cid cid nonce _
          (cancel_active-IsValid cid false _ (resync-IsValid cid (find cid d.channels) d v refl)))
  ])
  | inr bad ↦ rw bad (send_error-Keeps cid _ d v)
]

begin_message-Keeps :
    (cid : ℕ) (o : Option Channel) (command total : ℕ) (report : Bytes) (d : Device)
    → IsValid d
    → find cid d.channels ≡ o
    → Keeps (begin_message cid o command total report d)
unfolding begin_message
begin_message-Keeps cid none command total report d v e = send_error-Keeps cid _ d v
begin_message-Keeps cid (some c) command total report d v e =
    let known = All-find (IsChannel d.next_cid) cid d.channels c v.partial e in
    elim (Bool-cases (command == ctaphid_cancel)) [
      | inl cancel ↦ rw cancel (cancel_active-IsValid cid true d v)
      | inr other ↦ rw other (elim (Bool-cases (busy_with_other cid d)) [
        | inl busy ↦ rw busy (send_error-Keeps cid _ d v)
        | inr free ↦ rw free (dispatch_if_complete-Keeps cid _ command d v known.0 known.1 refl)
      ])
    ]

handle_init_frame-Keeps :
    (cid : ℕ) (report : Bytes) (d : Device) → IsValid d → Keeps (handle_init_frame cid report d)
unfolding handle_init_frame
handle_init_frame-Keeps cid report d v =
    grind (arith, send_error-Keeps, handle_ctaphid_init-Keeps, begin_message-Keeps)

continue_message-Keeps :
    (cid : ℕ) (c : Channel) (o : Option ℕ) (report : Bytes) (d : Device)
    → IsValid d
    → c.cid ≡ cid
    → cid < d.next_cid
    → c.command ≡ o
    → Keeps (continue_message cid c o report d)
unfolding continue_message
continue_message-Keeps cid c none report d v e h k = v
continue_message-Keeps cid c (some command) report d v e h k =
    elim (Bool-cases (get_or report 4 0 % 128 == c.next_seq)) [
      | inl good ↦ rw good (dispatch_if_complete-Keeps cid _ command d v e h k)
      | inr bad ↦
          rw bad (send_error-Keeps cid _ _ (put-IsValid cid (reset_channel c) d v (e, h, refl)))
    ]

continue_channel-Keeps :
    (cid : ℕ) (o : Option Channel) (report : Bytes) (d : Device)
    → IsValid d
    → find cid d.channels ≡ o
    → Keeps (continue_channel cid o report d)
unfolding continue_channel
continue_channel-Keeps cid none report d v e = v
continue_channel-Keeps cid (some c) report d v e =
    let known = All-find (IsChannel d.next_cid) cid d.channels c v.partial e in
    continue_message-Keeps cid c c.command report d v known.0 known.1 refl

feed_report-Keeps : (report : Bytes) (d : Device) → IsValid d → Keeps (feed_report report d)
unfolding feed_report handle_cont_frame
feed_report-Keeps report d v =
    let cid = unpack_u32 (take 4 report) in
    ground (
      arith,
      handle_init_frame-Keeps cid report d v,
      continue_channel-Keeps cid (find cid d.channels) report d v refl,
    )

keepalive_of-Keeps : (w : Option (ℕ × Bytes)) (d : Device) → IsValid d → Keeps (keepalive_of w d)
keepalive_of-Keeps none d v = v
keepalive_of-Keeps (some (cid, payload)) d v = send_message-Keeps cid _ _ d v

stop-IsValid : (d : Device) → IsValid d → IsValid (record d { active_cid = none; worker = none })
stop-IsValid d v = record { reports = v.reports; partial = v.partial; running = tt }

finish_of-Keeps :
    (w : Option (ℕ × Bytes)) (answer : Bytes) (d : Device)
    → IsValid d
    → Keeps (finish_of w answer d)
unfolding finish_cbor
finish_of-Keeps none answer d v = v
finish_of-Keeps (some (cid, payload)) answer d v =
    elim (Bool-cases (d.cancelled && not d.cancel_reply)) [
      | inl dropped ↦ rw dropped (stop-IsValid d v)
      | inr kept ↦ rw kept (send_message-Keeps cid _ answer _ (stop-IsValid d v))
    ]

step-IsValid : (other : ℕ) (e : Event) (d : Device) → IsValid d → IsValid (after (step other e d))
unfolding step keepalive run_cbor
step-IsValid other (host_report report) d v = feed_report-Keeps report d v
step-IsValid other keepalive_tick d v = keepalive_of-Keeps d.worker d v
step-IsValid other (cbor_answer answer) d v = finish_of-Keeps d.worker (response other answer) d v

-- From a valid state, whatever the host sends and however the worker and its keepalives fall
-- between the reports, the state stays valid: every report written has 64 bytes; every channel stands
-- under its own number, one that was given out, holding no data when idle and less than the
-- announced length otherwise; and a command runs exactly while its channel is the active one.
pub run-IsValid : (other : ℕ) (es : List Event) (d : Device) → IsValid d → IsValid (run other es d)
unfolding run
run-IsValid other [] d v = v
run-IsValid other (e ∷ es) d v = run-IsValid other es _ (step-IsValid other e d v)

pub new_device-IsValid : IsValid new_device
new_device-IsValid = record { reports = tt; partial = tt; running = tt }
