-- ===== src/Webauthn/CtaphidTests.antt =====
-- The theorems about linux-hello/src/webauthn/ctaphid.py at concrete devices.
use linux_hello.Prelude.{
  ◌≡◌, refl, false, true, none, some, List, [], ◌∷◌, arith, replicate, put, find, All,
}
use linux_hello.Webauthn.Codes.{ctaphid_ping, ctaphid_cbor, ctaphid_cancel}
use linux_hello.Webauthn.Frames.{Bytes, message_frames, cont_frames, init_frame}
use linux_hello.Webauthn.Ctaphid.{
  Device, new_device, new_channel, done, send_message, busy_with_other, start_cbor, feed_report,
  run_command,
}
use linux_hello.Webauthn.Ctaphid.Steps.{
  Event, host_report, keepalive_tick, cbor_answer, after, run, run_cbor,
}
use linux_hello.Webauthn.Ctaphid.Invariant.{IsValid}
use linux_hello.Webauthn.Ctaphid.Preservation.{run-IsValid, new_device-IsValid}
use linux_hello.Webauthn.Ctaphid.Reassembly.{feed_all}
use linux_hello.Webauthn.Ctaphid.Echo.{CanBegin, feed_all-message_frames}
use linux_hello.Webauthn.Ctaphid.TooLong.{out_of_sequence, feed_all-too_long}
use linux_hello.Webauthn.Ctaphid.InFlight.{Running, NoResync, is_resync, run-Running}
use linux_hello.Webauthn.Ctaphid.Answers.{run_cbor-start_cbor, run_cbor-cancel}

-- A device with channel 1 open.
abbrev opened : Device
opened = record new_device { channels = (1, new_channel 1) ∷ []; next_cid = 2 }

abbrev small : Bytes
small = 5 ∷ 6 ∷ []

abbrev large : Bytes
large = replicate 7610 7

opened-CanBegin : CanBegin 1 ctaphid_ping opened
unfolding find busy_with_other
opened-CanBegin = record {
  cid_fits = omega arith;
  not_broadcast = omega arith;
  command_fits = omega arith;
  not_init = omega arith;
  not_cancel = omega arith;
  channel = new_channel 1;
  known = refl;
  own_cid = refl;
  free = refl;
}

small_frames : message_frames 1 ctaphid_ping small ≡ some (init_frame 1 ctaphid_ping small ∷ [])
unfolding message_frames cont_frames
small_frames = refl

run-IsValid_example :
    IsValid (run 127 (keepalive_tick ∷ host_report small ∷ cbor_answer none ∷ []) new_device)
run-IsValid_example =
    run-IsValid 127 (keepalive_tick ∷ host_report small ∷ cbor_answer none ∷ []) new_device
      new_device-IsValid

feed_all-message_frames_example :
    feed_all (init_frame 1 ctaphid_ping small ∷ []) opened
    ≡ run_command 1 ctaphid_ping small
        (record opened { channels = put 1 (new_channel 1) opened.channels })
feed_all-message_frames_example =
    feed_all-message_frames 1 ctaphid_ping small _ opened opened-CanBegin (omega arith) small_frames

abbrev running_device : Device
running_device = record opened { active_cid = some 1; worker = some (1, 4 ∷ []) }

running_device-Running : Running 1 (4 ∷ []) running_device
running_device-Running = record { worker = refl; active = refl }

abbrev meanwhile : List Event
meanwhile = keepalive_tick ∷ host_report (init_frame 1 ctaphid_cancel []) ∷ []

run-Running_example : Running 1 (4 ∷ []) (run 127 meanwhile running_device)
run-Running_example =
    run-Running 127 1 (4 ∷ []) meanwhile running_device (tt, (tt, tt)) running_device-Running

started : start_cbor 1 (4 ∷ []) opened ≡ done running_device
unfolding start_cbor
started = refl

meanwhile-NoResync : All (NoResync 1) meanwhile
unfolding is_resync init_frame
meanwhile-NoResync = (tt, (refl, tt))

run_cbor-start_cbor_example :
    run_cbor 127 none (run 127 meanwhile running_device)
    ≡ send_message 1 ctaphid_cbor
        (127 ∷ [])
        (record (run 127 meanwhile running_device) { active_cid = none; worker = none })
run_cbor-start_cbor_example =
    run_cbor-start_cbor 127 1 (4 ∷ []) none meanwhile opened running_device refl refl started
      meanwhile-NoResync

-- The device after an INIT frame has cancelled the command without a reply.
abbrev resynced : Device
resynced = record running_device { cancelled = true; cancel_reply = false; aborts = 1 }

resynced-known : find 1 resynced.channels ≡ some (new_channel 1)
unfolding find
resynced-known = refl

run_cbor-cancel_example :
    run_cbor 127 none (after (feed_report (init_frame 1 ctaphid_cancel []) resynced))
    ≡ send_message 1 ctaphid_cbor (127 ∷ []) (record resynced {
      cancelled = true;
      cancel_reply = true;
      aborts = 2;
      active_cid = none;
      worker = none;
    })
run_cbor-cancel_example =
    run_cbor-cancel 127 1 (4 ∷ []) none (new_channel 1) resynced (omega arith) (omega arith)
      resynced-known (record { worker = refl; active = refl })

large_frames :
    message_frames 1 ctaphid_ping large
    ≡ some (init_frame 1 ctaphid_ping large ∷ cont_frames 7610 1 large 57 0)
unfolding message_frames
large_frames = refl

feed_all-too_long_example :
    feed_all (init_frame 1 ctaphid_ping large ∷ cont_frames 7610 1 large 57 0) opened
    ≡ out_of_sequence 1 opened
feed_all-too_long_example =
    feed_all-too_long 1 ctaphid_ping large _ opened opened-CanBegin (omega arith) large_frames
