-- ===== src/Webauthn/Ctaphid/Echo.antt =====
-- A whole message, from its first frame, through linux-hello/src/webauthn/ctaphid.py: reassembly,
-- and the echo of PING.
use linux_hello.Prelude.{
  ℕ, ◌%◌, ◌^◌, ◌≤◌, ◌<◌, min, ◌≡◌, ◌≢◌, refl, sym, ap, ◌∙◌, false, some, List, ◌∷◌, arith, ltb,
  ◌==◌, length, take, get_or, find, put, take-length-take, take-append, length-take,
}
use linux_hello.Webauthn.Codes.{ctaphid_init, ctaphid_cancel, cid_broadcast}
use linux_hello.Webauthn.Frames.{
  Bytes, unpack_u16, slice, init_payload, cont_frames, init_frame, message_frames,
}
use linux_hello.Webauthn.Ctaphid.{
  Device, Channel, new_channel, run_command, dispatch_if_complete, busy_with_other, begin_message,
  handle_init_frame, feed_report,
}
use linux_hello.Webauthn.Ctaphid.Reassembly.{
  feed_all, assembling, feed_report-init, feed_all-cont_frames, unpack-pack_u32,
}

pub init_frame-handled :
    (cid command : ℕ) (payload : Bytes) (d : Device)
    → cid < 2 ^ 32
    → feed_report (init_frame cid command payload) d
      ≡ handle_init_frame cid (init_frame cid command payload) d
unfolding init_frame
init_frame-handled cid command payload d h =
    feed_report-init _ _ _ _ _ _ d (omega arith)
    ∙ ap (λ i. handle_init_frame i (init_frame cid command payload) d) (unpack-pack_u32 cid h)

pub length-init_frame :
    (cid command : ℕ) (payload : Bytes) → ltb (length (init_frame cid command payload)) 7 ≡ false
unfolding init_frame
length-init_frame cid command payload = ground arith

pub command-init_frame :
    (cid command : ℕ) (payload : Bytes)
    → command < 128
    → get_or (init_frame cid command payload) 4 0 % 128 ≡ command
unfolding init_frame
command-init_frame cid command payload h = omega arith

total-init_frame :
    (cid command : ℕ) (payload : Bytes)
    → length payload < 2 ^ 16
    → unpack_u16 (slice 5 2 (init_frame cid command payload)) ≡ length payload
unfolding init_frame
total-init_frame cid command payload h = omega arith

first_chunk :
    (cid command : ℕ) (payload : Bytes)
    → slice 7 (min (length payload) init_payload) (init_frame cid command payload)
      ≡ take (length (take init_payload payload)) payload
unfolding init_frame
first_chunk cid command payload =
    take-append (min (length payload) init_payload) (take init_payload payload) _
      (omega (arith, length-take init_payload payload))
    ∙ sym (take-length-take init_payload payload)

-- The channels on which a message of this command may start.
pub record CanBegin (cid command : ℕ) (d : Device) : Type 0 where
  pub cid_fits : cid < 2 ^ 32
  pub not_broadcast : cid ≢ cid_broadcast
  pub command_fits : command < 128
  pub not_init : command ≢ ctaphid_init
  pub not_cancel : command ≢ ctaphid_cancel
  pub channel : Channel
  pub known : find cid d.channels ≡ some channel
  pub own_cid : channel.cid ≡ cid
  pub free : busy_with_other cid d ≡ false

pub feed_report-init_frame :
    (cid command : ℕ) (payload : Bytes) (d : Device)
    → CanBegin cid command d
    → length payload < 2 ^ 16
    → feed_report (init_frame cid command payload) d
      ≡ dispatch_if_complete cid
          (assembling cid command payload (length (take init_payload payload)) 0)
          command
          d
unfolding handle_init_frame begin_message
feed_report-init_frame cid command payload d b h =
    init_frame-handled cid command payload d b.cid_fits
    ∙ rw
        (
          length-init_frame cid command payload,
          command-init_frame cid command payload b.command_fits,
          total-init_frame cid command payload h,
          b.known,
        )
        (let t1 : (command == ctaphid_init) ≡ false = ground (arith, b.not_init) in
          let t2 : (cid == cid_broadcast) ≡ false = ground (arith, b.not_broadcast) in
          let t3 : (command == ctaphid_cancel) ≡ false = ground (arith, b.not_cancel) in
          rw (t1, t2, t3) (rw b.free (rw (b.own_cid, first_chunk cid command payload) refl)))

-- The frames of a message of at most 7609 bytes, fed in order to a channel that is free, are
-- dispatched as that one message, whatever the channel was assembling before.
pub feed_all-message_frames :
    (cid command : ℕ) (payload : Bytes) (frames : List Bytes) (d : Device)
    → CanBegin cid command d
    → length payload ≤ 7609
    → message_frames cid command payload ≡ some frames
    → feed_all frames d
      ≡ run_command cid command payload
          (record d { channels = put cid (new_channel cid) d.channels })
unfolding message_frames feed_all
feed_all-message_frames cid command payload frames d b h e = rw (← split) (
    rw (feed_report-init_frame cid command payload d b (omega arith)) (
      feed_all-cont_frames (length payload) cid command payload offset 0 d b.cid_fits
        (omega (arith, length-take init_payload payload)) (omega arith)))
  where
    offset : ℕ
    offset = length (take init_payload payload)

    split :
        init_frame cid command payload ∷ cont_frames (length payload) cid payload offset 0 ≡ frames
    split = ground (arith, b.cid_fits)
