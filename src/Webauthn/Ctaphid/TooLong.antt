-- ===== src/Webauthn/Ctaphid/TooLong.antt =====
-- A message that is longer than 128 continuation frames can carry, through
-- linux-hello/src/webauthn/ctaphid.py: `_send_message` wraps its sequence numbers, `feed_report` does not.
use linux_hello.Prelude.{
  ℕ, zero, suc, ◌+◌, ◌*◌, ◌%◌, ◌^◌, ◌≤◌, ◌<◌, ◌≡◌, refl, ap, ◌∙◌, inl, inr, true, false, some, List,
  [], ◌∷◌, arith, ltb, ◌==◌, Option-cases, length, take, get_or, find, put, find-put_self, put-put,
  length-take,
}
use native.Mathlib.Decide.{dec_lt}
use linux_hello.Webauthn.Codes.{ctaphid_error, err_invalid_seq}
use linux_hello.Webauthn.Frames.{
  Bytes, slice, cont_payload, init_payload, cont_frame, cont_frames, init_frame, message_frames,
}
use linux_hello.Webauthn.Ctaphid.{
  Device, Outcome, done, ◌>>=◌, new_channel, send_error, continue_message, continue_channel,
  handle_cont_frame, feed_report, send_message,
}
use linux_hello.Webauthn.Ctaphid.Reassembly.{
  feed_all, assembling, feed_report-cont_frame, cont_frame-handled, dispatch_if_complete-more,
  cont_frames-more, length-slice,
}
use linux_hello.Webauthn.Ctaphid.Echo.{CanBegin, feed_report-init_frame}

idle_frame :
    (cid : ℕ) (chunk : Bytes) (seq : ℕ) (d : Device)
    → cid < 2 ^ 32
    → find cid d.channels ≡ some (new_channel cid)
    → feed_report (cont_frame cid seq chunk) d ≡ done d
unfolding handle_cont_frame continue_channel continue_message
idle_frame cid chunk seq d hc e =
    cont_frame-handled cid seq chunk d hc
    ∙ ap (λ o. continue_channel cid o (cont_frame cid seq chunk) d) e

-- Continuation frames for an idle channel do nothing.
cont_frames-ignored :
    (fuel cid : ℕ) (payload : Bytes) (offset seq : ℕ) (d : Device)
    → cid < 2 ^ 32
    → find cid d.channels ≡ some (new_channel cid)
    → feed_all (cont_frames fuel cid payload offset seq) d ≡ done d
unfolding feed_all cont_frames
cont_frames-ignored zero cid payload offset seq d hc e = refl
cont_frames-ignored (suc fuel) cid payload offset seq d hc e =
    elim (dec_lt offset (length payload)) [
      | no end ↦ let test : ltb offset (length payload) ≡ false = ground arith in rw test refl
      | yes more ↦
          let test : ltb offset (length payload) ≡ true = ground arith in
          rw (test, idle_frame cid (slice offset cont_payload payload) seq d hc e)
            (cont_frames-ignored fuel cid payload
              (offset + length (slice offset cont_payload payload)) (seq + 1) d hc e)
    ]

-- The error that ends the transaction.
abbrev pub out_of_sequence : ℕ → Device → Outcome
out_of_sequence cid d =
    send_error cid err_invalid_seq (record d { channels = put cid (new_channel cid) d.channels })

out_of_sequence-ignored :
    (fuel cid : ℕ) (payload : Bytes) (offset seq : ℕ) (d : Device)
    → cid < 2 ^ 32
    → (out_of_sequence cid d >>= feed_all (cont_frames fuel cid payload offset seq))
      ≡ out_of_sequence cid d
unfolding send_error send_message
out_of_sequence-ignored fuel cid payload offset seq d hc =
    elim (Option-cases (message_frames cid ctaphid_error (err_invalid_seq ∷ []))) [
      | inl e ↦ rw e refl
      | inr (frames, e) ↦ rw e (
          cont_frames-ignored fuel cid payload offset seq _ hc
            (find-put_self cid (new_channel cid) d.channels))
    ]

out_of_turn :
    (cid : ℕ) (chunk : Bytes) → (get_or (cont_frame cid 128 chunk) 4 0 % 128 == 128) ≡ false
unfolding cont_frame
out_of_turn cid chunk = refl

-- The frame after the last sequence number.
continue-out_of_turn :
    (cid command : ℕ) (payload : Bytes) (offset : ℕ) (chunk : Bytes) (d : Device)
    → cid < 2 ^ 32
    → feed_report
        (cont_frame cid 128 chunk)
        (record d { channels = put cid (assembling cid command payload offset 128) d.channels })
      ≡ out_of_sequence cid d
unfolding handle_cont_frame continue_channel continue_message
continue-out_of_turn cid command payload offset chunk d hc =
    cont_frame-handled cid 128 chunk _ hc
    ∙ rw (find-put_self cid (assembling cid command payload offset 128) d.channels)
        (rw (out_of_turn cid chunk) (rw put-put refl))

feed_all-overlong :
    (fuel cid command : ℕ) (payload : Bytes) (offset seq : ℕ) (d : Device)
    → cid < 2 ^ 32
    → offset + 128 * 59 < length payload + seq * 59
    → seq ≤ 128
    → length payload ≤ offset + fuel
    → feed_all
        (cont_frames fuel cid payload offset seq)
        (record d { channels = put cid (assembling cid command payload offset seq) d.channels })
      ≡ out_of_sequence cid d
unfolding feed_all
feed_all-overlong zero cid command payload offset seq d hc hl hs hf = absurd (omega arith)
feed_all-overlong (suc fuel) cid command payload offset seq d hc hl hs hf =
    rw (cont_frames-more fuel cid payload offset seq (omega arith)) (elim (dec_lt seq 128) [
      | no last ↦
          let e : seq ≡ 128 = omega arith in
          rw
            (
              e,
              continue-out_of_turn cid command payload offset (slice offset cont_payload payload) d
                  hc,
            )
            (out_of_sequence-ignored fuel cid payload _ _ d hc)
      | yes turn ↦
          let here : Device = record d {
            channels = put cid (assembling cid command payload offset seq) d.channels;
          } in
          rw
            (
              feed_report-cont_frame cid command payload offset seq here hc turn (omega arith)
                  (find-put_self cid (assembling cid command payload offset seq) d.channels),
              dispatch_if_complete-more cid command payload
                  (offset + length (slice offset cont_payload payload)) (seq + 1) here
                  (omega (arith, length-slice offset payload)),
            )
            (rw put-put (
              feed_all-overlong fuel cid command payload
                (offset + length (slice offset cont_payload payload)) (seq + 1) d hc
                (omega (arith, length-slice offset payload)) (omega arith)
                (omega (arith, length-slice offset payload))))
    ])

-- The frames of a message of more than 7609 bytes are answered with one ERR_INVALID_SEQ, and the command is not run:
-- the channel is idle after them. This is on a channel that was given out, while no other channel's command
-- runs, and for a command other than INIT and CANCEL (CanBegin).
pub feed_all-too_long :
    (cid command : ℕ) (payload : Bytes) (frames : List Bytes) (d : Device)
    → CanBegin cid command d
    → 7609 < length payload
    → message_frames cid command payload ≡ some frames
    → feed_all frames d ≡ out_of_sequence cid d
unfolding message_frames feed_all
feed_all-too_long cid command payload frames d b h e = rw (← split) (
    rw
      (
        feed_report-init_frame cid command payload d b fits,
        dispatch_if_complete-more cid command payload offset 0 d
            (omega (arith, length-take init_payload payload)),
      )
      (feed_all-overlong (length payload) cid command payload offset 0 d b.cid_fits
        (omega (arith, length-take init_payload payload)) (omega arith) (omega arith)))
  where
    offset : ℕ
    offset = length (take init_payload payload)

    fits : length payload < 2 ^ 16
    fits = ground arith

    split :
        init_frame cid command payload ∷ cont_frames (length payload) cid payload offset 0 ≡ frames
    split = ground (arith, b.cid_fits)
