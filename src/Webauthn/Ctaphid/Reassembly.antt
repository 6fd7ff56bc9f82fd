-- ===== src/Webauthn/Ctaphid/Reassembly.antt =====
-- A fragmented message and its reassembly (linux-hello/src/webauthn/ctaphid.py): `_send_message`
-- against `feed_report`.
use linux_hello.Prelude.{
  ℕ, zero, suc, ◌+◌, ◌-◌, ◌*◌, ◌%◌, ◌^◌, ◌≤◌, ◌<◌, min, ◌≡◌, refl, sym, ap, ◌∙◌, true, false, some,
  List, [], ◌∷◌, ◌++◌, arith, leb, ◌==◌, length, take, drop, find, put, find-put_self, put-put,
  take-length-take, take-append-take, take-append, take-all, length-take, length-drop,
}
use native.Mathlib.Decide.{dec_lt}
use linux_hello.Webauthn.Frames.{
  Bytes, pack_u32, unpack_u32, slice, cont_payload, cont_frame, cont_frames,
}
use linux_hello.Webauthn.Ctaphid.{
  Device, Channel, Outcome, done, raised, ◌>>=◌, new_channel, run_command, dispatch,
  dispatch_if_complete, handle_init_frame, continue_message, continue_channel, handle_cont_frame,
  feed_report,
}

-- The reports of a message, one after the other.
unfoldable pub feed_all : List Bytes → Device → Outcome
feed_all [] d = done d
feed_all (r ∷ rs) d = feed_report r d >>= feed_all rs

-- A channel that has the first `offset` bytes of a message.
abbrev pub assembling : ℕ → ℕ → Bytes → ℕ → ℕ → Channel
assembling cid command payload offset seq = record {
  cid = cid;
  command = some command;
  expected_length = length payload;
  buffer = take offset payload;
  next_seq = seq;
}

pub unpack-pack_u32 : (cid : ℕ) → cid < 2 ^ 32 → unpack_u32 (pack_u32 cid) ≡ cid
unpack-pack_u32 cid h = omega arith

next_buffer :
    (payload pad : Bytes) (offset : ℕ)
    → offset ≤ length payload
    → let chunk = slice offset cont_payload payload in
      take offset payload
        ++ take (min (length payload - length (take offset payload)) cont_payload) (chunk ++ pad)
      ≡ take (offset + length chunk) payload
next_buffer payload pad offset h =
    let chunk : Bytes = slice offset cont_payload payload in
    ap (λ b. take offset payload ++ b)
      (take-append (min (length payload - length (take offset payload)) cont_payload) chunk pad (
        omega (
          arith,
          length-take cont_payload (drop offset payload),
          length-drop offset payload,
          length-take offset payload,
        )))
    ∙ ap (λ b. take offset payload ++ b) (sym (take-length-take cont_payload (drop offset payload)))
    ∙ take-append-take offset (length chunk) (offset + length chunk) payload refl

-- The dispatch of a report by its fifth byte.
feed_report-cont :
    (a b c e s : ℕ) (rest : Bytes) (d : Device)
    → s < 128
    → feed_report (a ∷ b ∷ c ∷ e ∷ s ∷ rest) d
      ≡ handle_cont_frame (unpack_u32 (a ∷ b ∷ c ∷ e ∷ [])) (a ∷ b ∷ c ∷ e ∷ s ∷ rest) d
unfolding feed_report
feed_report-cont a b c e s rest d h = ground arith

pub feed_report-init :
    (a b c e s : ℕ) (rest : Bytes) (d : Device)
    → 128 ≤ s
    → feed_report (a ∷ b ∷ c ∷ e ∷ s ∷ rest) d
      ≡ handle_init_frame (unpack_u32 (a ∷ b ∷ c ∷ e ∷ [])) (a ∷ b ∷ c ∷ e ∷ s ∷ rest) d
unfolding feed_report
feed_report-init a b c e s rest d h = ground arith

-- A continuation frame in its turn, on the channel that waits for it.
continue-in_turn :
    (cid command : ℕ) (payload : Bytes) (offset seq : ℕ) (d : Device)
    → seq < 128
    → offset ≤ length payload
    → continue_message cid
        (assembling cid command payload offset seq)
        (some command)
        (cont_frame cid seq (slice offset cont_payload payload))
        d
      ≡ dispatch_if_complete cid
          (assembling cid command payload
            (offset + length (slice offset cont_payload payload))
            (seq + 1))
          command
          d
unfolding continue_message cont_frame
continue-in_turn cid command payload offset seq d hs ho =
    let in_turn : (seq % 128 % 128 == seq) ≡ true = ground arith in
    rw in_turn (rw (next_buffer payload _ offset ho) refl)

pub cont_frame-handled :
    (cid seq : ℕ) (chunk : Bytes) (d : Device)
    → cid < 2 ^ 32
    → feed_report (cont_frame cid seq chunk) d ≡ handle_cont_frame cid (cont_frame cid seq chunk) d
unfolding cont_frame
cont_frame-handled cid seq chunk d h =
    feed_report-cont _ _ _ _ _ _ d (omega arith)
    ∙ ap (λ i. handle_cont_frame i (cont_frame cid seq chunk) d) (unpack-pack_u32 cid h)

-- One continuation frame in its turn.
pub feed_report-cont_frame :
    (cid command : ℕ) (payload : Bytes) (offset seq : ℕ) (d : Device)
    → cid < 2 ^ 32
    → seq < 128
    → offset ≤ length payload
    → find cid d.channels ≡ some (assembling cid command payload offset seq)
    → feed_report (cont_frame cid seq (slice offset cont_payload payload)) d
      ≡ dispatch_if_complete cid
          (assembling cid command payload
            (offset + length (slice offset cont_payload payload))
            (seq + 1))
          command
          d
unfolding handle_cont_frame continue_channel
feed_report-cont_frame cid command payload offset seq d hc hs ho e =
    cont_frame-handled cid seq (slice offset cont_payload payload) d hc
    ∙ ap (λ o. continue_channel cid o (cont_frame cid seq (slice offset cont_payload payload)) d) e
    ∙ continue-in_turn cid command payload offset seq d hs ho

>>=-done : (o : Outcome) → (o >>= done) ≡ o
>>=-done (done d) = refl
>>=-done (raised d) = refl

feed_all-nil : (o : Outcome) → (o >>= feed_all []) ≡ o
unfolding feed_all
feed_all-nil (done d) = refl
feed_all-nil (raised d) = refl

cont_frames-end :
    (fuel cid : ℕ) (payload : Bytes) (offset seq : ℕ)
    → length payload ≤ offset
    → cont_frames fuel cid payload offset seq ≡ []
unfolding cont_frames
cont_frames-end zero cid payload offset seq h = refl
cont_frames-end (suc fuel) cid payload offset seq h = ground arith

-- What a complete message does.
abbrev pub complete : ℕ → ℕ → Bytes → Device → Outcome
complete cid command payload d =
    run_command cid command payload (record d { channels = put cid (new_channel cid) d.channels })

-- After a frame that brings the data up to `offset`: the message is complete, or it waits for more.
dispatch_if_complete-full :
    (cid command : ℕ) (payload : Bytes) (offset seq : ℕ) (d : Device)
    → length payload ≤ offset
    → dispatch_if_complete cid (assembling cid command payload offset seq) command d
      ≡ complete cid command payload d
unfolding dispatch_if_complete dispatch
dispatch_if_complete-full cid command payload offset seq d h =
    rw (take-all offset payload h)
      (let full : leb (length payload) (length payload) ≡ true = ground arith in rw full refl)

pub dispatch_if_complete-more :
    (cid command : ℕ) (payload : Bytes) (offset seq : ℕ) (d : Device)
    → offset < length payload
    → dispatch_if_complete cid (assembling cid command payload offset seq) command d
      ≡ done
          (record d { channels = put cid (assembling cid command payload offset seq) d.channels })
unfolding dispatch_if_complete
dispatch_if_complete-more cid command payload offset seq d h =
    let more : leb (length payload) (length (take offset payload)) ≡ false =
      ground (arith, length-take offset payload) in
    rw more refl

complete-put :
    (cid command : ℕ) (payload : Bytes) (c : Channel) (d : Device)
    → complete cid command payload (record d { channels = put cid c d.channels })
      ≡ complete cid command payload d
complete-put cid command payload c d = rw put-put refl

complete_after_end :
    (fuel cid command : ℕ) (payload : Bytes) (offset seq : ℕ) (d : Device)
    → length payload ≤ offset
    → (dispatch_if_complete cid (assembling cid command payload offset seq) command d
        >>= feed_all (cont_frames fuel cid payload offset seq))
      ≡ complete cid command payload d
complete_after_end fuel cid command payload offset seq d h =
    rw
      (
        cont_frames-end fuel cid payload offset seq h,
        dispatch_if_complete-full cid command payload offset seq d h,
      )
      (feed_all-nil (complete cid command payload d))

pub cont_frames-more :
    (fuel cid : ℕ) (payload : Bytes) (offset seq : ℕ)
    → offset < length payload
    → cont_frames (suc fuel) cid payload offset seq
      ≡ cont_frame cid seq (slice offset cont_payload payload)
        ∷ cont_frames fuel cid payload
            (offset + length (slice offset cont_payload payload))
            (seq + 1)
unfolding cont_frames
cont_frames-more fuel cid payload offset seq h = ground arith

pub length-slice :
    (offset : ℕ) (payload : Bytes)
    → length (slice offset cont_payload payload) ≡ min 59 (length payload - offset)
length-slice offset payload =
    omega (arith, length-take cont_payload (drop offset payload), length-drop offset payload)

-- The rest of a message, from the frame after the first `offset` bytes.
pub feed_all-cont_frames :
    (fuel cid command : ℕ) (payload : Bytes) (offset seq : ℕ) (d : Device)
    → cid < 2 ^ 32
    → length payload + seq * 59 ≤ offset + 128 * 59
    → length payload ≤ offset + fuel
    → (dispatch_if_complete cid (assembling cid command payload offset seq) command d
        >>= feed_all (cont_frames fuel cid payload offset seq))
      ≡ complete cid command payload d
unfolding feed_all
feed_all-cont_frames zero cid command payload offset seq d hc hs hf =
    complete_after_end zero cid command payload offset seq d (omega arith)
feed_all-cont_frames (suc fuel) cid command payload offset seq d hc hs hf =
    elim (dec_lt offset (length payload)) [
      | no end ↦ complete_after_end (suc fuel) cid command payload offset seq d (omega arith)
      | yes more ↦
          let waiting : Device = record d {
            channels = put cid (assembling cid command payload offset seq) d.channels;
          } in
          rw
            (
              dispatch_if_complete-more cid command payload offset seq d more,
              cont_frames-more fuel cid payload offset seq more,
              feed_report-cont_frame cid command payload offset seq waiting hc (omega arith)
                  (omega arith)
                  (find-put_self cid (assembling cid command payload offset seq) d.channels),
            )
            (feed_all-cont_frames fuel cid command payload
                (offset + length (slice offset cont_payload payload)) (seq + 1) waiting hc
                (omega (arith, length-slice offset payload))
                (omega (arith, length-slice offset payload))
              ∙ complete-put cid command payload (assembling cid command payload offset seq) d)
    ]
