-- ===== src/Webauthn/Ctaphid.antt =====
-- The CTAPHID transport (linux-hello/src/webauthn/ctaphid.py, class CtapHidDevice): channels,
-- reassembly, dispatch, the worker of a CBOR command and its cancellation.
-- The worker thread is a field: it is started by a report, ticks keepalives, and ends in a step of
-- its own, so an interleaving is a sequence of steps. What `struct` raises is `raised`, with the
-- state that the call left.
pub mod Steps
pub mod Invariant
pub mod Reassembly
pub mod Echo
pub mod TooLong
pub mod Effect
pub mod InFlight
pub mod Answers
pub mod Preservation
use linux_hello.Prelude.{
  ℕ, ◌+◌, ◌-◌, ◌%◌, ◌^◌, min, Bool, true, false, not, ◌&&◌, Option, none, some, List, [], ◌∷◌, ◌++◌,
  ltb, leb, ◌==◌, if◌then◌else◌, is_some, is_empty, length, take, get_or, find, put,
}
use linux_hello.Webauthn.Codes.{
  ctaphid_ping, ctaphid_msg, ctaphid_lock, ctaphid_init, ctaphid_wink, ctaphid_cbor, ctaphid_cancel,
  ctaphid_error, err_invalid_cmd, err_invalid_len, err_invalid_seq, err_channel_busy,
  err_invalid_channel, capabilities, ctaphid_protocol_version, cid_broadcast,
}
use linux_hello.Webauthn.Frames.{
  Bytes, init_payload, cont_payload, pack_u32, unpack_u32, unpack_u16, slice, message_frames,
}

pub record Channel : Type 0 where
  pub cid : ℕ
  pub command : Option ℕ
  pub expected_length : ℕ
  pub buffer : Bytes
  pub next_seq : ℕ

-- `Channel(cid)`, and `channel.reset()`, which sets the same fields.
abbrev pub new_channel : ℕ → Channel
new_channel cid = record {
  cid = cid;
  command = none;
  expected_length = 0;
  buffer = [];
  next_seq = 0;
}

abbrev pub reset_channel : Channel → Channel
reset_channel c = record c { command = none; expected_length = 0; buffer = []; next_seq = 0 }

-- `worker` holds the arguments of the running thread, `sent` the reports written so far, and
-- `aborts` counts the calls of `authenticator.cancel`.
pub record Device : Type 0 where
  pub channels : List (ℕ × Channel)
  pub next_cid : ℕ
  pub worker : Option (ℕ × Bytes)
  pub active_cid : Option ℕ
  pub cancelled : Bool
  pub cancel_reply : Bool
  pub sent : List Bytes
  pub aborts : ℕ

abbrev pub new_device : Device
new_device = record {
  channels = [];
  next_cid = 1;
  worker = none;
  active_cid = none;
  cancelled = false;
  cancel_reply = true;
  sent = [];
  aborts = 0;
}

pub data Outcome : Type 0 where
  done raised : Device → Outcome

infixl 5 ◌>>=◌
abbrev pub ◌>>=◌ : Outcome → (Device → Outcome) → Outcome
done d >>= f = f d
raised d >>= f = raised d

abbrev pub written : Device → Option (List Bytes) → Outcome
written d none = raised d
written d (some frames) = done (record d { sent = d.sent ++ frames })

unfoldable pub send_message : ℕ → ℕ → Bytes → Device → Outcome
send_message cid command payload d = written d (message_frames cid command payload)

unfoldable pub send_error : ℕ → ℕ → Device → Outcome
send_error cid code d = send_message cid ctaphid_error (code ∷ []) d

abbrev pub is_cid : Option ℕ → ℕ → Bool
is_cid none cid = false
is_cid (some active) cid = active == cid

unfoldable pub busy_with_other : ℕ → Device → Bool
busy_with_other cid d = is_some d.active_cid && not (is_cid d.active_cid cid)

unfoldable pub cancel_active : ℕ → Bool → Device → Device
cancel_active cid reply d =
    if is_cid d.active_cid cid
    then record d { cancelled = true; cancel_reply = reply; aborts = d.aborts + 1 }
    else d

unfoldable pub start_cbor : ℕ → Bytes → Device → Outcome
start_cbor cid payload d =
    if is_empty payload
    then send_error cid err_invalid_len d
    else if is_some d.active_cid
    then send_error cid err_channel_busy d
    else done (record d { active_cid = some cid; cancelled = false; worker = some (cid, payload) })

-- The branches of `_dispatch`, once the channel is reset.
unfoldable pub run_command : ℕ → ℕ → Bytes → Device → Outcome
run_command cid command payload d =
    if command == ctaphid_ping
    then send_message cid ctaphid_ping payload d
    else if command == ctaphid_wink
    then send_message cid ctaphid_wink [] d
    else if command == ctaphid_msg
    then send_error cid err_invalid_cmd d
    else if command == ctaphid_cbor
    then start_cbor cid payload d
    else if command == ctaphid_lock
    then send_message cid ctaphid_lock [] d
    else send_error cid err_invalid_cmd d

-- A channel object stands in the dictionary under its key: a change to it is a `put` there.
unfoldable pub dispatch : ℕ → Channel → ℕ → Device → Outcome
dispatch key channel command d =
    run_command channel.cid command channel.buffer
      (record d { channels = put key (reset_channel channel) d.channels })

abbrev pub resync : ℕ → Option Channel → List (ℕ × Channel) → List (ℕ × Channel)
resync cid none channels = channels
resync cid (some c) channels = put cid (reset_channel c) channels

unfoldable pub init_reply : ℕ → ℕ → Bytes → Device → Outcome
init_reply cid new_cid nonce d =
    if ltb new_cid (2 ^ 32)
    then send_message cid ctaphid_init
        (nonce ++ pack_u32 new_cid ++ (ctaphid_protocol_version ∷ 0 ∷ 0 ∷ 0 ∷ capabilities ∷ [])) d
    else raised d

unfoldable pub handle_ctaphid_init : ℕ → Bytes → Device → Outcome
unfolding init_reply
handle_ctaphid_init cid nonce d =
    if not (length nonce == 8)
    then send_error cid err_invalid_len d
    else if cid == cid_broadcast
    then init_reply cid d.next_cid nonce (record d {
      next_cid = d.next_cid + 1;
      channels = put d.next_cid (new_channel d.next_cid) d.channels;
    })
    else init_reply cid cid nonce (
        cancel_active cid false
          (record d { channels = resync cid (find cid d.channels) d.channels }))

-- The test after a frame of a message: dispatch it once the buffer holds it all.
unfoldable pub dispatch_if_complete : ℕ → Channel → ℕ → Device → Outcome
dispatch_if_complete key channel command d =
    if leb channel.expected_length (length channel.buffer)
    then dispatch key channel command d
    else done (record d { channels = put key channel d.channels })

unfoldable pub begin_message : ℕ → Option Channel → ℕ → ℕ → Bytes → Device → Outcome
begin_message cid none command total report d = send_error cid err_invalid_channel d
begin_message cid (some channel) command total report d =
    if command == ctaphid_cancel
    then done (cancel_active cid true d)
    else if busy_with_other cid d
    then send_error cid err_channel_busy d
    else dispatch_if_complete cid
        (record channel {
          command = some command;
          expected_length = total;
          buffer = slice 7 (min total init_payload) report;
          next_seq = 0;
        })
        command d

-- `struct.unpack(">H", report[5:7])` raises on a report of five or six bytes.
unfoldable pub handle_init_frame : ℕ → Bytes → Device → Outcome
unfolding begin_message
handle_init_frame cid report d =
    let command = get_or report 4 0 % 128 in
    let total = unpack_u16 (slice 5 2 report) in
    if ltb (length report) 7
    then raised d
    else if command == ctaphid_init
    then handle_ctaphid_init cid (slice 7 total report) d
    else if cid == cid_broadcast
    then send_error cid err_invalid_channel d
    else begin_message cid (find cid d.channels) command total report d

unfoldable pub continue_message : ℕ → Channel → Option ℕ → Bytes → Device → Outcome
continue_message cid channel none report d = done d
continue_message cid channel (some command) report d =
    if not (get_or report 4 0 % 128 == channel.next_seq)
    then send_error cid err_invalid_seq
        (record d { channels = put cid (reset_channel channel) d.channels })
    else dispatch_if_complete cid
        (record channel {
          next_seq = channel.next_seq + 1;
          buffer =
              channel.buffer
              ++ slice 5 (min (channel.expected_length - length channel.buffer) cont_payload)
                  report;
        })
        command d

unfoldable pub continue_channel : ℕ → Option Channel → Bytes → Device → Outcome
unfolding continue_message
continue_channel cid none report d = done d
continue_channel cid (some channel) report d = continue_message cid channel channel.command report d

unfoldable pub handle_cont_frame : ℕ → Bytes → Device → Outcome
unfolding continue_channel
handle_cont_frame cid report d = continue_channel cid (find cid d.channels) report d

-- `report[4] & 0x80` of a byte is its test against 128.
unfoldable pub feed_report : Bytes → Device → Outcome
feed_report report d =
    let cid = unpack_u32 (take 4 report) in
    if ltb (length report) 5
    then done d
    else if leb 128 (get_or report 4 0)
    then handle_init_frame cid report d
    else handle_cont_frame cid report d
