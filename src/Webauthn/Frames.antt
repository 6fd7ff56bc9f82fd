-- ===== src/Webauthn/Frames.antt =====
-- Outbound framing of linux-hello/src/webauthn/ctaphid.py: a message as 64-byte HID reports.
-- A byte is a number; `struct.pack` raises on a value that does not fit, which is `none`.
use linux_hello.Prelude.{
  ℕ, zero, suc, ◌+◌, ◌-◌, ◌*◌, ◌/◌, ◌%◌, ◌^◌, ◌≤◌, ◌<◌, ◌≡◌, ◌&&◌, Option, none, some, List, [],
  ◌∷◌, ◌++◌, arith, ltb, if◌then◌else◌, length, take, drop, replicate, get_or, All, length-append,
  length-replicate, length-take,
}
pub use linux_hello.Prelude.Bytes.{Bytes}

abbrev pub IsByte : ℕ → Type 0
IsByte b = b < 256

abbrev pub hid_report_size : ℕ
hid_report_size = 64

abbrev pub init_payload : ℕ
init_payload = hid_report_size - 7

abbrev pub cont_payload : ℕ
cont_payload = hid_report_size - 5

-- `struct.pack(">I", n)` and `struct.unpack(">I", …)[0]`
abbrev pub pack_u32 : ℕ → Bytes
pack_u32 n = (n / 2 ^ 24 % 256) ∷ (n / 2 ^ 16 % 256) ∷ (n / 2 ^ 8 % 256) ∷ (n % 256) ∷ []

abbrev pub unpack_u32 : Bytes → ℕ
unpack_u32 b = get_or b 0 0 * 2 ^ 24 + get_or b 1 0 * 2 ^ 16 + get_or b 2 0 * 2 ^ 8 + get_or b 3 0

-- `struct.pack(">H", n)` and `struct.unpack(">H", …)[0]`
abbrev pub pack_u16 : ℕ → Bytes
pack_u16 n = (n / 2 ^ 8 % 256) ∷ (n % 256) ∷ []

abbrev pub unpack_u16 : Bytes → ℕ
unpack_u16 b = get_or b 0 0 * 2 ^ 8 + get_or b 1 0

-- `frame.ljust(n, b"\x00")`
abbrev pub ljust : ℕ → Bytes → Bytes
ljust n b = b ++ replicate (n - length b) 0

-- `data[offset:offset + n]`
abbrev pub slice : ℕ → ℕ → Bytes → Bytes
slice offset n b = take n (drop offset b)

-- The continuation frame with sequence number `seq`.
unfoldable pub cont_frame : ℕ → ℕ → Bytes → Bytes
cont_frame cid seq chunk = ljust hid_report_size (pack_u32 cid ++ (seq % 128) ∷ chunk)

-- The `while offset < length` loop. Every round sends at least one byte, so `length payload` is
-- fuel enough.
unfoldable pub cont_frames : ℕ → ℕ → Bytes → ℕ → ℕ → List Bytes
cont_frames zero cid payload offset seq = []
cont_frames (suc fuel) cid payload offset seq =
    let chunk = slice offset cont_payload payload in
    let rest = cont_frames fuel cid payload (offset + length chunk) (seq + 1) in
    if ltb offset (length payload) then cont_frame cid seq chunk ∷ rest else []

unfoldable pub init_frame : ℕ → ℕ → Bytes → Bytes
init_frame cid command payload = ljust hid_report_size (
    pack_u32 cid
    ++ ((128 + command % 128) ∷ pack_u16 (length payload) ++ take init_payload payload))

-- `_send_message`, as the reports that it writes in one run under the send lock.
unfoldable pub message_frames : ℕ → ℕ → Bytes → Option (List Bytes)
message_frames cid command payload =
    if ltb cid (2 ^ 32) && ltb (length payload) (2 ^ 16)
    then some (
        init_frame cid command payload
        ∷ cont_frames (length payload) cid payload (length (take init_payload payload)) 0)
    else none

abbrev pub Is64 : Bytes → Type 0
Is64 b = length b ≡ hid_report_size

length-ljust : (n : ℕ) (b : Bytes) → length b ≤ n → length (ljust n b) ≡ n
length-ljust n b h =
    omega
      (arith, length-append b (replicate (n - length b) 0), length-replicate (n - length b) (zero))

cont_frame-Is64 :
    (cid seq offset : ℕ) (payload : Bytes)
    → Is64 (cont_frame cid seq (slice offset cont_payload payload))
unfolding cont_frame
cont_frame-Is64 cid seq offset payload =
    length-ljust 64 (pack_u32 cid ++ (seq % 128) ∷ slice offset cont_payload payload)
      (omega (arith, length-take cont_payload (drop offset payload)))

cont_frames-Is64 :
    (fuel cid : ℕ) (payload : Bytes) (offset seq : ℕ)
    → All Is64 (cont_frames fuel cid payload offset seq)
unfolding cont_frames
cont_frames-Is64 zero cid payload offset seq = tt
cont_frames-Is64 (suc fuel) cid payload offset seq = ground (
  arith,
  cont_frame-Is64 cid seq offset payload,
  cont_frames-Is64 fuel cid payload (offset + length (slice offset cont_payload payload)) (seq + 1),
)

init_frame-Is64 : (cid command : ℕ) (payload : Bytes) → Is64 (init_frame cid command payload)
unfolding init_frame
init_frame-Is64 cid command payload =
    length-ljust 64
      (pack_u32 cid
        ++ ((128 + command % 128) ∷ pack_u16 (length payload) ++ take init_payload payload))
      (omega (arith, length-take init_payload payload))

-- Every report of a message has the size of an HID report.
pub message_frames-Is64 :
    (cid command : ℕ) (payload : Bytes) (frames : List Bytes)
    → message_frames cid command payload ≡ some frames
    → All Is64 frames
unfolding message_frames
message_frames-Is64 cid command payload frames h = ground (
  arith,
  init_frame-Is64 cid command payload,
  cont_frames-Is64 (length payload) cid payload (length (take init_payload payload)) 0,
)
