-- ===== src/Webauthn/Ctaphid/Invariant.antt =====
-- The state that linux-hello/src/webauthn/ctaphid.py keeps between steps.
use linux_hello.Prelude.{
  ℕ, ◌<◌, ◌≡◌, refl, inl, inr, Bool, Option, none, some, List, [], ◌∷◌, arith, is_some, ◌+◌, ◌^◌,
  All, All-append, All-find, All-put, All-map_of, length, find, put, Bool-cases, ltb, leb,
}
use linux_hello.Webauthn.Frames.{Bytes, Is64, message_frames, message_frames-Is64}
use linux_hello.Webauthn.Ctaphid.{
  Device, Channel, Outcome, written, send_message, send_error, cancel_active, start_cbor,
  run_command, dispatch, init_reply, dispatch_if_complete, reset_channel, new_channel, resync,
}
use linux_hello.Webauthn.Ctaphid.Steps.{after}

-- An idle channel holds no data, and a message that is being assembled lacks some.
abbrev pub IsPartial : Option ℕ → Bytes → ℕ → Type 0
IsPartial none buffer total = buffer ≡ []
IsPartial (some command) buffer total = length buffer < total

-- A channel stands under its own number, which was given out.
abbrev pub IsChannel : ℕ → ℕ × Channel → Type 0
IsChannel next (key, c) =
    (c.cid ≡ key) × (key < next) × IsPartial c.command c.buffer c.expected_length

-- A command runs exactly while its channel is the active one, and it is never empty.
abbrev pub IsRunning : Option (ℕ × Bytes) → Option ℕ → Type 0
IsRunning none none = Unit
IsRunning none (some active) = ⊥
IsRunning (some w) none = ⊥
IsRunning (some (cid, payload)) (some active) = (cid ≡ active) × (0 < length payload)

pub record IsValid (d : Device) : Type 0 where
  pub reports : All Is64 d.sent
  pub partial : All (IsChannel d.next_cid) d.channels
  pub running : IsRunning d.worker d.active_cid

abbrev pub Keeps : Outcome → Type 0
Keeps o = IsValid (after o)

pub written-Keeps :
    (d : Device) (frames : Option (List Bytes))
    → ((fs : List Bytes) → frames ≡ some fs → All Is64 fs)
    → IsValid d
    → Keeps (written d frames)
written-Keeps d none h v = v
written-Keeps d (some frames) h v = record {
  reports = All-append Is64 d.sent frames v.reports (h frames refl);
  partial = v.partial;
  running = v.running;
}

pub send_message-Keeps :
    (cid command : ℕ) (payload : Bytes) (d : Device)
    → IsValid d
    → Keeps (send_message cid command payload d)
unfolding send_message
send_message-Keeps cid command payload d v =
    written-Keeps d (message_frames cid command payload) (message_frames-Is64 cid command payload) v

pub send_error-Keeps : (cid code : ℕ) (d : Device) → IsValid d → Keeps (send_error cid code d)
unfolding send_error
send_error-Keeps cid code d v = send_message-Keeps cid _ _ d v

pub cancel_active-IsValid :
    (cid : ℕ) (reply : Bool) (d : Device) → IsValid d → IsValid (cancel_active cid reply d)
unfolding cancel_active
cancel_active-IsValid cid reply d v = ground arith

start_cbor-Keeps :
    (cid : ℕ) (payload : Bytes) (d : Device) → IsValid d → Keeps (start_cbor cid payload d)
unfolding start_cbor
start_cbor-Keeps cid [] d v = send_error-Keeps cid _ d v
start_cbor-Keeps cid (b ∷ payload) d v = elim (Bool-cases (is_some d.active_cid)) [
  | inl busy ↦ rw busy (send_error-Keeps cid _ d v)
  | inr idle ↦ rw idle (record { reports = v.reports; partial = v.partial; running = omega arith })
]

run_command-Keeps :
    (cid command : ℕ) (payload : Bytes) (d : Device)
    → IsValid d
    → Keeps (run_command cid command payload d)
unfolding run_command
run_command-Keeps cid command payload d v =
    grind (arith, send_error-Keeps, send_message-Keeps, start_cbor-Keeps)

pub put-IsValid :
    (key : ℕ) (c : Channel) (d : Device)
    → IsValid d
    → IsChannel d.next_cid (key, c)
    → IsValid (record d { channels = put key c d.channels })
put-IsValid key c d v h = record {
  reports = v.reports;
  partial = All-put (IsChannel d.next_cid) key c d.channels v.partial h;
  running = v.running;
}

dispatch-Keeps :
    (key : ℕ) (c : Channel) (command : ℕ) (d : Device)
    → IsValid d
    → c.cid ≡ key
    → key < d.next_cid
    → Keeps (dispatch key c command d)
unfolding dispatch
dispatch-Keeps key c command d v e h =
    run_command-Keeps c.cid command c.buffer _ (put-IsValid key (reset_channel c) d v (e, h, refl))

pub dispatch_if_complete-Keeps :
    (key : ℕ) (c : Channel) (command : ℕ) (d : Device)
    → IsValid d
    → c.cid ≡ key
    → key < d.next_cid
    → c.command ≡ some command
    → Keeps (dispatch_if_complete key c command d)
unfolding dispatch_if_complete
dispatch_if_complete-Keeps key c command d v e h k =
    elim (Bool-cases (leb c.expected_length (length c.buffer))) [
      | inl full ↦ rw full (dispatch-Keeps key c command d v e h)
      | inr more ↦ rw more (put-IsValid key c d v (e, h, rw k (ground arith)))
    ]

pub resync-IsValid :
    (cid : ℕ) (o : Option Channel) (d : Device)
    → IsValid d
    → find cid d.channels ≡ o
    → IsValid (record d { channels = resync cid o d.channels })
resync-IsValid cid none d v e = v
resync-IsValid cid (some c) d v e =
    let known = All-find (IsChannel d.next_cid) cid d.channels c v.partial e in
    put-IsValid cid (reset_channel c) d v (known.0, known.1, refl)

pub init_reply-Keeps :
    (cid new_cid : ℕ) (nonce : Bytes) (d : Device)
    → IsValid d
    → Keeps (init_reply cid new_cid nonce d)
unfolding init_reply
init_reply-Keeps cid new_cid nonce d v = elim (Bool-cases (ltb new_cid (2 ^ 32))) [
  | inl fits ↦ rw fits (send_message-Keeps cid _ _ d v)
  | inr wide ↦ rw wide v
]

pub allocate-IsValid :
    (d : Device)
    → IsValid d
    → IsValid (record d {
      next_cid = d.next_cid + 1;
      channels = put d.next_cid (new_channel d.next_cid) d.channels;
    })
allocate-IsValid d v = record {
  reports = v.reports;
  partial =
      All-put (IsChannel (d.next_cid + 1)) d.next_cid (new_channel d.next_cid) d.channels
        (All-map_of (IsChannel d.next_cid) (IsChannel (d.next_cid + 1)) d.channels
          (λ x h. (h.0, omega arith, h.2)) v.partial)
        (refl, omega arith, refl);
  running = v.running;
}
