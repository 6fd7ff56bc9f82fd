-- ===== src/Webauthn/Ctaphid/Effect.antt =====
-- What the parts of `feed_report` (linux-hello/src/webauthn/ctaphid.py) do to a command that runs.
use linux_hello.Prelude.{
  ℕ, ◌^◌, ◌≡◌, refl, ◌⊎◌, inl, inr, Bool, true, false, not, Option, none, some, List, [], ◌∷◌,
  arith, ltb, leb, ◌==◌, length, find, put, is_some, if_cases,
}
use linux_hello.Webauthn.Codes.{
  ctaphid_cbor, cid_broadcast, ctaphid_ping, ctaphid_wink, ctaphid_msg, ctaphid_lock,
}
use linux_hello.Webauthn.Frames.{Bytes, message_frames}
use linux_hello.Webauthn.Ctaphid.{
  Device, Channel, Outcome, written, send_message, send_error, cancel_active, start_cbor, is_cid,
  run_command, dispatch, init_reply, handle_ctaphid_init, dispatch_if_complete, resync,
  reset_channel,
}
use linux_hello.Webauthn.Ctaphid.Steps.{after}

-- What becomes of the running command: its worker and its channel stay, and either its flags stay,
-- or it is cancelled, with a reply unless `R`.
pub record Effect (R : Type 0) (d e : Device) : Type 0 where
  pub worker : e.worker ≡ d.worker
  pub active : e.active_cid ≡ d.active_cid
  pub flags :
      ((e.cancelled ≡ d.cancelled) × (e.cancel_reply ≡ d.cancel_reply))
      ⊎ ((e.cancelled ≡ true) × ((e.cancel_reply ≡ true) ⊎ R))

written-Effect :
    (R : Type 0) (d : Device) (frames : Option (List Bytes)) → Effect R d (after (written d frames))
written-Effect R d none = record { worker = refl; active = refl; flags = inl (refl, refl) }
written-Effect R d (some frames) = record { worker = refl; active = refl; flags = inl (refl, refl) }

pub send_message-Effect :
    (R : Type 0) (cid command : ℕ) (payload : Bytes) (d : Device)
    → Effect R d (after (send_message cid command payload d))
unfolding send_message
send_message-Effect R cid command payload d =
    written-Effect R d (message_frames cid command payload)

pub send_error-Effect :
    (R : Type 0) (cid code : ℕ) (d : Device) → Effect R d (after (send_error cid code d))
unfolding send_error
send_error-Effect R cid code d = send_message-Effect R cid _ _ d

start_cbor-Effect :
    (R : Type 0) (cid : ℕ) (payload : Bytes) (d : Device)
    → is_some d.active_cid ≡ true
    → Effect R d (after (start_cbor cid payload d))
unfolding start_cbor
start_cbor-Effect R cid [] d e = send_error-Effect R cid _ d
start_cbor-Effect R cid (b ∷ payload) d e = simp e (send_error-Effect R cid _ d)

run_command-Effect :
    (R : Type 0) (cid command : ℕ) (payload : Bytes) (d : Device)
    → is_some d.active_cid ≡ true
    → Effect R d (after (run_command cid command payload d))
unfolding run_command
run_command-Effect R cid command payload d e =
    let P : Outcome → Type 0 = λ o. Effect R d (after o) in
    if_cases P (command == ctaphid_ping) _ _ (λ _. send_message-Effect R cid _ payload d)
      (λ _.
        if_cases P (command == ctaphid_wink) _ _ (λ _. send_message-Effect R cid _ _ d)
          (λ _.
            if_cases P (command == ctaphid_msg) _ _ (λ _. send_error-Effect R cid _ d)
              (λ _.
                if_cases P (command == ctaphid_cbor) _ _ (λ _. start_cbor-Effect R cid payload d e)
                  (λ _.
                    if_cases P (command == ctaphid_lock) _ _ (λ _. send_message-Effect R cid _ _ d)
                      (λ _. send_error-Effect R cid _ d)))))

-- Only the entry of a channel changes before the rest runs.
pub Effect-channels :
    (R : Type 0) (next : ℕ) (channels : List (ℕ × Channel)) (d e : Device)
    → Effect R (record d { channels = channels; next_cid = next }) e
    → Effect R d e
Effect-channels R next channels d e f = record {
  worker = f.worker;
  active = f.active;
  flags = f.flags;
}

pub dispatch_if_complete-Effect :
    (R : Type 0) (key : ℕ) (c : Channel) (command : ℕ) (d : Device)
    → is_some d.active_cid ≡ true
    → Effect R d (after (dispatch_if_complete key c command d))
unfolding dispatch_if_complete dispatch
dispatch_if_complete-Effect R key c command d e =
    if_cases (λ o. Effect R d (after o)) (leb c.expected_length (length c.buffer)) _ _
      (λ _.
        Effect-channels R d.next_cid (put key (reset_channel c) d.channels) d _
          (run_command-Effect R c.cid command c.buffer _ e))
      (λ _. record { worker = refl; active = refl; flags = inl (refl, refl) })

pub cancel_active-Effect :
    (R : Type 0) (cid : ℕ) (reply : Bool) (d : Device)
    → ((is_cid d.active_cid cid ≡ true) → (reply ≡ true) ⊎ R)
    → Effect R d (cancel_active cid reply d)
unfolding cancel_active
cancel_active-Effect R cid reply d h =
    if_cases (λ e. Effect R d e) (is_cid d.active_cid cid) _ _
      (λ hit. record { worker = refl; active = refl; flags = inr (refl, h hit) })
      (λ _. record { worker = refl; active = refl; flags = inl (refl, refl) })

init_reply-Effect :
    (R : Type 0) (cid new_cid : ℕ) (nonce : Bytes) (c d : Device)
    → Effect R c d
    → Effect R c (after (init_reply cid new_cid nonce d))
unfolding init_reply send_message
init_reply-Effect R cid new_cid nonce c d f =
    if_cases (λ o. Effect R c (after o)) (ltb new_cid (2 ^ 32)) _ _ (λ _. sent_after c d _ f)
      (λ _. f)
  where
    sent_after :
        (c d : Device) (frames : Option (List Bytes))
        → Effect R c d
        → Effect R c (after (written d frames))
    sent_after c d none f = f
    sent_after c d (some frames) f = record {
      worker = f.worker;
      active = f.active;
      flags = f.flags;
    }

pub handle_ctaphid_init-Effect :
    (R : Type 0) (cid : ℕ) (nonce : Bytes) (d : Device)
    → ((length nonce == 8) ≡ true → is_cid d.active_cid cid ≡ true → R)
    → Effect R d (after (handle_ctaphid_init cid nonce d))
unfolding handle_ctaphid_init
handle_ctaphid_init-Effect R cid nonce d h =
    let P : Outcome → Type 0 = λ o. Effect R d (after o) in
    if_cases P (not (length nonce == 8)) _ _ (λ _. send_error-Effect R cid _ d)
      (λ sized.
        if_cases P (cid == cid_broadcast) _ _
          (λ _.
            init_reply-Effect R cid d.next_cid nonce d _
              (record { worker = refl; active = refl; flags = inl (refl, refl) }))
          (λ _. init_reply-Effect R cid cid nonce d _ (
            Effect-channels R d.next_cid (resync cid (find cid d.channels) d.channels) d _
              (cancel_active-Effect R cid false _ (λ hit. inr (h (ground arith) hit))))))
