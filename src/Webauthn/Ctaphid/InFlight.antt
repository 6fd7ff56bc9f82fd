-- ===== src/Webauthn/Ctaphid/InFlight.antt =====
-- The command that runs while reports arrive (linux-hello/src/webauthn/ctaphid.py).
use linux_hello.Prelude.{
  ℕ, ◌%◌, ◌≡◌, refl, ◌∙◌, inl, inr, Bool, true, false, ◌&&◌, not, Option, none, some, List, [], ◌∷◌,
  arith, ltb, leb, ◌==◌, length, take, get_or, find, put, All, is_some, if_cases,
}
use linux_hello.Webauthn.Codes.{ctaphid_init, ctaphid_cancel, cid_broadcast}
use linux_hello.Webauthn.Frames.{Bytes, unpack_u32, unpack_u16, slice}
use linux_hello.Webauthn.Ctaphid.{
  Device, Channel, Outcome, begin_message, reset_channel, handle_init_frame, continue_message,
  continue_channel, handle_cont_frame, feed_report, busy_with_other,
}
use linux_hello.Webauthn.Ctaphid.Steps.{
  Event, host_report, keepalive_tick, cbor_answer, keepalive_of, keepalive, step, after, run,
}
use linux_hello.Webauthn.Ctaphid.Effect.{
  Effect, send_message-Effect, send_error-Effect, Effect-channels, dispatch_if_complete-Effect,
  cancel_active-Effect, handle_ctaphid_init-Effect,
}

-- An INIT frame for the channel, with the eight bytes of a nonce.
unfoldable pub is_resync : ℕ → Bytes → Bool
is_resync cid report =
    leb 7 (length report)
    && leb 128 (get_or report 4 0)
    && get_or report 4 0 % 128 == ctaphid_init
    && unpack_u32 (take 4 report) == cid
    && length (slice 7 (unpack_u16 (slice 5 2 report)) report) == 8

begin_message-Effect :
    (R : Type 0) (cid : ℕ) (o : Option Channel) (command total : ℕ) (report : Bytes) (d : Device)
    → is_some d.active_cid ≡ true
    → Effect R d (after (begin_message cid o command total report d))
unfolding begin_message
begin_message-Effect R cid none command total report d e = send_error-Effect R cid _ d
begin_message-Effect R cid (some c) command total report d e =
    let P : Outcome → Type 0 = λ o. Effect R d (after o) in
    if_cases P (command == ctaphid_cancel) _ _
      (λ _. cancel_active-Effect R cid true d (λ _. inl refl))
      (λ _.
        if_cases P (busy_with_other cid d) _ _ (λ _. send_error-Effect R cid _ d)
          (λ _. dispatch_if_complete-Effect R cid _ command d e))

continue_message-Effect :
    (R : Type 0) (cid : ℕ) (c : Channel) (o : Option ℕ) (report : Bytes) (d : Device)
    → is_some d.active_cid ≡ true
    → Effect R d (after (continue_message cid c o report d))
unfolding continue_message
continue_message-Effect R cid c none report d e = record {
  worker = refl;
  active = refl;
  flags = inl (refl, refl);
}
continue_message-Effect R cid c (some command) report d e =
    if_cases (λ o. Effect R d (after o)) (not (get_or report 4 0 % 128 == c.next_seq)) _ _
      (λ _.
        Effect-channels R d.next_cid (put cid (reset_channel c) d.channels) d _
          (send_error-Effect R cid _ _))
      (λ _. dispatch_if_complete-Effect R cid _ command d e)

handle_cont_frame-Effect :
    (R : Type 0) (cid : ℕ) (report : Bytes) (d : Device)
    → is_some d.active_cid ≡ true
    → Effect R d (after (handle_cont_frame cid report d))
unfolding handle_cont_frame
handle_cont_frame-Effect R cid report d e = go (find cid d.channels)
  where
    go : (o : Option Channel) → Effect R d (after (continue_channel cid o report d))
    go none =
        unfold continue_channel in record { worker = refl; active = refl; flags = inl (refl, refl) }
    go (some c) = unfold continue_channel in continue_message-Effect R cid c c.command report d e

-- One report, while the command of channel `cid` runs.
pub feed_report-Effect :
    (cid : ℕ) (report : Bytes) (d : Device)
    → d.active_cid ≡ some cid
    → Effect (is_resync cid report ≡ true) d (after (feed_report report d))
unfolding feed_report handle_init_frame is_resync
feed_report-Effect cid report d e =
    let busy : is_some d.active_cid ≡ true = ground arith in
    let from : ℕ = unpack_u32 (take 4 report) in
    let R : Type 0 = is_resync cid report ≡ true in
    let P : Outcome → Type 0 = λ o. Effect R d (after o) in
    if_cases P (ltb (length report) 5) _ _
      (λ _. record { worker = refl; active = refl; flags = inl (refl, refl) })
      (λ _.
        if_cases P (leb 128 (get_or report 4 0)) _ _
          (λ init.
            if_cases P (ltb (length report) 7) _ _
              (λ _. record { worker = refl; active = refl; flags = inl (refl, refl) })
              (λ whole.
                if_cases P (get_or report 4 0 % 128 == ctaphid_init) _ _
                  (λ is_init. handle_ctaphid_init-Effect R from _ d (λ sized hit. ground arith))
                  (λ _.
                    if_cases P (from == cid_broadcast) _ _ (λ _. send_error-Effect R from _ d)
                      (λ _. begin_message-Effect R from (find from d.channels) _ _ report d busy))))
          (λ _. handle_cont_frame-Effect R from report d busy))

pub keepalive-Effect : (R : Type 0) (d : Device) → Effect R d (after (keepalive d))
unfolding keepalive
keepalive-Effect R d = go d.worker
  where
    go : (w : Option (ℕ × Bytes)) → Effect R d (after (keepalive_of w d))
    go none = record { worker = refl; active = refl; flags = inl (refl, refl) }
    go (some (cid, payload)) = send_message-Effect R cid _ _ d

-- The command of channel `cid` runs, and its answer will be sent.
abbrev pub is_dropped : Device → Bool
is_dropped d = d.cancelled && not d.cancel_reply

pub record Running (cid : ℕ) (payload : Bytes) (d : Device) : Type 0 where
  pub worker : d.worker ≡ some (cid, payload)
  pub active : d.active_cid ≡ some cid

-- Events before the authenticator answers.
abbrev pub IsPending : Event → Type 0
IsPending (host_report report) = Unit
IsPending keepalive_tick = Unit
IsPending (cbor_answer answer) = ⊥

-- The same, with no INIT frame that re-synchronises the channel.
abbrev pub NoResync : ℕ → Event → Type 0
NoResync cid (host_report report) = is_resync cid report ≡ false
NoResync cid keepalive_tick = Unit
NoResync cid (cbor_answer answer) = ⊥

Effect-Running :
    (R : Type 0) (cid : ℕ) (payload : Bytes) (d e : Device)
    → Running cid payload d
    → Effect R d e
    → Running cid payload e
Effect-Running R cid payload d e r f = record {
  worker = f.worker ∙ r.worker;
  active = f.active ∙ r.active;
}

Effect-is_dropped :
    (R : Type 0) (d e : Device) → ¬ R → Effect R d e → is_dropped d ≡ false → is_dropped e ≡ false
Effect-is_dropped R d e n f h = elim f.flags [
  | inl (p, q) ↦ rw (p, q) h
  | inr (p, inl q) ↦ rw (p, q) refl
  | inr (p, inr r) ↦ absurd (n r)
]

pub step-Running :
    (other cid : ℕ) (payload : Bytes) (e : Event) (d : Device)
    → IsPending e
    → Running cid payload d
    → Running cid payload (after (step other e d))
unfolding step
step-Running other cid payload (host_report report) d p r =
    Effect-Running _ cid payload d _ r (feed_report-Effect cid report d r.active)
step-Running other cid payload keepalive_tick d p r =
    Effect-Running ⊥ cid payload d _ r (keepalive-Effect ⊥ d)
step-Running other cid payload (cbor_answer answer) d p r = absurd p

-- Until the authenticator answers, no report and no keepalive starts another command or takes
-- the running one from its channel.
pub run-Running :
    (other cid : ℕ) (payload : Bytes) (es : List Event) (d : Device)
    → All IsPending es
    → Running cid payload d
    → Running cid payload (run other es d)
unfolding run
run-Running other cid payload [] d p r = r
run-Running other cid payload (e ∷ es) d p r =
    run-Running other cid payload es _ p.1 (step-Running other cid payload e d p.0 r)

pub NoResync-IsPending : (cid : ℕ) (e : Event) → NoResync cid e → IsPending e
NoResync-IsPending cid (host_report report) h = tt
NoResync-IsPending cid keepalive_tick h = tt
NoResync-IsPending cid (cbor_answer answer) h = h

pub step-is_dropped :
    (other cid : ℕ) (payload : Bytes) (e : Event) (d : Device)
    → NoResync cid e
    → Running cid payload d
    → is_dropped d ≡ false
    → is_dropped (after (step other e d)) ≡ false
unfolding step
step-is_dropped other cid payload (host_report report) d p r h =
    Effect-is_dropped _ d _ (λ t. cc (p, t)) (feed_report-Effect cid report d r.active) h
step-is_dropped other cid payload keepalive_tick d p r h =
    Effect-is_dropped ⊥ d _ (λ t. t) (keepalive-Effect ⊥ d) h
step-is_dropped other cid payload (cbor_answer answer) d p r h = absurd p
