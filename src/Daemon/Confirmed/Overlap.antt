-- ===== src/Daemon/Confirmed/Overlap.antt =====
-- Requests that overlap (`verify_confirmed` of linux-hello/src/daemon/manager.py).
use Prim.Native.String.{String}
use linux_hello.Prelude.{
  ℕ, ◌-◌, ◌≡◌, refl, ap, ◌∙◌, Bool, true, false, not, ◌&&◌, ◌||◌, Option, none, some, List, [], ◌∷◌,
  arith, if_cases, ltb, ◌==◌,
}
use linux_hello.Prelude.Dict.{get}
use linux_hello.Daemon.Results.{confirm_conflict, confirm_paused, not_local, no_face_model}
use linux_hello.Daemon.Manager.{
  Manager, Window, Outcome, done, raised, after, confirm_missed, cancel, set_event, is_set,
}
use linux_hello.Daemon.Confirmed.{
  Reply, Request, Next, replies, scans, answer, unknown, failed, permission_denied, invalid_args,
  internal, seconds_left, bad_user, is_uid, ends_in, take_window, unless_paused, request, Pressed,
  enter, skip, typing, nothing, raised_error, scan, on_key, close_window, finish_of, finish,
}

-- What runs while a window is open: another request, or a cancellation by a sender.
pub data Meanwhile : Type 0 where
  another : ℕ → Request → Meanwhile
  cancels : String → Meanwhile

abbrev pub is_conflict : Next → Bool
is_conflict (replies (answer confirm_conflict x)) = true
is_conflict n = false

-- The state after it, and whether a request was answered with a conflict.
unfoldable pub meanwhile : Meanwhile → Manager → Manager × Bool
meanwhile (another now r) m = let (m', n) = request now r m in (m', is_conflict n)
meanwhile (cancels sender) m = (cancel sender m, false)

unfoldable pub run : List Meanwhile → Manager → Manager × Bool
run [] m = (m, false)
run (e ∷ es) m =
    let (m', conflict) = meanwhile e m in
    let (m'', conflicts) = run es m' in (m'', conflict || conflicts)

missed-window :
    (now : ℕ) (user : String) (m : Manager)
    → (after (confirm_missed now user m)).confirm_window ≡ m.confirm_window
unfolding confirm_missed
missed-window now user m = ground arith

-- The window `w` is still open, overlapped if it was or if a request was refused for it.
record StillOpen (w : Window) (m : Manager) (conflict : Bool) : Type 0 where
  overlapped : Bool
  open_still : m.confirm_window ≡ some (record w { overlapped = overlapped })
  marked : (w.overlapped || conflict) ≡ true → overlapped ≡ true

untouched : (w : Window) (m : Manager) → m.confirm_window ≡ some w → StillOpen w m false
untouched w m e = record { overlapped = w.overlapped; open_still = e; marked = λ h. ground arith }

record Kept (w : Window) (x : Manager × Next) : Type 0 where
  still : StillOpen w x.0 (is_conflict x.1)
  reply : Reply
  answered : x.1 ≡ replies reply

ends_in-Kept :
    (w : Window) (o : Outcome) (r : Reply)
    → (after o).confirm_window ≡ some (record w { overlapped = true })
    → Kept w (ends_in o r)
ends_in-Kept w (done m) r e = record {
  still = record { overlapped = true; open_still = e; marked = λ _. refl };
  reply = r;
  answered = refl;
}
ends_in-Kept w (raised m) r e = record {
  still = record { overlapped = true; open_still = e; marked = λ _. refl };
  reply = failed internal;
  answered = refl;
}

take_window-Kept :
    (now : ℕ) (r : Request) (w : Window) (o : Option Window) (m : Manager)
    → o ≡ some w
    → Kept w (take_window now r o m)
unfolding take_window
take_window-Kept now r w none m e = cc
take_window-Kept now r w (some v) m e =
    let same : v ≡ w = cc e in
    let marked : Manager = record m { confirm_window = some (record v { overlapped = true }) } in
    ends_in-Kept w (confirm_missed now r.user marked) (answer confirm_conflict unknown) (
      missed-window now r.user marked
      ∙ ap (λ (x : Window). some (record x { overlapped = true })) same)

unless_paused-Kept :
    (now : ℕ) (r : Request) (w : Window) (o : Option ℕ) (m : Manager)
    → m.confirm_window ≡ some w
    → Kept w (unless_paused now r o m)
unfolding unless_paused
unless_paused-Kept now r w none m e = take_window-Kept now r w m.confirm_window m e
unless_paused-Kept now r w (some until) m e =
    if_cases (Kept w) (ltb now until) _ _
      (λ _. record {
        still = untouched w m e;
        reply = answer confirm_paused (seconds_left (until - now));
        answered = refl;
      })
      (λ _. take_window-Kept now r w m.confirm_window m e)

request-Kept :
    (now : ℕ) (r : Request) (w : Window) (m : Manager)
    → m.confirm_window ≡ some w
    → Kept w (request now r m)
unfolding request
request-Kept now r w m e =
    let same : StillOpen w m false = untouched w m e in
    let refused : (x : Reply) → is_conflict (replies x) ≡ false → Kept w (m, replies x) =
      λ x plain. record { still = rw plain same; reply = x; answered = refl } in
    if_cases (Kept w) (not (r.uid == 0)) _ _ (λ _. refused (failed permission_denied) refl)
      (λ _.
        if_cases (Kept w) (bad_user r) _ _ (λ _. refused (failed invalid_args) refl)
          (λ _.
            if_cases (Kept w) (not (r.requester == 0) && not (is_uid r.requester_uid r.user_uid)) _
              _ (λ _. refused (answer not_local unknown) refl)
              (λ _.
                if_cases (Kept w) (not r.has_local_session) _ _
                  (λ _. refused (answer not_local unknown) refl)
                  (λ _.
                    if_cases (Kept w) (not r.has_models) _ _
                      (λ _. refused (answer no_face_model unknown) refl)
                      (λ _. unless_paused-Kept now r w (get r.user m.confirm_paused) m e)))))

cancel-window :
    (sender : String) (m : Manager) → (cancel sender m).confirm_window ≡ m.confirm_window
unfolding cancel
cancel-window sender m = go (get sender m.running)
  where
    go : (o : Option ℕ) → (set_event o m).confirm_window ≡ m.confirm_window
    go none = refl
    go (some event) = refl

meanwhile-StillOpen :
    (e : Meanwhile) (w : Window) (m : Manager)
    → m.confirm_window ≡ some w
    → StillOpen w (meanwhile e m).0 (meanwhile e m).1
unfolding meanwhile
meanwhile-StillOpen (another now r) w m h = (request-Kept now r w m h).still
meanwhile-StillOpen (cancels sender) w m h = untouched w _ (cancel-window sender m ∙ h)

run-StillOpen :
    (es : List Meanwhile) (w : Window) (m : Manager)
    → m.confirm_window ≡ some w
    → StillOpen w (run es m).0 (run es m).1
unfolding run
run-StillOpen [] w m h = untouched w m h
run-StillOpen (e ∷ es) w m h =
    let first = meanwhile-StillOpen e w m h in
    let rest =
      run-StillOpen es (record w { overlapped = first.overlapped }) (meanwhile e m).0
        first.open_still in
    record {
      overlapped = rest.overlapped;
      open_still = rest.open_still;
      marked = λ both. ground (arith, first.marked, rest.marked);
    }

-- While a window is open, every other request is answered at once: no second window opens, and
-- no scan starts.
pub request-answers :
    (now : ℕ) (r : Request) (w : Window) (m : Manager)
    → m.confirm_window ≡ some w
    → (reply : Reply) × ((request now r m).1 ≡ replies reply)
request-answers now r w m e = let kept = request-Kept now r w m e in (kept.reply, kept.answered)

close_window-needs :
    (now : ℕ) (pressed : Pressed) (w : Window) (m : Manager) (user : String)
    → (close_window now pressed w m).1 ≡ scans user
    → (pressed ≡ enter)
      × (user ≡ w.user)
      × (w.overlapped ≡ false)
      × (is_set w.event m.events_set ≡ false)
unfolding close_window on_key scan
close_window-needs now enter w m user h = ground arith
close_window-needs now skip w m user h = ground arith
close_window-needs now typing w m user h = ground arith
close_window-needs now nothing w m user h = ground arith
close_window-needs now raised_error w m user h = ground arith

-- What `finish` needs to start a scan.
finish-needs :
    (now : ℕ) (pressed : Pressed) (w : Window) (m : Manager) (user : String)
    → m.confirm_window ≡ some w
    → (finish now pressed m).1 ≡ scans user
    → (pressed ≡ enter)
      × (user ≡ w.user)
      × (w.overlapped ≡ false)
      × (is_set w.event m.events_set ≡ false)
unfolding finish finish_of
finish-needs now pressed w m user e h =
    let h' : (finish_of now pressed (some w) m).1 ≡ scans user = rw e at h in
    close_window-needs now pressed w _ user h'

-- A scan follows a window only if Enter was pressed in it, for the user who opened it, its
-- request was not cancelled, and no request was refused as a conflict while it was open.
pub finish-scans :
    (es : List Meanwhile) (now : ℕ) (pressed : Pressed) (w : Window) (m : Manager) (user : String)
    → m.confirm_window ≡ some w
    → (finish now pressed (run es m).0).1 ≡ scans user
    → (pressed ≡ enter)
      × (user ≡ w.user)
      × (w.overlapped ≡ false)
      × ((run es m).1 ≡ false)
      × (is_set w.event (run es m).0.events_set ≡ false)
finish-scans es now pressed w m user e h =
    let still = run-StillOpen es w m e in
    let needs =
      finish-needs now pressed (record w { overlapped = still.overlapped }) (run es m).0 user
        still.open_still h in
    ground (arith, still.marked)
