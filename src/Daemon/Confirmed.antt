-- ===== src/Daemon/Confirmed.antt =====
-- `verify_confirmed` of linux-hello/src/daemon/manager.py, cut at its waits: `request` is everything
-- up to the thread that waits for Enter, once login1 has answered, and `finish` is everything from the
-- end of that thread to the scan. Other requests and cancellations run between the two.
pub mod Overlap
pub mod Pausing
use Prim.Native.String.{String}
use text.Mathlib.Text.{◌==◌ as str_eq}
use linux_hello.Prelude.{
  ℕ, ◌+◌, ◌-◌, Bool, true, false, not, ◌&&◌, Option, none, some, List, [], ◌∷◌, ltb, ◌==◌,
  if◌then◌else◌,
}
use linux_hello.Prelude.Dict.{Dict, get, insert, pop}
use linux_hello.Daemon.Results.{
  VerificationResult, no_face_model, not_confirmed, confirm_paused, skipped, not_local,
  confirm_conflict, cancelled,
}
use linux_hello.Daemon.Manager.{Manager, Window, Outcome, done, raised, confirm_missed, is_set}

-- The errors of `Failed` that this code raises.
pub data ErrorName : Type 0 where
  permission_denied invalid_args internal : ErrorName

-- The two numbers of an answer: a result, and a certainty, the seconds left, or -1.0.
pub data Extra : Type 0 where
  unknown : Extra
  certainty : ℕ → Extra
  seconds_left : ℕ → Extra

pub data Reply : Type 0 where
  answer : VerificationResult → Extra → Reply
  failed : ErrorName → Reply

-- What the request and the system around it say when the request is decided: the caller, the named
-- user and whether it exists, its uid, the asking process (0 when unknown) with its real uid (none
-- when it is gone), login1's answer and whether face models are stored.
pub record Request : Type 0 where
  pub uid : ℕ
  pub sender : String
  pub user : String
  pub user_exists : Bool
  pub user_uid : ℕ
  pub requester : ℕ
  pub requester_uid : Option ℕ
  pub has_local_session : Bool
  pub has_models : Bool

abbrev pub is_uid : Option ℕ → ℕ → Bool
is_uid none uid = false
is_uid (some n) uid = n == uid

-- `_check_user`
unfoldable pub bad_user : Request → Bool
bad_user r = if r.user_exists then str_eq r.user "root" else true

-- What a step of the coroutine ends in: a reply, a window that is open now, or the scan.
pub data Next : Type 0 where
  replies : Reply → Next
  waits : Next
  scans : String → Next

-- The state and what comes next, after a call that may raise.
abbrev pub ends_in : Outcome → Reply → Manager × Next
ends_in (done m) r = (m, replies r)
ends_in (raised m) r = (m, replies (failed internal))

unfoldable pub open_window : Request → Manager → Manager
open_window r m = record m {
  next_event = m.next_event + 1;
  running = insert r.sender m.next_event m.running;
  confirm_window =
      some (record { overlapped = false; user = r.user; sender = r.sender; event = m.next_event });
}

-- One window at a time.
unfoldable pub take_window : ℕ → Request → Option Window → Manager → Manager × Next
take_window now r none m = (open_window r m, waits)
take_window now r (some w) m =
    ends_in
      (confirm_missed now r.user
        (record m { confirm_window = some (record w { overlapped = true }) }))
      (answer confirm_conflict unknown)

-- left = self.confirm_paused.get(user, -inf) - now; `left > 0`
unfoldable pub unless_paused : ℕ → Request → Option ℕ → Manager → Manager × Next
unless_paused now r none m = take_window now r m.confirm_window m
unless_paused now r (some until) m =
    if ltb now until
    then (m, replies (answer confirm_paused (seconds_left (until - now))))
    else take_window now r m.confirm_window m

unfoldable pub request : ℕ → Request → Manager → Manager × Next
request now r m =
    if not (r.uid == 0)
    then (m, replies (failed permission_denied))
    else if bad_user r
    then (m, replies (failed invalid_args))
    else if not (r.requester == 0) && not (is_uid r.requester_uid r.user_uid)
    then (m, replies (answer not_local unknown))
    else if not r.has_local_session
    then (m, replies (answer not_local unknown))
    else if not r.has_models
    then (m, replies (answer no_face_model unknown))
    else unless_paused now r (get r.user m.confirm_paused) m

-- What `wait_for_enter` saw, or that it raised.
pub data Pressed : Type 0 where
  enter skip typing nothing raised_error : Pressed

unfoldable pub scan : Window → Manager → Manager × Next
scan w m = if is_set w.event m.events_set then (m, replies (answer cancelled unknown)) else (
  record m {
    confirm_misses = pop w.user m.confirm_misses;
    confirm_pauses = pop w.user m.confirm_pauses;
  },
  scans w.user,
)

-- After the `finally` and the test of `overlapped`.
unfoldable pub on_key : ℕ → Pressed → Window → Manager → Manager × Next
on_key now skip w m = (m, replies (answer skipped unknown))
on_key now enter w m = scan w m
on_key now typing w m = ends_in (confirm_missed now w.user m) (answer not_confirmed unknown)
on_key now nothing w m = ends_in (confirm_missed now w.user m) (answer not_confirmed unknown)
on_key now raised_error w m = (m, replies (failed internal))

abbrev pub is_error : Pressed → Bool
is_error raised_error = true
is_error _ = false

unfoldable pub close_window : ℕ → Pressed → Window → Manager → Manager × Next
close_window now pressed w m =
    if w.overlapped && not (is_error pressed)
    then ends_in (confirm_missed now w.user m) (answer confirm_conflict unknown)
    else on_key now pressed w m

-- The end of the thread. With no window open this step is not enabled, and does nothing.
unfoldable pub finish_of : ℕ → Pressed → Option Window → Manager → Manager × Next
finish_of now pressed none m = (m, waits)
finish_of now pressed (some w) m =
    close_window now pressed w
      (record m { running = pop w.sender m.running; confirm_window = none })

unfoldable pub finish : ℕ → Pressed → Manager → Manager × Next
finish now pressed m = finish_of now pressed m.confirm_window m
