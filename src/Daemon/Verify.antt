-- ===== src/Daemon/Verify.antt =====
-- `verify` and `_wait_for_activity` of linux-hello/src/daemon/manager.py, cut at their waits: `start`
-- is everything up to the thread that is run (the wait for input activity, or the scan),
-- `activity_end` the end of the first and `scan_end` the end of the second.
pub mod Pausing
use Prim.Native.String.{String}
use text.Mathlib.Text.{◌==◌ as str_eq}
use linux_hello.Prelude.{
  ℕ, ◌+◌, Bool, true, false, not, ◌&&◌, Option, none, some, List, [], ◌∷◌, leb, ◌==◌, if◌then◌else◌,
}
use linux_hello.Prelude.Dict.{Dict, get, insert, pop}
use linux_hello.Daemon.Results.{
  VerificationResult, success, timeout_reached, too_dark, no_face_model, cancelled,
}
use linux_hello.Daemon.Manager.{Manager, pause_after, streak, or_else, is_set}
use linux_hello.Daemon.Confirmed.{
  ErrorName, permission_denied, invalid_args, Reply, answer, failed, Extra, unknown,
}

-- A call of `verify`: the caller with the name of its uid, the user to verify with what the system
-- and the model store say of it, and whether the call may pause.
pub record Verification : Type 0 where
  pub uid : ℕ
  pub sender : String
  pub caller_name : Option String
  pub user : String
  pub user_exists : Bool
  pub has_encodings : Bool
  pub pausable : Bool

abbrev pub is_name : Option String → String → Bool
is_name none user = false
is_name (some name) user = str_eq name user

-- Access.is_self
unfoldable pub is_self : Verification → Bool
is_self r = not (r.uid == 0) && is_name r.caller_name r.user

-- `_check_user`
unfoldable pub is_bad_user : Verification → Bool
is_bad_user r = if r.user_exists then str_eq r.user "root" else true

unfoldable pub lock_screen : Verification → Bool
lock_screen r = r.pausable && not (r.uid == 0)

pub data Step : Type 0 where
  replies : Reply → Step
  waits_for_activity : Step
  scans : Step

-- cancel = threading.Event(); self.running[caller.sender] = cancel
unfoldable pub register : String → Manager → Manager
register sender m = record m {
  next_event = m.next_event + 1;
  running = insert sender m.next_event m.running;
}

unfoldable pub start : ℕ → Verification → Manager → Manager × Step
start now r m =
    if not (r.uid == 0) && not (is_self r)
    then (m, replies (failed permission_denied))
    else if is_bad_user r
    then (m, replies (failed invalid_args))
    else if not r.has_encodings
    then (m, replies (answer no_face_model unknown))
    else if lock_screen r && leb pause_after (streak now r.user m)
    then (register r.sender m, waits_for_activity)
    else (register r.sender m, scans)

-- The streak is kept alive for the lock screen's next try.
abbrev pub keep_alive : ℕ → String → Option (ℕ × ℕ) → Manager → Manager
keep_alive now user none m = record m { failures = insert user (pause_after, now) m.failures }
keep_alive now user (some (count, last)) m = record m {
  failures = insert user (count, now) m.failures;
}

-- The end of `presence.wait_for_activity`, whose cancel event is `event`.
unfoldable pub activity_end : ℕ → Bool → ℕ → Verification → Manager → Manager × Step
activity_end now true event r m = (
  register r.sender
      (record m { running = pop r.sender m.running; failures = pop r.user m.failures }),
  scans,
)
activity_end now false event r m =
    let freed = record m { running = pop r.sender m.running } in
    if is_set event m.events_set then (freed, replies (answer cancelled unknown)) else (
      keep_alive now r.user (get r.user m.failures) freed,
      replies (answer timeout_reached unknown),
    )

-- A result that makes the lock screen try again.
abbrev pub is_failed_scan : VerificationResult → Bool
is_failed_scan timeout_reached = true
is_failed_scan too_dark = true
is_failed_scan _ = false

abbrev pub is_success : VerificationResult → Bool
is_success success = true
is_success _ = false

unfoldable pub count_scan : ℕ → VerificationResult → String → Manager → Manager
count_scan now result user m =
    if is_success result
    then record m { failures = pop user m.failures }
    else if is_failed_scan result
    then record m { failures = insert user (streak now user m + 1, now) m.failures }
    else m

-- The end of the camera work with a result.
unfoldable pub scan_end : ℕ → VerificationResult → Extra → Verification → Manager → Manager × Step
scan_end now result measured r m =
    let freed = record m { running = pop r.sender m.running } in
    (
      if lock_screen r then count_scan now result r.user freed else freed,
      replies (answer result measured),
    )
