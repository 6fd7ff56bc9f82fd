-- ===== src/Daemon/Tests.antt =====
-- The theorems about linux-hello/src/daemon/manager.py at concrete states.
use linux_hello.Prelude.{
  ℕ, ◌+◌, ◌*◌, ◌^◌, min, ◌≡◌, refl, true, false, none, some, List, [], ◌∷◌, arith, All,
}
use linux_hello.Prelude.Dict.{get}
use linux_hello.Daemon.Results.{timeout_reached, too_dark}
use linux_hello.Daemon.Manager.{
  Manager, new_manager, Window, raised, after, or_else, confirm_pause_seconds,
  confirm_pause_max_seconds, is_set, cancel,
}
use linux_hello.Daemon.Confirmed.{
  Request, scans, finish, enter, unknown, finish_of, close_window, on_key, scan,
}
use linux_hello.Daemon.Confirmed.Overlap.{cancels, run, meanwhile, finish-scans}
use linux_hello.Daemon.Confirmed.Pausing.{thrice, thrice-pauses, thrice-overflow}
use linux_hello.Daemon.Verify.{
  Verification, start, waits_for_activity, is_self, is_bad_user, lock_screen,
}
use linux_hello.Daemon.Verify.Pausing.{
  IsLockScreen, HasFailed, quiet_rounds, quiet_rounds-wait, scan_round, failed_scans-wait,
}

abbrev window : Window
window = record { overlapped = false; user = "ann"; sender = ":1.5"; event = 0 }

abbrev waiting : Manager
waiting = record new_manager {
  next_event = 1;
  running = (":1.5", 0) ∷ [];
  confirm_window = some window;
}

abbrev sudo : Request
sudo = record {
  uid = 0;
  sender = ":1.9";
  user = "ann";
  user_exists = true;
  user_uid = 1000;
  requester = 77;
  requester_uid = some 1000;
  has_local_session = true;
  has_models = true;
}

quiet_meanwhile : (finish 50 enter (run (cancels ":1.9" ∷ []) waiting).0).1 ≡ scans "ann"
unfolding finish finish_of close_window on_key scan run meanwhile cancel get is_set
quiet_meanwhile = refl

finish-scans_example :
    (enter ≡ enter)
    × ("ann" ≡ window.user)
    × (window.overlapped ≡ false)
    × ((run (cancels ":1.9" ∷ []) waiting).1 ≡ false)
    × (is_set window.event (run (cancels ":1.9" ∷ []) waiting).0.events_set ≡ false)
finish-scans_example =
    finish-scans (cancels ":1.9" ∷ []) 50 enter window waiting "ann" refl quiet_meanwhile

no_misses : get "ann" new_manager.confirm_misses ≡ none
unfolding get
no_misses = refl

no_pauses : or_else (get "ann" new_manager.confirm_pauses) 0 ≡ 0
unfolding get
no_pauses = refl

thrice-pauses_example :
    let m' = after (thrice 10 20 30 "ann" new_manager) in
    (get "ann" m'.confirm_paused
      ≡ some (30 + min (confirm_pause_seconds * 2 ^ 0) confirm_pause_max_seconds))
    × (get "ann" m'.confirm_pauses ≡ some (0 + 1))
    × (get "ann" m'.confirm_misses ≡ none)
thrice-pauses_example =
    thrice-pauses 10 20 30 0 "ann" new_manager no_misses no_pauses (omega arith) (omega arith)
      (omega arith) (omega arith)

abbrev worn : Manager
worn = record new_manager { confirm_pauses = ("ann", 1024) ∷ [] }

worn_pauses : or_else (get "ann" worn.confirm_pauses) 0 ≡ 1024
unfolding get
worn_pauses = refl

worn_misses : get "ann" worn.confirm_misses ≡ none
unfolding get
worn_misses = refl

thrice-overflow_example :
    (o : Manager) × (thrice 10 20 30 "ann" worn ≡ raised o)
    × (o.confirm_paused ≡ worn.confirm_paused)
    × (o.confirm_pauses ≡ worn.confirm_pauses)
    × (get "ann" o.confirm_misses ≡ none)
thrice-overflow_example =
    thrice-overflow 10 20 30 1024 "ann" worn worn_misses worn_pauses (omega arith) (omega arith)
      (omega arith) (omega arith)

abbrev resting : Manager
resting = record new_manager { confirm_paused = ("ann", 90) ∷ [] }

ann_rests : get "ann" resting.confirm_paused ≡ some 90
unfolding get
ann_rests = refl

-- The lock screen of ann.
abbrev greeter : Verification
greeter = record {
  uid = 1000;
  sender = ":1.7";
  caller_name = some "ann";
  user = "ann";
  user_exists = true;
  has_encodings = true;
  pausable = true;
}

greeter-IsLockScreen : IsLockScreen greeter
unfolding is_self is_bad_user lock_screen
greeter-IsLockScreen = record { self = refl; good = refl; enrolled = refl; pauses = refl }

abbrev tired : Manager
tired = record new_manager { failures = ("ann", (3, 100)) ∷ [] }

tired-HasFailed : HasFailed 3 100 "ann" tired
unfolding get
tired-HasFailed = record { failed = refl }

abbrev rounds : List (ℕ × ℕ)
rounds = (200, 25_200) ∷ (25_300, 50_300) ∷ []

quiet_rounds-wait_example : All (λ s. s ≡ waits_for_activity) (quiet_rounds greeter rounds tired)
quiet_rounds-wait_example =
    quiet_rounds-wait rounds 3 100 greeter tired greeter-IsLockScreen tired-HasFailed (omega arith)
      (record { given_out = tt }) (omega arith)

no_failures : get "ann" new_manager.failures ≡ none
unfolding get
no_failures = refl

failed_scans-wait_example :
    (start 13_000 greeter (
      scan_round 8_500 12_500 timeout_reached unknown greeter (
        scan_round 4_200 8_200 too_dark unknown greeter
          (scan_round 100 4_100 timeout_reached unknown greeter new_manager)))).1
    ≡ waits_for_activity
failed_scans-wait_example =
    failed_scans-wait 100 4_100 4_200 8_200 8_500 12_500 13_000 timeout_reached too_dark
      timeout_reached unknown unknown unknown greeter new_manager greeter-IsLockScreen no_failures
      refl refl refl (omega arith) (omega arith) (omega arith) (omega arith) (omega arith)
