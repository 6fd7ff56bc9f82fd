-- ===== src/Daemon/Verify/Pausing.antt =====
-- The lock screen's calls in a row (`verify` of linux-hello/src/daemon/manager.py).
use Prim.Native.String.{String}
use linux_hello.Prelude.{
  ℕ, ◌+◌, ◌≤◌, ◌<◌, ◌≡◌, ◌≢◌, refl, ap, true, false, none, some, List, [], ◌∷◌, arith, ltb, leb,
  All,
}
use linux_hello.Prelude.Dict.{get, insert, pop, get-insert_self}
use linux_hello.Daemon.Results.{VerificationResult, too_dark, timeout_reached}
use linux_hello.Daemon.Manager.{Manager, pause_after, streak_seconds, streak, is_set}
use linux_hello.Daemon.Confirmed.{Extra}
use linux_hello.Daemon.Verify.{
  Verification, is_self, is_bad_user, lock_screen, Step, waits_for_activity, scans, register, start,
  activity_end, is_failed_scan, count_scan, scan_end,
}

-- A call of the lock screen that passes the checks.
pub record IsLockScreen (r : Verification) : Type 0 where
  pub self : is_self r ≡ true
  pub good : is_bad_user r ≡ false
  pub enrolled : r.has_encodings ≡ true
  pub pauses : lock_screen r ≡ true

-- The user's failures are `count`, the last one at `last`.
pub record HasFailed (count last : ℕ) (user : String) (m : Manager) : Type 0 where
  pub failed : get user m.failures ≡ some (count, last)

streak-HasFailed :
    (now count last : ℕ) (user : String) (m : Manager)
    → HasFailed count last user m
    → now ≤ last + streak_seconds
    → streak now user m ≡ count
unfolding streak
streak-HasFailed now count last user m f h =
    let fresh : ltb (last + streak_seconds) now ≡ false = ground arith in
    simp f.failed (simp fresh refl)

start-waits :
    (now count last : ℕ) (r : Verification) (m : Manager)
    → IsLockScreen r
    → HasFailed count last r.user m
    → now ≤ last + streak_seconds
    → 3 ≤ count
    → start now r m ≡ (register r.sender m, waits_for_activity)
unfolding start
start-waits now count last r m l f h k =
    let long : leb pause_after (streak now r.user m) ≡ true =
      ground (arith, streak-HasFailed now count last r.user m f h) in
    ground (arith, l.self, l.good, l.enrolled, l.pauses)

start-scans :
    (now count last : ℕ) (r : Verification) (m : Manager)
    → IsLockScreen r
    → HasFailed count last r.user m
    → now ≤ last + streak_seconds
    → count < 3
    → start now r m ≡ (register r.sender m, scans)
unfolding start
start-scans now count last r m l f h k =
    let short : leb pause_after (streak now r.user m) ≡ false =
      ground (arith, streak-HasFailed now count last r.user m f h) in
    ground (arith, l.self, l.good, l.enrolled, l.pauses)

-- The events that were set were given out before.
pub record KnowsEvents (m : Manager) : Type 0 where
  pub given_out : All (λ e. e < m.next_event) m.events_set

is_set-fresh : (n : ℕ) (es : List ℕ) → All (λ e. e < n) es → is_set n es ≡ false
unfolding is_set
is_set-fresh n [] h = refl
is_set-fresh n (e ∷ es) h = ground (arith, is_set-fresh n es h.1)

All-lt_mono : (n : ℕ) (es : List ℕ) → All (λ e. e < n) es → All (λ e. e < n + 1) es
All-lt_mono n [] h = tt
All-lt_mono n (e ∷ es) h = (omega arith, All-lt_mono n es h.1)

-- Rounds of the lock screen with no input activity: a call at the first time, whose wait ends at
-- the second.
unfoldable pub quiet_rounds : Verification → List (ℕ × ℕ) → Manager → List Step
quiet_rounds r [] m = []
quiet_rounds r ((called, ended) ∷ rounds) m =
    let (waiting, s) = start called r m in
    s ∷ quiet_rounds r rounds (activity_end ended false m.next_event r waiting).0

-- Each call comes at most 30 seconds after the end of the one before.
abbrev pub IsPaced : ℕ → List (ℕ × ℕ) → Type 0
IsPaced last [] = Unit
IsPaced last ((called, ended) ∷ rounds) = (called ≤ last + streak_seconds) × IsPaced ended rounds

quiet_round :
    (called ended count last : ℕ) (r : Verification) (m : Manager)
    → IsLockScreen r
    → HasFailed count last r.user m
    → 3 ≤ count
    → called ≤ last + streak_seconds
    → KnowsEvents m
    → (activity_end ended false m.next_event r (start called r m).0).0 ≡ record m {
      next_event = m.next_event + 1;
      running = pop r.sender (insert r.sender m.next_event m.running);
      failures = insert r.user (count, ended) m.failures;
    }
unfolding activity_end register
quiet_round called ended count last r m l f k h v =
    rw (start-waits called count last r m l f h k)
      (simp (is_set-fresh m.next_event m.events_set v.given_out) (simp f.failed refl))

-- With three failed scans or more in a row and no input activity, the camera stays off for as long
-- as the lock screen keeps trying within 30 seconds of each try's end: every call waits for activity
-- instead of scanning.
pub quiet_rounds-wait :
    (rounds : List (ℕ × ℕ)) (count last : ℕ) (r : Verification) (m : Manager)
    → IsLockScreen r
    → HasFailed count last r.user m
    → 3 ≤ count
    → KnowsEvents m
    → IsPaced last rounds
    → All (λ s. s ≡ waits_for_activity) (quiet_rounds r rounds m)
unfolding quiet_rounds
quiet_rounds-wait [] count last r m l f k v p = tt
quiet_rounds-wait ((called, ended) ∷ rounds) count last r m l f k v p = (
  ap (λ (x : Manager × Step). x.1) (start-waits called count last r m l f p.0 k),
  rw (quiet_round called ended count last r m l f k p.0 v) (
      quiet_rounds-wait rounds count ended r _ l
        (record { failed = get-insert_self r.user (count, ended) m.failures }) k
        (record { given_out = All-lt_mono m.next_event m.events_set v.given_out }) p.1),
)

-- One failed scan more.
count_scan-HasFailed :
    (now count : ℕ) (result : VerificationResult) (user : String) (m : Manager)
    → is_failed_scan result ≡ true
    → streak now user m ≡ count
    → HasFailed (count + 1) now user (count_scan now result user m)
unfolding count_scan
count_scan-HasFailed now count timeout_reached user m bad h = record {
  failed = rw h (get-insert_self user (count + 1, now) m.failures);
}
count_scan-HasFailed now count too_dark user m bad h = record {
  failed = rw h (get-insert_self user (count + 1, now) m.failures);
}
count_scan-HasFailed now count _ user m bad h = cc bad

scan_end-HasFailed :
    (now count : ℕ) (result : VerificationResult) (measured : Extra) (r : Verification)
    (m : Manager)
    → lock_screen r ≡ true
    → is_failed_scan result ≡ true
    → streak now r.user m ≡ count
    → HasFailed (count + 1) now r.user (scan_end now result measured r m).0
unfolding scan_end
scan_end-HasFailed now count result measured r m l bad h = rw l (
    count_scan-HasFailed now count result r.user (record m { running = pop r.sender m.running }) bad
      (unfold streak in h))

-- A call of the lock screen that scans, and the end of the scan.
unfoldable pub scan_round : ℕ → ℕ → VerificationResult → Extra → Verification → Manager → Manager
scan_round called ended result measured r m =
    (scan_end ended result measured r (start called r m).0).0

scan_round-scans :
    (called ended : ℕ) (result : VerificationResult) (measured : Extra) (r : Verification)
    (m : Manager)
    → start called r m ≡ (register r.sender m, scans)
    → scan_round called ended result measured r m
      ≡ (scan_end ended result measured r (register r.sender m)).0
unfolding scan_round
scan_round-scans called ended result measured r m e =
    ap (λ (k : Manager × Step). (scan_end ended result measured r k.0).0) e

scan_round-HasFailed :
    (called ended count last : ℕ) (result : VerificationResult) (measured : Extra)
    (r : Verification) (m : Manager)
    → IsLockScreen r
    → HasFailed count last r.user m
    → count < 3
    → called ≤ ended
    → ended ≤ last + streak_seconds
    → is_failed_scan result ≡ true
    → HasFailed (count + 1) ended r.user (scan_round called ended result measured r m)
unfolding register
scan_round-HasFailed called ended count last result measured r m l f k h p bad =
    rw
      (scan_round-scans called ended result measured r m
        (start-scans called count last r m l f (omega arith) k))
      (scan_end-HasFailed ended count result measured r (register r.sender m) l.pauses bad
        (streak-HasFailed ended count last r.user _ (record { failed = f.failed }) p))

no_streak :
    (now : ℕ) (user : String) (m : Manager) → get user m.failures ≡ none → streak now user m ≡ 0
unfolding streak
no_streak now user m e = simp e (ground arith)

start-first :
    (now : ℕ) (r : Verification) (m : Manager)
    → IsLockScreen r
    → get r.user m.failures ≡ none
    → start now r m ≡ (register r.sender m, scans)
unfolding start streak
start-first now r m l e = ground (arith, l.self, l.good, l.enrolled, l.pauses, e)

first_failure :
    (called ended : ℕ) (result : VerificationResult) (measured : Extra) (r : Verification)
    (m : Manager)
    → IsLockScreen r
    → get r.user m.failures ≡ none
    → is_failed_scan result ≡ true
    → HasFailed 1 ended r.user (scan_round called ended result measured r m)
unfolding register
first_failure called ended result measured r m l e bad =
    rw (scan_round-scans called ended result measured r m (start-first called r m l e)) (
      scan_end-HasFailed ended 0 result measured r (register r.sender m) l.pauses bad
        (no_streak ended r.user (register r.sender m) e))

-- Three scans of the lock screen in a row that find no match, each ending within 30 seconds of
-- the one before, turn the camera off: the next call within 30 seconds waits for activity.
pub failed_scans-wait :
    (a b c d e f now : ℕ) (x y z : VerificationResult) (p q s : Extra) (r : Verification)
    (m : Manager)
    → IsLockScreen r
    → get r.user m.failures ≡ none
    → is_failed_scan x ≡ true
    → is_failed_scan y ≡ true
    → is_failed_scan z ≡ true
    → c ≤ d
    → d ≤ b + streak_seconds
    → e ≤ f
    → f ≤ d + streak_seconds
    → now ≤ f + streak_seconds
    → (start now r (scan_round e f z s r (scan_round c d y q r (scan_round a b x p r m)))).1
      ≡ waits_for_activity
failed_scans-wait a b c d e f now x y z p q s r m l none_yet fx fy fz cd db ef fd last =
    ap (λ (k : Manager × Step). k.1)
      (start-waits now 3 f r _ l
        (scan_round-HasFailed e f 2 d z s r _ l
          (scan_round-HasFailed c d 1 b y q r _ l first (omega arith) cd db fy) (omega arith) ef fd
          fz)
        last (omega arith))
  where
    first : HasFailed 1 b r.user (scan_round a b x p r m)
    first = first_failure a b x p r m l none_yet fx

-- A call that is not the lock screen's never waits for activity and never counts as a failed unlock.
pub scan_round-uncounted :
    (called ended : ℕ) (result : VerificationResult) (measured : Extra) (r : Verification)
    (m : Manager)
    → lock_screen r ≡ false
    → ((start called r m).1 ≢ waits_for_activity)
      × ((scan_round called ended result measured r m).failures ≡ m.failures)
unfolding scan_round start scan_end register
scan_round-uncounted called ended result measured r m l = ground arith
