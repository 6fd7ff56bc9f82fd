-- ===== src/Daemon/Manager.antt =====
-- The state of linux-hello/src/daemon/manager.py (class Manager) that verification uses, and the
-- bookkeeping of failed scans and missed confirmations.
-- Times are natural numbers of milliseconds of the monotonic clock; `now - t < s` is written
-- `now < t + s`. A cancel event is a number: `running` maps a sender to the event of its request, and
-- `events_set` holds the events that were set.
use Prim.Native.String.{String}
use linux_hello.Prelude.{
  ℕ, ◌+◌, ◌*◌, ◌^◌, min, Bool, true, false, Option, none, some, List, [], ◌∷◌, ◌++◌, ltb, ◌==◌,
  if◌then◌else◌, length,
}
use linux_hello.Prelude.Dict.{Dict, get, insert, pop}

abbrev pub pause_after : ℕ
pause_after = 3

abbrev pub streak_seconds : ℕ
streak_seconds = 30_000

abbrev pub confirm_misses_limit : ℕ
confirm_misses_limit = 3

abbrev pub confirm_pause_seconds : ℕ
confirm_pause_seconds = 60_000

abbrev pub confirm_pause_max_seconds : ℕ
confirm_pause_max_seconds = 3_600_000

-- The dictionary `window` of a request that waits for Enter, with the variables of its coroutine.
pub record Window : Type 0 where
  pub overlapped : Bool
  pub user : String
  pub sender : String
  pub event : ℕ

pub record Manager : Type 0 where
  pub running : Dict ℕ
  pub events_set : List ℕ
  pub next_event : ℕ
  pub failures : Dict (ℕ × ℕ)
  pub confirm_misses : Dict (List ℕ)
  pub confirm_paused : Dict ℕ
  pub confirm_pauses : Dict ℕ
  pub confirm_window : Option Window

abbrev pub new_manager : Manager
new_manager = record {
  running = [];
  events_set = [];
  next_event = 0;
  failures = [];
  confirm_misses = [];
  confirm_paused = [];
  confirm_pauses = [];
  confirm_window = none;
}

-- `d.get(k, default)`
abbrev pub or_else {ℓ} : {A : Type ℓ} → Option A → A → A
or_else none d = d
or_else (some a) d = a

-- [t for t in times if now - t < CONFIRM_PAUSE_SECONDS]
unfoldable pub recent : ℕ → List ℕ → List ℕ
recent now [] = []
recent now (t ∷ ts) =
    let rest = recent now ts in if ltb now (t + confirm_pause_seconds) then t ∷ rest else rest

-- min(CONFIRM_PAUSE_SECONDS * 2 ** pauses, CONFIRM_PAUSE_MAX_SECONDS). The product is of a float and
-- an integer, so from 2 ** 1024 on Python raises OverflowError, which is `none`.
unfoldable pub pause_length : ℕ → Option ℕ
pause_length pauses =
    if ltb pauses 1024
    then some (min (confirm_pause_seconds * 2 ^ pauses) confirm_pause_max_seconds)
    else none

-- A method that may raise, with the state that it left.
pub data Outcome : Type 0 where
  done raised : Manager → Outcome

abbrev pub after : Outcome → Manager
after (done m) = m
after (raised m) = m

abbrev pub paused : Option ℕ → ℕ → ℕ → String → Manager → Outcome
paused none pauses now user m = raised m
paused (some seconds) pauses now user m = done (record m {
  confirm_pauses = insert user (pauses + 1) m.confirm_pauses;
  confirm_paused = insert user (now + seconds) m.confirm_paused;
})

unfoldable pub confirm_missed : ℕ → String → Manager → Outcome
confirm_missed now user m =
    let misses = recent now (or_else (get user m.confirm_misses) []) ++ now ∷ [] in
    let pauses = or_else (get user m.confirm_pauses) 0 in
    if ltb (length misses) confirm_misses_limit
    then done (record m { confirm_misses = insert user misses m.confirm_misses })
    else paused (pause_length pauses) pauses now user
        (record m { confirm_misses = pop user m.confirm_misses })

-- `_streak`; a monotonic time is never before 0, the time of the default.
abbrev pub streak_of : ℕ → ℕ × ℕ → ℕ
streak_of now (count, last) = if ltb (last + streak_seconds) now then 0 else count

unfoldable pub streak : ℕ → String → Manager → ℕ
streak now user m = streak_of now (or_else (get user m.failures) (0, 0))

-- `cancel`: sets the event of the sender's request, if one runs.
abbrev pub set_event : Option ℕ → Manager → Manager
set_event none m = m
set_event (some event) m = record m { events_set = event ∷ m.events_set }

unfoldable pub cancel : String → Manager → Manager
cancel sender m = set_event (get sender m.running) m

-- `event.is_set()`
unfoldable pub is_set : ℕ → List ℕ → Bool
is_set event [] = false
is_set event (e ∷ es) = if e == event then true else is_set event es
