-- ===== src/Daemon/Enter.antt =====
-- Waiting for Enter (`wait_for_enter` of linux-hello/src/daemon/confirm.py). A turn of the loop is a
-- round: whether the event is set, the clock, and what the ready descriptors read, `none` where
-- reading fails. Times are milliseconds. An input event has 24 bytes, little-endian.
pub mod Deciding
mod Tests
use linux_hello.Prelude.{
  ℕ, zero, suc, ◌+◌, ◌*◌, ◌<◌, Bool, true, false, not, ◌&&◌, ◌||◌, Option, none, some, List, [],
  ◌∷◌, ◌++◌, ltb, leb, ◌==◌, if◌then◌else◌, length, drop, get_or,
}
use linux_hello.Prelude.Bytes.{Bytes}
use linux_hello.Daemon.Confirmed.{Pressed, enter, skip, typing, nothing}

abbrev pub ev_key : ℕ
ev_key = 0x01

abbrev pub key_esc : ℕ
key_esc = 1

abbrev pub key_enter : ℕ
key_enter = 28

abbrev pub key_kpenter : ℕ
key_kpenter = 96

abbrev pub btn_misc : ℕ
btn_misc = 0x100

abbrev pub window_seconds : ℕ
window_seconds = 3_000

abbrev pub other_keys_allowed : ℕ
other_keys_allowed = 1

abbrev pub event_size : ℕ
event_size = 24

pub record Event : Type 0 where
  pub kind : ℕ
  pub code : ℕ
  pub value : ℕ

-- EVENT.unpack_from at an offset; `value` is read without its sign, which only 1 is compared with.
unfoldable pub unpack_event : Bytes → Event
unpack_event bs = record {
  kind = get_or bs 16 0 + 256 * get_or bs 17 0;
  code = get_or bs 18 0 + 256 * get_or bs 19 0;
  value = get_or bs 20 0 + 256 * (get_or bs 21 0 + 256 * (get_or bs 22 0 + 256 * get_or bs 23 0));
}

-- The events of what was read, on fuel that the length is enough for; a rest that is no whole event is dropped.
unfoldable pub unpack_events : ℕ → Bytes → List Event
unpack_events zero bs = []
unpack_events (suc fuel) bs =
    let rest = unpack_events fuel (drop event_size bs) in
    if ltb (length bs) event_size then [] else unpack_event bs ∷ rest

-- Not passed over by the first test of the loop.
unfoldable pub is_press : Event → Bool
is_press e = e.kind == ev_key && e.value == 1 && ltb e.code btn_misc

-- The loops over events and descriptors: an answer, or the number of other keys so far.
pub data Scan : Type 0 where
  stops : Pressed → Scan
  goes : ℕ → Scan

unfoldable pub on_press : ℕ → ℕ → Scan
on_press code other_keys =
    if code == key_enter || code == key_kpenter
    then stops enter
    else if code == key_esc
    then stops skip
    else if ltb other_keys_allowed (other_keys + 1)
    then stops typing
    else goes (other_keys + 1)

abbrev pub and_then : Scan → (ℕ → Scan) → Scan
and_then (stops p) f = stops p
and_then (goes n) f = f n

unfoldable pub on_events : List Event → ℕ → Scan
on_events [] n = goes n
on_events (e ∷ es) n =
    if is_press e then and_then (on_press e.code n) (λ k. on_events es k) else on_events es n

abbrev pub events_of : Option Bytes → List Event
events_of none = []
events_of (some bs) = unpack_events (length bs) bs

unfoldable pub on_reads : List (Option Bytes) → ℕ → Scan
on_reads [] n = goes n
on_reads (r ∷ rs) n = and_then (on_events (events_of r) n) (λ k. on_reads rs k)

pub record Round : Type 0 where
  pub cancelled : Bool
  pub now : ℕ
  pub reads : List (Option Bytes)

-- cancel.is_set(), or `left <= 0`.
unfoldable pub is_over : ℕ → Round → Bool
is_over deadline r = r.cancelled || leb deadline r.now

abbrev pub next_round : Scan → (ℕ → Option Pressed) → Option Pressed
next_round (stops p) f = some p
next_round (goes n) f = f n

-- The rounds to come; `none` is that the wait has not ended with them.
unfoldable pub rounds_from : ℕ → List Round → ℕ → Option Pressed
rounds_from deadline [] n = none
rounds_from deadline (r ∷ rs) n =
    if is_over deadline r
    then some nothing
    else next_round (on_reads r.reads n) (λ k. rounds_from deadline rs k)

-- With no descriptor that could be opened there is nothing to wait for.
unfoldable pub wait_for_enter : ℕ → Bool → List Round → Option Pressed
wait_for_enter start has_descriptors rounds =
    if has_descriptors then rounds_from (start + window_seconds) rounds 0 else some nothing
