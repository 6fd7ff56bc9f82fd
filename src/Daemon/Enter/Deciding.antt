-- ===== src/Daemon/Enter/Deciding.antt =====
-- What `wait_for_enter` of linux-hello/src/daemon/confirm.py makes of the keys pressed, against a
-- description that looks at all of them at once.
use mathlib.Core.List.{append_assoc}
use linux_hello.Prelude.{
  ℕ, suc, ◌+◌, ◌≤◌, ◌≡◌, refl, ap, ◌∙◌, inl, inr, Bool, true, false, ◌||◌, Option, none, some, List,
  [], ◌∷◌, ◌++◌, arith, ltb, ◌==◌, if◌then◌else◌, length, All, Bool-cases,
}
use linux_hello.Prelude.Bytes.{Bytes}
use linux_hello.Daemon.Confirmed.{Pressed, enter, skip, typing, nothing}
use linux_hello.Daemon.Enter.{
  key_esc, key_enter, key_kpenter, window_seconds, Event, is_press, Scan, stops, goes, on_press,
  and_then, on_events, events_of, on_reads, Round, is_over, next_round, rounds_from, wait_for_enter,
}

-- The key codes pressed, in order.
abbrev pub presses : List Event → List ℕ
presses [] = []
presses (e ∷ es) = if is_press e then e.code ∷ presses es else presses es

abbrev pub all_presses : List (Option Bytes) → List ℕ
all_presses [] = []
all_presses (r ∷ rs) = presses (events_of r) ++ all_presses rs

abbrev pub round_presses : List Round → List ℕ
round_presses [] = []
round_presses (r ∷ rs) = all_presses r.reads ++ round_presses rs

abbrev pub is_enter : ℕ → Bool
is_enter code = code == key_enter || code == key_kpenter

-- The keys before the first Enter or Esc, and that key.
abbrev pub before_end : List ℕ → List ℕ
before_end [] = []
before_end (c ∷ cs) =
    let rest = before_end cs in if is_enter c || c == key_esc then [] else c ∷ rest

abbrev pub first_end : List ℕ → Option ℕ
first_end [] = none
first_end (c ∷ cs) = let rest = first_end cs in if is_enter c || c == key_esc then some c else rest

abbrev pub end_of : Option ℕ → Pressed
end_of none = nothing
end_of (some c) = if is_enter c then enter else skip

-- Two other keys before the end are typing; otherwise the end decides.
unfoldable pub verdict : ℕ → List ℕ → Pressed
verdict n codes = if ltb 1 (n + length (before_end codes)) then typing else end_of (first_end codes)

-- What a scan of these keys comes to.
abbrev pub outcome : Scan → List ℕ → Pressed
outcome (stops p) codes = p
outcome (goes n) codes = verdict n codes

-- At most one other key was forgiven so far.
abbrev pub IsPatient : Scan → Type 0
IsPatient (stops p) = Unit
IsPatient (goes n) = n ≤ 1

on_press-verdict :
    (c : ℕ) (n : ℕ) (codes : List ℕ) → n ≤ 1 → outcome (on_press c n) codes ≡ verdict n (c ∷ codes)
unfolding on_press verdict
on_press-verdict c n codes h = elim (Bool-cases (is_enter c)) [
  | inl hit ↦ rw hit (ground arith)
  | inr other ↦ elim (Bool-cases (c == key_esc)) [
    | inl esc ↦ rw (other, esc) (ground arith)
    | inr key ↦ rw (other, key) (later n h)
  ]
]
  where
    later :
        (m : ℕ)
        → m ≤ 1
        → outcome (if ltb 1 (m + 1) then stops typing else goes (m + 1)) codes ≡ (
            if ltb 1 (m + suc (length (before_end codes)))
            then typing
            else end_of (first_end codes))
    later m k = ground arith

if-IsPatient : (b : Bool) (x y : Scan) → IsPatient x → IsPatient y → IsPatient (if b then x else y)
if-IsPatient true x y h k = h
if-IsPatient false x y h k = k

on_press-IsPatient : (c : ℕ) (n : ℕ) → n ≤ 1 → IsPatient (on_press c n)
unfolding on_press
on_press-IsPatient c n h = if-IsPatient (c == key_enter || c == key_kpenter) (stops enter) _ tt (
    if-IsPatient (c == key_esc) (stops skip) _ tt (elim (Bool-cases (ltb 1 (n + 1))) [
      | inl more ↦ rw more tt
      | inr first ↦ rw first (ground arith)
    ]))

and_then-IsPatient :
    (s : Scan) (f : ℕ → Scan)
    → IsPatient s
    → ((k : ℕ) → k ≤ 1 → IsPatient (f k))
    → IsPatient (and_then s f)
and_then-IsPatient (stops p) f h k = tt
and_then-IsPatient (goes n) f h k = k n h

and_then-outcome :
    (s : Scan) (f : ℕ → Scan) (codes later : List ℕ)
    → IsPatient s
    → ((k : ℕ) → k ≤ 1 → outcome (f k) codes ≡ verdict k later)
    → outcome (and_then s f) codes ≡ outcome s later
and_then-outcome (stops p) f codes later h k = refl
and_then-outcome (goes n) f codes later h k = k n h

on_events-IsPatient : (es : List Event) (n : ℕ) → n ≤ 1 → IsPatient (on_events es n)
unfolding on_events
on_events-IsPatient [] n h = h
on_events-IsPatient (e ∷ es) n h = elim (Bool-cases (is_press e)) [
  | inl press ↦ rw press (
      and_then-IsPatient (on_press e.code n) (on_events es) (on_press-IsPatient e.code n h)
        (on_events-IsPatient es))
  | inr passed ↦ rw passed (on_events-IsPatient es n h)
]

on_events-outcome :
    (es : List Event) (n : ℕ) (codes : List ℕ)
    → n ≤ 1
    → outcome (on_events es n) codes ≡ verdict n (presses es ++ codes)
unfolding on_events
on_events-outcome [] n codes h = refl
on_events-outcome (e ∷ es) n codes h = elim (Bool-cases (is_press e)) [
  | inl press ↦ rw press (
      and_then-outcome (on_press e.code n) (on_events es) codes (presses es ++ codes)
        (on_press-IsPatient e.code n h) (λ k m. on_events-outcome es k codes m)
      ∙ on_press-verdict e.code n (presses es ++ codes) h)
  | inr passed ↦ rw passed (on_events-outcome es n codes h)
]

on_reads-IsPatient : (rs : List (Option Bytes)) (n : ℕ) → n ≤ 1 → IsPatient (on_reads rs n)
unfolding on_reads
on_reads-IsPatient [] n h = h
on_reads-IsPatient (r ∷ rs) n h =
    and_then-IsPatient (on_events (events_of r) n) (on_reads rs)
      (on_events-IsPatient (events_of r) n h) (on_reads-IsPatient rs)

on_reads-outcome :
    (rs : List (Option Bytes)) (n : ℕ) (codes : List ℕ)
    → n ≤ 1
    → outcome (on_reads rs n) codes ≡ verdict n (all_presses rs ++ codes)
unfolding on_reads
on_reads-outcome [] n codes h = refl
on_reads-outcome (r ∷ rs) n codes h =
    rw (append_assoc (presses (events_of r)) (all_presses rs) codes) (
      and_then-outcome (on_events (events_of r) n) (on_reads rs) codes (all_presses rs ++ codes)
        (on_events-IsPatient (events_of r) n h) (λ k m. on_reads-outcome rs k codes m)
      ∙ on_events-outcome (events_of r) n (all_presses rs ++ codes) h)

next_round-outcome :
    (s : Scan) (f : ℕ → Option Pressed) (codes : List ℕ)
    → IsPatient s
    → ((k : ℕ) → k ≤ 1 → f k ≡ some (verdict k codes))
    → next_round s f ≡ some (outcome s codes)
next_round-outcome (stops p) f codes h k = refl
next_round-outcome (goes n) f codes h k = k n h

rounds_from-verdict :
    (deadline : ℕ) (rs : List Round) (last : Round) (n : ℕ)
    → All (λ r. is_over deadline r ≡ false) rs
    → is_over deadline last ≡ true
    → n ≤ 1
    → rounds_from deadline (rs ++ last ∷ []) n ≡ some (verdict n (round_presses rs))
unfolding rounds_from verdict
rounds_from-verdict deadline [] last n h o m = rw o (ground arith)
rounds_from-verdict deadline (r ∷ rs) last n h o m = rw h.0 (
    next_round-outcome (on_reads r.reads n) _ (round_presses rs) (on_reads-IsPatient r.reads n m)
      (λ k j. rounds_from-verdict deadline rs last k h.1 o j)
    ∙ ap some (on_reads-outcome r.reads n (round_presses rs) m))

-- Once the window of three seconds ends or the event is set, `wait_for_enter` has returned, and what
-- it returned depends on the key presses before that alone: two keys other than Enter and Esc
-- before the first of these are typing; otherwise that first Enter or Esc decides, and without one
-- there is nothing.
pub wait_for_enter-verdict :
    (start : ℕ) (rs : List Round) (last : Round)
    → All (λ r. is_over (start + window_seconds) r ≡ false) rs
    → is_over (start + window_seconds) last ≡ true
    → wait_for_enter start true (rs ++ last ∷ []) ≡ some (verdict 0 (round_presses rs))
unfolding wait_for_enter
wait_for_enter-verdict start rs last h o =
    rounds_from-verdict (start + window_seconds) rs last 0 h o (omega arith)
