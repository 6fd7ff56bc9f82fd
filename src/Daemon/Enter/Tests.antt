-- ===== src/Daemon/Enter/Tests.antt =====
-- The theorem about linux-hello/src/daemon/confirm.py at concrete reads.
use linux_hello.Prelude.{ℕ, ◌≡◌, refl, true, false, none, some, [], ◌∷◌, ◌++◌, replicate}
use linux_hello.Prelude.Bytes.{Bytes}
use linux_hello.Daemon.Confirmed.{enter}
use linux_hello.Daemon.Enter.{Round, is_over, is_press, wait_for_enter, unpack_events, unpack_event}
use linux_hello.Daemon.Enter.Deciding.{verdict, round_presses, wait_for_enter-verdict}

-- An event of a key: pressed (1) or released (0).
abbrev key : ℕ → ℕ → Bytes
key code value = replicate 16 7 ++ 1 ∷ 0 ∷ code ∷ 0 ∷ value ∷ 0 ∷ 0 ∷ 0 ∷ []

-- Another key is pressed and released, then Enter, with a torn event behind it.
abbrev first : Round
first = record { cancelled = false; now = 1_100; reads = none ∷ some (key 30 1 ++ key 30 0) ∷ [] }

abbrev second : Round
second = record { cancelled = false; now = 1_300; reads = some (key 28 1 ++ 7 ∷ []) ∷ [] }

abbrev late : Round
late = record { cancelled = false; now = 4_000; reads = [] }

enter_decides : verdict 0 (round_presses (first ∷ second ∷ [])) ≡ enter
unfolding verdict is_press unpack_events unpack_event
enter_decides = refl

wait_for_enter-verdict_example :
    wait_for_enter 1_000 true ((first ∷ second ∷ []) ++ late ∷ [])
    ≡ some (verdict 0 (round_presses (first ∷ second ∷ [])))
unfolding is_over
wait_for_enter-verdict_example =
    wait_for_enter-verdict 1_000 (first ∷ second ∷ []) late (refl, (refl, tt)) refl
