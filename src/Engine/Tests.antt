-- ===== src/Engine/Tests.antt =====
-- The theorems about linux-hello/src/engine.py on a small camera: a frame is its brightness, which is
-- also the face, and its distance to the one enrolled encoding is their difference.
use linux_hello.Prelude.{
  ℕ, suc, map, length, ap, ◌+◌, ◌-◌, ◌≡◌, ◌≢◌, ◌≤◌, refl, inr, true, false, none, some, List, [],
  ◌∷◌, ◌++◌, arith, All,
}
use linux_hello.Prelude.Int.{pos}
use linux_hello.Daemon.Results.{success}
use linux_hello.Engine.Filter.{
  DarkFilter, AmbientPairing, accept, is_too_dark, remember, lit, baseline, sorted, insert_sorted,
}
use linux_hello.Engine.Filter.Dark.{accept_all, IsLearned, accept_all-bounds}
use linux_hello.Engine.Filter.Pairing.{lits, HasFrame, lits-HasFrame}
use linux_hello.Engine.Frames.{
  Vision, Source, new_stats, next_frame, lit_frame, count_frame, turn_of,
}
use linux_hello.Engine.Frames.Counting.{IsCounted, next_frame-IsCounted}
use linux_hello.Engine.Verify.{
  Round, returns, verify, verify_loop, verify_round, on_yield, on_faces, measure, is_match,
}
use linux_hello.Engine.Verify.Ending.{Returns, verify-Returns}
use linux_hello.Engine.Verify.Matching.{UnlocksIn, verify-Unlocks}
use linux_hello.Engine.Enroll
use linux_hello.Engine.Enroll.{enroll}
use linux_hello.Engine.Enroll.Capturing
use linux_hello.Engine.Enroll.Capturing.{enroll-IsEnrolled}

length-map : {A B : Type 0} (f : A → B) (xs : List A) → length (map f xs) ≡ length xs
length-map f [] = refl
length-map f (x ∷ xs) = ap suc (length-map f xs)

abbrev camera : Vision ℕ ℕ ℕ
camera = record {
  subtract = λ a b. a - b;
  level = λ n. n;
  prepare = λ n. n;
  darkness = λ n. 1_000;
  look = λ turn n. n;
  detect_faces = λ n. n ∷ [];
  compute_encoding = λ frame face. some face;
  distances = λ known e. map (λ k. pos (e - k)) known;
  argmin = λ ds. 0;
  distance_each = λ known e. length-map (λ (k : ℕ). pos (e - k)) known;
  argmin_below = λ d ds. omega arith;
  width = λ n. 100;
  left = λ n. pos 10;
  right = λ n. pos 60;
  round3 = λ a w. a;
}

abbrev filter : DarkFilter
filter = record { threshold = none; history = 900 ∷ 900 ∷ 900 ∷ 900 ∷ 900 ∷ [] }

abbrev source : Source ℕ
source = record {
  rotate = 0;
  dark_filter = filter;
  pairing = record { enabled = false; ambient = none; unpaired = 0 };
  kept = some [];
  stats = new_stats;
}

accept_all-bounds_example :
    IsLearned (accept_all (99_000 ∷ 1_000 ∷ []) filter).0
    × All (λ d. d ≤ 95_000) (accept_all (99_000 ∷ 1_000 ∷ []) filter).1
accept_all-bounds_example =
    accept_all-bounds (99_000 ∷ 1_000 ∷ []) filter
      (record { auto = refl; enough = omega arith; bounded = omega arith })

abbrev alternating : AmbientPairing ℕ
alternating = record { enabled = true; ambient = none; unpaired = 9 }

lits-HasFrame_example : HasFrame (lits camera.subtract ((5, 5) ∷ (5, 5) ∷ []) alternating)
lits-HasFrame_example =
    lits-HasFrame camera.subtract ((5, 5) ∷ (5, 5) ∷ []) alternating (omega arith) (omega arith)

next_frame-IsCounted_example : IsCounted (next_frame camera 50 source).0
next_frame-IsCounted_example = next_frame-IsCounted camera 50 source (record {
  counted = refl;
  dark_valid = omega arith;
  few = λ kept e. (let same : [] ≡ kept = cc e in rw (← same) (omega arith));
})

-- A stranger, the enrolled face, and a frame after the timeout of four seconds.
abbrev round : ℕ → ℕ → Round ℕ
round frame elapsed = record {
  frame = some frame;
  elapsed = elapsed;
  cancelled = false;
  vetoes = false;
  matched_at = elapsed + 10;
}

abbrev turns : List (Round ℕ)
turns = round 90 100 ∷ round 50 200 ∷ []

abbrev enrolled : List ℕ
enrolled = 40 ∷ []

abbrev unlocked : Source ℕ
unlocked = record source {
  dark_filter = record {
    threshold = none;
    history = 900 ∷ 900 ∷ 900 ∷ 900 ∷ 900 ∷ 1_000 ∷ 1_000 ∷ [];
  };
  kept = some (90 ∷ 50 ∷ []);
  stats = record {
    frames = 2;
    black = 0;
    dark = 0;
    valid = 2;
    darkness_total = 2_000;
    best = some (pos 10);
    elapsed = 210;
    model_index = some 0;
  };
}

second_frame_unlocks :
    verify camera enrolled (pos 35) 4_000 true turns source ≡ some (returns success, unlocked)
unfolding verify verify_loop verify_round on_yield on_faces measure is_match next_frame count_frame
    lit lit_frame accept is_too_dark remember turn_of baseline sorted insert_sorted
second_frame_unlocks = refl

verify-Unlocks_example :
    UnlocksIn camera enrolled (pos 35) 4_000 turns source × (enrolled ≢ []) × (true ≡ true)
verify-Unlocks_example =
    verify-Unlocks camera enrolled (pos 35) 4_000 true turns source unlocked second_frame_unlocks

verify-Returns_example :
    Returns (verify camera enrolled (pos 35) 4_000 true (turns ++ round 90 4_100 ∷ []) source)
verify-Returns_example =
    verify-Returns camera enrolled (pos 35) 4_000 true turns (round 90 4_100) source
      (inr (inr (omega arith)))

abbrev enrolling : ℕ → Enroll.Round ℕ
enrolling elapsed = record {
  frame = some 40;
  elapsed = elapsed;
  cancelled = false;
  now = elapsed;
  captured_at = elapsed;
  done_at = elapsed;
}

enroll-IsEnrolled_example :
    Capturing.Returns camera 2
      (enroll camera 2 30_000 true ((enrolling 100 ∷ []) ++ enrolling 30_500 ∷ []) source)
enroll-IsEnrolled_example =
    enroll-IsEnrolled camera 2 30_000 true (enrolling 100 ∷ []) (enrolling 30_500) source
      (omega arith) (inr (omega arith))
