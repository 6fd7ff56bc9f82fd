-- ===== src/Engine/Verify/Ending.antt =====
-- When the loop of `verify` in linux-hello/src/engine.py ends.
use linux_hello.Prelude.{
  ℕ, zero, suc, ◌<◌, false, length, if◌then◌else◌, ◌≡◌, refl, sym, ◌∙◌, ◌⊎◌, inl, inr, Bool, true,
  Option, none, some, List, [], ◌∷◌, ◌++◌, arith, ltb, is_empty, Bool-cases,
}
use linux_hello.Prelude.Int.{ℤ}
use linux_hello.Daemon.Results.{VerificationResult, no_face_model, invalid_device}
use linux_hello.Engine.Frames.{Vision, Source, next_frame}
use linux_hello.Engine.Verify.{
  Round, Turned, ends, raises, goes, Ended, returns, entry, is_match, record_best, matched,
  measured, measure, compare_encoding, and_then, on_faces, on_frame, verify_round, verify_loop,
  verify, on_yield, on_camera, on_next, after_round, set_elapsed,
}

-- The camera fails, the caller cancels, or the time is over.
abbrev pub IsOver : {F : Type 0} → ℕ → Round F → Type 0
IsOver timeout r = (r.frame ≡ none) ⊎ (r.cancelled ≡ true) ⊎ (timeout < r.elapsed)

pub record Returns {F : Type 0} (o : Option (Ended × Source F)) : Type 0 where
  pub result : VerificationResult
  pub source : Source F
  pub is : o ≡ some (returns result, source)

abbrev IsEnd : {F : Type 0} → Turned F → Type 0
IsEnd (ends x s) = Unit
IsEnd (raises s) = ⊥
IsEnd (goes s) = ⊥

-- A turn that does not end in an error.
abbrev IsSound : {F : Type 0} → Turned F → Type 0
IsSound (ends x s) = Unit
IsSound (raises s) = ⊥
IsSound (goes s) = Unit

entry-below : (ds : List ℤ) (i : ℕ) → i < length ds → (d : ℤ) × (entry ds i ≡ some d)
entry-below [] i h = absurd (omega (arith, h))
entry-below (d ∷ ds) zero h = (d, refl)
entry-below (d ∷ ds) (suc i) h = entry-below ds i (omega (arith, h))

if-IsSound :
    {F : Type 0} (b : Bool) (x y : Turned F) → IsSound x → IsSound y → IsSound (if b then x else y)
if-IsSound true x y h k = h
if-IsSound false x y h k = k

nonempty : {A : Type 0} (xs : List A) → is_empty xs ≡ false → 0 < length xs
nonempty [] h = cc h
nonempty (x ∷ xs) h = omega arith

module _ {F L E : Type 0} (v : Vision F L E) (encodings : List E) (certainty : ℤ)
    (timeout : ℕ) where
  yield_over :
      (r : Round F) (s : Source F) (frame : Option F)
      → (r.cancelled ≡ true) ⊎ (timeout < r.elapsed)
      → IsEnd (on_yield v encodings certainty timeout r s frame)
  unfolding on_yield
  yield_over r s frame (inl stop) = rw stop tt
  yield_over r s frame (inr late) = elim (Bool-cases r.cancelled) [
    | inl stop ↦ rw stop tt
    | inr on ↦ let over : ltb timeout r.elapsed ≡ true = ground arith in rw (on, over) tt
  ]

  next_over :
      (r : Round F) (next : Source F × Option F × ℕ)
      → (r.cancelled ≡ true) ⊎ (timeout < r.elapsed)
      → IsEnd (on_next v encodings certainty timeout r next)
  next_over r (s, frame, darkness) h =
      yield_over r (set_elapsed v encodings certainty r.elapsed s) frame h

  camera_over :
      (f : Option F) (r : Round F) (s : Source F)
      → r.frame ≡ f
      → IsOver timeout r
      → IsEnd (on_camera v encodings certainty timeout r f s)
  camera_over none r s e h = tt
  camera_over (some frame) r s e (inl gone) =
      let wrong : none ≡ some frame = sym gone ∙ e in cc wrong
  camera_over (some frame) r s e (inr (inl stop)) = next_over r (next_frame v frame s) (inl stop)
  camera_over (some frame) r s e (inr (inr late)) = next_over r (next_frame v frame s) (inr late)

  after_end :
      (t : Turned F) (next : Source F → Option (Ended × Source F))
      → IsEnd t
      → Returns (after_round v encodings certainty t next)
  after_end (ends x s) next h = record { result = x; source = s; is = refl }
  after_end (raises s) next h = absurd h
  after_end (goes s) next h = absurd h

  after_any :
      (t : Turned F) (next : Source F → Option (Ended × Source F))
      → IsSound t
      → ((s : Source F) → Returns (next s))
      → Returns (after_round v encodings certainty t next)
  after_any (ends x s) next k h = record { result = x; source = s; is = refl }
  after_any (raises s) next k h = absurd k
  after_any (goes s) next k h = h s

  -- Some encoding is enrolled: no index is out of range.
  argmin-below : (ds : List ℤ) → 0 < length ds → v.argmin ds < length ds
  argmin-below [] h = absurd (omega (arith, h))
  argmin-below (d ∷ ds) h = v.argmin_below d ds

  measured-IsSound :
      (index : ℕ) (o : Option ℤ) (r : Round F) (s : Source F)
      → ((d : ℤ) × (o ≡ some d))
      → IsSound (measured v encodings certainty index o r s)
  measured-IsSound index none r s (d, e) = absurd (cc e)
  measured-IsSound index (some d) r s h =
      if-IsSound (is_match certainty d) (matched v encodings certainty r index (record_best d s))
        (goes (record_best d s)) tt tt

  measure-IsSound :
      (x : E) (r : Round F) (s : Source F)
      → 0 < length encodings
      → IsSound (measure v encodings certainty (v.distances encodings x) r s)
  unfolding measure
  measure-IsSound x r s h =
      let ds = v.distances encodings x in
      let long : 0 < length ds = rw (v.distance_each encodings x) h in
      measured-IsSound (v.argmin ds) (entry ds (v.argmin ds)) r s
        (entry-below ds (v.argmin ds) (argmin-below ds long))

  compare-IsSound :
      (o : Option E) (r : Round F) (s : Source F)
      → 0 < length encodings
      → IsSound (compare_encoding v encodings certainty o r s)
  compare-IsSound none r s h = tt
  compare-IsSound (some x) r s h = measure-IsSound x r s h

  and_then-IsSound :
      (t : Turned F) (next : Source F → Turned F)
      → IsSound t
      → ((s : Source F) → IsSound (next s))
      → IsSound (and_then v encodings certainty t next)
  and_then-IsSound (ends x s) next h k = tt
  and_then-IsSound (raises s) next h k = h
  and_then-IsSound (goes s) next h k = k s

  faces-IsSound :
      (frame : F) (ls : List L) (r : Round F) (s : Source F)
      → 0 < length encodings
      → IsSound (on_faces v encodings certainty frame ls r s)
  unfolding on_faces
  faces-IsSound frame [] r s h = tt
  faces-IsSound frame (l ∷ ls) r s h =
      and_then-IsSound (compare_encoding v encodings certainty (v.compute_encoding frame l) r s)
        (λ t. on_faces v encodings certainty frame ls r t)
        (compare-IsSound (v.compute_encoding frame l) r s h) (λ t. faces-IsSound frame ls r t h)

  frame-IsSound :
      (o : Option F) (r : Round F) (s : Source F)
      → 0 < length encodings
      → IsSound (on_frame v encodings certainty o r s)
  frame-IsSound none r s h = tt
  frame-IsSound (some frame) r s h = faces-IsSound frame (v.detect_faces frame) r s h

  yield-IsSound :
      (r : Round F) (s : Source F) (o : Option F)
      → 0 < length encodings
      → IsSound (on_yield v encodings certainty timeout r s o)
  unfolding on_yield
  yield-IsSound r s o h =
      if-IsSound r.cancelled _ _ tt
        (if-IsSound (ltb timeout r.elapsed) _ _ tt (frame-IsSound o r s h))

  next-IsSound :
      (r : Round F) (next : Source F × Option F × ℕ)
      → 0 < length encodings
      → IsSound (on_next v encodings certainty timeout r next)
  next-IsSound r (s, frame, darkness) h =
      yield-IsSound r (set_elapsed v encodings certainty r.elapsed s) frame h

  camera-IsSound :
      (f : Option F) (r : Round F) (s : Source F)
      → 0 < length encodings
      → IsSound (on_camera v encodings certainty timeout r f s)
  camera-IsSound none r s h = tt
  camera-IsSound (some frame) r s h = next-IsSound r (next_frame v frame s) h

  loop-Returns :
      (rs : List (Round F)) (last : Round F) (s : Source F)
      → 0 < length encodings
      → IsOver timeout last
      → Returns (verify_loop v encodings certainty timeout (rs ++ last ∷ []) s)
  unfolding verify_loop verify_round
  loop-Returns [] last s n h = after_end _ _ (camera_over last.frame last s refl h)
  loop-Returns (r ∷ rs) last s n h =
      after_any _ _ (camera-IsSound r.frame r s n) (λ t. loop-Returns rs last t n h)

  -- `verify` has returned at the latest with the first turn of its loop in which the camera fails, the
  -- caller has cancelled or the timeout is over, whatever the frames and the encodings.
  pub verify-Returns :
      (opens : Bool) (rs : List (Round F)) (last : Round F) (s : Source F)
      → IsOver timeout last
      → Returns (verify v encodings certainty timeout opens (rs ++ last ∷ []) s)
  unfolding verify
  verify-Returns opens rs last s h = elim (Bool-cases (is_empty encodings)) [
    | inl blank ↦ rw blank (record { result = no_face_model; source = s; is = refl })
    | inr known ↦ elim (Bool-cases opens) [
      | inl open_now ↦ rw (known, open_now) (loop-Returns rs last s (nonempty encodings known) h)
      | inr broken ↦ rw (known, broken) (record { result = invalid_device; source = s; is = refl })
    ]
  ]
