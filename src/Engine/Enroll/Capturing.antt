-- ===== src/Engine/Enroll/Capturing.antt =====
-- How many samples `enroll` of linux-hello/src/engine.py captures.
use linux_hello.Prelude.{
  ℕ, ◌≤◌, ◌<◌, ◌≡◌, ◌≢◌, ◌⊎◌, refl, inl, inr, Bool, true, false, Option, none, some, List, [], ◌∷◌,
  ◌++◌, arith, ltb, leb, ◌==◌, if◌then◌else◌, length, length-append, Bool-cases,
}
use linux_hello.Daemon.Results.{VerificationResult, success, invalid_device}
use linux_hello.Engine.Frames.{Vision, Stats, Source, next_frame}
use linux_hello.Engine.Verify.{timed_out_result}
use linux_hello.Engine.Enroll.{
  Round, Enrolment, Turned, ends, goes, Hint, report, is_too_far, is_too_soon, capture,
  with_encoding, on_face, on_locations, on_picture, at_time, on_yield, on_next, on_camera,
  enroll_round, after_round, enroll_loop, new_enrolment, enroll,
}

module _ {F L E : Type 0} (v : Vision F L E) (samples : ℕ) where
  -- The loop goes on only with samples missing, and ends with no more than were asked for, with all of
  -- them if it succeeds.
  abbrev IsKept : Turned F E → Type 0
  IsKept (goes s) = length s.captured < samples
  IsKept (ends x s) = (length s.captured ≤ samples) × (x ≡ success → length s.captured ≡ samples)

  if-IsKept : (b : Bool) (x y : Turned F E) → IsKept x → IsKept y → IsKept (if b then x else y)
  if-IsKept true x y h k = h
  if-IsKept false x y h k = k

  report-IsKept :
      (hint : Hint) (s : Enrolment F E)
      → length s.captured < samples
      → IsKept (goes (report v samples hint s))
  unfolding report
  report-IsKept hint s h = h

  capture-IsKept :
      (e : E) (r : Round F) (s : Enrolment F E)
      → length s.captured < samples
      → IsKept (capture v samples e r s)
  unfolding capture report
  capture-IsKept e r s h = elim (Bool-cases (leb samples (length (s.captured ++ e ∷ [])))) [
    | inl full ↦
        let enough : samples ≤ length (s.captured ++ e ∷ []) = ground arith in
        rw full (
          omega (arith, h, length-append s.captured (e ∷ [])),
          (λ x. omega (arith, h, enough, length-append s.captured (e ∷ []))),
        )
    | inr more ↦
        let missing : length (s.captured ++ e ∷ []) < samples = ground arith in rw more missing
  ]

  encoding-IsKept :
      (o : Option E) (r : Round F) (s : Enrolment F E)
      → length s.captured < samples
      → IsKept (with_encoding v samples o r s)
  encoding-IsKept none r s h = report-IsKept _ s h
  encoding-IsKept (some e) r s h = capture-IsKept e r s h

  locations-IsKept :
      (frame : F) (ls : List L) (r : Round F) (s : Enrolment F E)
      → length s.captured < samples
      → IsKept (on_locations v samples frame ls r s)
  unfolding on_face
  locations-IsKept frame [] r s h = report-IsKept _ s h
  locations-IsKept frame (l ∷ []) r s h =
      if-IsKept (is_too_far v samples frame l) _ _ (report-IsKept _ s h) (
        if-IsKept (is_too_soon r.now s.last_capture) _ _ (report-IsKept _ s h)
          (encoding-IsKept (v.compute_encoding frame l) r s h))
  locations-IsKept frame (l ∷ m ∷ ls) r s h = report-IsKept _ s h

  picture-IsKept :
      (o : Option F) (r : Round F) (s : Enrolment F E)
      → length s.captured < samples
      → IsKept (on_picture v samples o r s)
  picture-IsKept none r s h = report-IsKept _ s h
  picture-IsKept (some frame) r s h = locations-IsKept frame (v.detect_faces frame) r s h

  timed_out-ne-success : (stats : Stats) → timed_out_result stats ≢ success
  unfolding timed_out_result
  timed_out-ne-success stats = elim (Bool-cases (stats.dark == stats.valid)) [
    | inl dark ↦ rw dark (λ e. cc e)
    | inr seen ↦ rw seen (λ e. cc e)
  ]

  yield-IsKept :
      (timeout : ℕ) (r : Round F) (o : Option F) (s : Enrolment F E)
      → length s.captured < samples
      → IsKept (on_yield v samples timeout r o s)
  unfolding on_yield
  yield-IsKept timeout r o s h =
      if-IsKept r.cancelled _ _ (omega (arith, h), (λ e. cc e))
        (if-IsKept (ltb timeout r.elapsed) _ _
          (omega (arith, h), (λ e. absurd (timed_out-ne-success s.source.stats e)))
          (picture-IsKept o r s h))

  next-IsKept :
      (timeout : ℕ) (r : Round F) (next : Source F × Option F × ℕ) (s : Enrolment F E)
      → length s.captured < samples
      → IsKept (on_next v samples timeout r next s)
  next-IsKept timeout r (src, frame, darkness) s h =
      yield-IsKept timeout r frame (at_time src r.elapsed s) h

  camera-IsKept :
      (timeout : ℕ) (r : Round F) (o : Option F) (s : Enrolment F E)
      → length s.captured < samples
      → IsKept (on_camera v samples timeout r o s)
  camera-IsKept timeout r none s h = (omega (arith, h), (λ e. cc e))
  camera-IsKept timeout r (some frame) s h = next-IsKept timeout r (next_frame v frame s.source) s h

  -- What an ended enrolment has.
  abbrev pub IsEnrolled : VerificationResult × Enrolment F E → Type 0
  IsEnrolled (x, s) = (length s.captured ≤ samples) × (x ≡ success → length s.captured ≡ samples)

  abbrev IsEnd : Turned F E → Type 0
  IsEnd (ends x s) = Unit
  IsEnd (goes s) = ⊥

  if-IsEnd :
      (b : Bool) (x y : Turned F E) → IsEnd x → (b ≡ false → IsEnd y) → IsEnd (if b then x else y)
  if-IsEnd true x y h k = h
  if-IsEnd false x y h k = k refl

  yield-IsEnd :
      (timeout : ℕ) (r : Round F) (o : Option F) (s : Enrolment F E)
      → (r.cancelled ≡ true) ⊎ (timeout < r.elapsed)
      → IsEnd (on_yield v samples timeout r o s)
  unfolding on_yield
  yield-IsEnd timeout r o s (inl stop) = rw stop tt
  yield-IsEnd timeout r o s (inr late) =
      let over : ltb timeout r.elapsed ≡ true = ground arith in
      if-IsEnd r.cancelled _ _ tt (λ on. rw over tt)

  next-IsEnd :
      (timeout : ℕ) (r : Round F) (next : Source F × Option F × ℕ) (s : Enrolment F E)
      → (r.cancelled ≡ true) ⊎ (timeout < r.elapsed)
      → IsEnd (on_next v samples timeout r next s)
  next-IsEnd timeout r (src, frame, darkness) s h =
      yield-IsEnd timeout r frame (at_time src r.elapsed s) h

  camera-IsEnd :
      (timeout : ℕ) (r : Round F) (o : Option F) (s : Enrolment F E)
      → (r.cancelled ≡ true) ⊎ (timeout < r.elapsed)
      → IsEnd (on_camera v samples timeout r o s)
  camera-IsEnd timeout r none s h = tt
  camera-IsEnd timeout r (some frame) s h = next-IsEnd timeout r (next_frame v frame s.source) s h

  -- The loop has returned, with what an ended enrolment has.
  pub record Returns (o : Option (VerificationResult × Enrolment F E)) : Type 0 where
    pub last : VerificationResult × Enrolment F E
    pub is : o ≡ some last
    pub enrolled : IsEnrolled last

  after-Returns :
      (t : Turned F E) (next : Enrolment F E → Option (VerificationResult × Enrolment F E))
      → IsKept t
      → ((s : Enrolment F E) → length s.captured < samples → Returns (next s))
      → Returns (after_round v samples t next)
  after-Returns (ends x s) next h k = record { last = (x, s); is = refl; enrolled = h }
  after-Returns (goes s) next h k = k s h

  end-Returns :
      (t : Turned F E) (next : Enrolment F E → Option (VerificationResult × Enrolment F E))
      → IsKept t
      → IsEnd t
      → Returns (after_round v samples t next)
  end-Returns (ends x s) next h k = record { last = (x, s); is = refl; enrolled = h }
  end-Returns (goes s) next h k = absurd k

  loop-Returns :
      (timeout : ℕ) (rs : List (Round F)) (last : Round F) (s : Enrolment F E)
      → length s.captured < samples
      → (last.cancelled ≡ true) ⊎ (timeout < last.elapsed)
      → Returns (enroll_loop v samples timeout (rs ++ last ∷ []) s)
  unfolding enroll_loop enroll_round
  loop-Returns timeout [] last s h o =
      end-Returns _ _ (camera-IsKept timeout last last.frame s h)
        (camera-IsEnd timeout last last.frame s o)
  loop-Returns timeout (r ∷ rs) last s h o =
      after-Returns _ _ (camera-IsKept timeout r r.frame s h)
        (λ t k. loop-Returns timeout rs last t k o)

  -- Where at least one sample is asked for, an enrolment has ended at the latest with the first turn of
  -- its loop that is cancelled or past the timeout; it ends with at most as many samples as were asked
  -- for, and succeeds with exactly as many.
  pub enroll-IsEnrolled :
      (timeout : ℕ) (opens : Bool) (rs : List (Round F)) (last : Round F) (src : Source F)
      → 0 < samples
      → (last.cancelled ≡ true) ⊎ (timeout < last.elapsed)
      → Returns (enroll v samples timeout opens (rs ++ last ∷ []) src)
  unfolding enroll new_enrolment report
  enroll-IsEnrolled timeout true rs last src h o = loop-Returns timeout rs last _ h o
  enroll-IsEnrolled timeout false rs last src h o = record {
    last = (invalid_device, new_enrolment v samples src);
    is = refl;
    enrolled = (omega arith, (λ x. cc x));
  }
