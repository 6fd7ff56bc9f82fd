-- ===== src/Engine/Enroll.antt =====
-- `enroll` of linux-hello/src/engine.py. A round is one turn of its loop, with the clock at the frame,
-- at the test of the spacing, at the capture and at the end, in milliseconds.
pub mod Capturing
use linux_hello.Prelude.{
  ℕ, ◌+◌, Bool, true, false, not, ◌&&◌, Option, none, some, List, [], ◌∷◌, ◌++◌, ltb, leb, ◌==◌,
  if◌then◌else◌, length, max,
}
use linux_hello.Prelude.Int.{ℤ, pos, negsuc, ltb_int, add_nat}
use linux_hello.Daemon.Results.{VerificationResult, success, invalid_device, cancelled}
use linux_hello.Engine.Frames.{Vision, Source, next_frame, count_frame}
use linux_hello.Engine.Verify.{timed_out_result}

abbrev pub sample_spacing : ℕ
sample_spacing = 350

-- In thousandths of the frame's width.
abbrev pub min_face_share : ℕ
min_face_share = 180

pub record Round (F : Type 0) : Type 0 where
  pub frame : Option F
  pub elapsed : ℕ
  pub cancelled : Bool
  pub now : ℕ
  pub captured_at : ℕ
  pub done_at : ℕ

pub data Hint : Type 0 where
  searching too_dark_hint no_face multiple_faces too_far captured_hint : Hint

-- The encodings captured so far, the time of the last and the reports made: a hint and how many
-- samples there were.
pub record Enrolment (F E : Type 0) : Type 0 where
  pub source : Source F
  pub captured : List E
  pub last_capture : Option ℕ
  pub reports : List (Hint × ℕ)

pub data Turned (F E : Type 0) : Type 0 where
  ends : VerificationResult → Enrolment F E → Turned F E
  goes : Enrolment F E → Turned F E

-- max(0, x) and min(w, x)
abbrev pub not_negative : ℤ → ℤ
not_negative (pos n) = pos n
not_negative (negsuc n) = pos 0

abbrev pub at_most : ℕ → ℤ → ℤ
at_most w x = if ltb_int (pos w) x then pos w else x

-- time.monotonic() - last_capture < SAMPLE_SPACING
abbrev pub is_too_soon : ℕ → Option ℕ → Bool
is_too_soon now none = false
is_too_soon now (some last) = ltb now (last + sample_spacing)

abbrev pub at_time : {F E : Type 0} → Source F → ℕ → Enrolment F E → Enrolment F E
at_time src n s = record s { source = record src { stats = record (src.stats) { elapsed = n } } }

module _ {F L E : Type 0} (v : Vision F L E) (samples : ℕ) where
  unfoldable pub report : Hint → Enrolment F E → Enrolment F E
  report hint s = record s { reports = s.reports ++ (hint, length s.captured) ∷ [] }

  -- face[2] - face[0] < MIN_FACE_SHARE
  unfoldable pub is_too_far : F → L → Bool
  is_too_far frame l =
      let w = v.width frame in
      ltb_int (v.round3 (at_most w (v.right l)) w)
        (add_nat (v.round3 (not_negative (v.left l)) w) min_face_share)

  unfoldable pub capture : E → Round F → Enrolment F E → Turned F E
  capture e r s =
      let taken =
        report captured_hint
          (record s { captured = s.captured ++ e ∷ []; last_capture = some r.captured_at }) in
      if leb samples (length taken.captured)
      then ends success (at_time taken.source r.done_at taken)
      else goes taken

  abbrev pub with_encoding : Option E → Round F → Enrolment F E → Turned F E
  with_encoding none r s = goes (report no_face s)
  with_encoding (some e) r s = capture e r s

  unfoldable pub on_face : F → L → Round F → Enrolment F E → Turned F E
  on_face frame l r s =
      if is_too_far frame l
      then goes (report too_far s)
      else if is_too_soon r.now s.last_capture
      then goes (report searching s)
      else with_encoding (v.compute_encoding frame l) r s

  abbrev pub on_locations : F → List L → Round F → Enrolment F E → Turned F E
  on_locations frame [] r s = goes (report no_face s)
  on_locations frame (l ∷ []) r s = on_face frame l r s
  on_locations frame (l ∷ m ∷ ls) r s = goes (report multiple_faces s)

  abbrev pub on_picture : Option F → Round F → Enrolment F E → Turned F E
  on_picture none r s = goes (report too_dark_hint s)
  on_picture (some frame) r s = on_locations frame (v.detect_faces frame) r s

  unfoldable pub on_yield : ℕ → Round F → Option F → Enrolment F E → Turned F E
  on_yield timeout r frame s =
      if r.cancelled
      then ends cancelled s
      else if ltb timeout r.elapsed
      then ends (timed_out_result s.source.stats) s
      else on_picture frame r s

  abbrev pub on_next : ℕ → Round F → Source F × Option F × ℕ → Enrolment F E → Turned F E
  on_next timeout r (src, frame, darkness) s = on_yield timeout r frame (at_time src r.elapsed s)

  abbrev pub on_camera : ℕ → Round F → Option F → Enrolment F E → Turned F E
  on_camera timeout r none s = ends invalid_device (record s { source = count_frame s.source })
  on_camera timeout r (some frame) s = on_next timeout r (next_frame v frame s.source) s

  unfoldable pub enroll_round : ℕ → Round F → Enrolment F E → Turned F E
  enroll_round timeout r s = on_camera timeout r r.frame s

  abbrev pub after_round :
      Turned F E
      → (Enrolment F E → Option (VerificationResult × Enrolment F E))
      → Option (VerificationResult × Enrolment F E)
  after_round (ends result s) next = some (result, s)
  after_round (goes s) next = next s

  unfoldable pub enroll_loop :
      ℕ → List (Round F) → Enrolment F E → Option (VerificationResult × Enrolment F E)
  enroll_loop timeout [] s = none
  enroll_loop timeout (r ∷ rs) s =
      after_round (enroll_round timeout r s) (λ t. enroll_loop timeout rs t)

  unfoldable pub new_enrolment : Source F → Enrolment F E
  new_enrolment src = record { source = src; captured = []; last_capture = none; reports = [] }

  unfoldable pub enroll :
      ℕ → Bool → List (Round F) → Source F → Option (VerificationResult × Enrolment F E)
  enroll timeout opens rs src =
      if opens
      then enroll_loop timeout rs (report searching (new_enrolment src))
      else some (invalid_device, new_enrolment src)
