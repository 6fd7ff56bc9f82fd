-- ===== src/Engine/Verify.antt =====
-- `verify` of linux-hello/src/engine.py. A round is one turn of its loop: what the camera gives, the
-- clock, and the answers of the callbacks. Times are milliseconds since the camera was opened;
-- distances and the limit are integers in one unit.
pub mod Ending
pub mod Matching
use linux_hello.Prelude.{
  ℕ, zero, suc, ◌+◌, ◌-◌, Bool, true, false, not, ◌&&◌, Option, none, some, List, [], ◌∷◌, ltb, leb,
  ◌==◌, if◌then◌else◌, is_empty, length,
}
use linux_hello.Prelude.Int.{ℤ, pos, ltb_int}
use linux_hello.Daemon.Results.{
  VerificationResult, success, no_face_model, timeout_reached, too_dark, invalid_device,
  rubberstamp, cancelled,
}
use linux_hello.Engine.Frames.{Vision, Stats, Source, next_frame, count_frame}

-- `vetoes`: `after_match` would return False.
pub record Round (F : Type 0) : Type 0 where
  pub frame : Option F
  pub elapsed : ℕ
  pub cancelled : Bool
  pub vetoes : Bool
  pub matched_at : ℕ

-- What a turn comes to.
pub data Turned (F : Type 0) : Type 0 where
  ends : VerificationResult → Source F → Turned F
  raises : Source F → Turned F
  goes : Source F → Turned F

-- How `verify` is left: with a result, or by the error of an index that is not one.
pub data Ended : Type 0 where
  returns : VerificationResult → Ended
  index_error : Ended

unfoldable pub timed_out_result : Stats → VerificationResult
timed_out_result stats = if stats.dark == stats.valid then too_dark else timeout_reached

-- distances[index], none where the index is out of range
abbrev pub entry : List ℤ → ℕ → Option ℤ
entry [] i = none
entry (d ∷ ds) zero = some d
entry (d ∷ ds) (suc i) = entry ds i

abbrev pub better : ℤ → Option ℤ → Option ℤ
better d none = some d
better d (some best) = if ltb_int d best then some d else some best

-- 0 <= distance < certainty
unfoldable pub is_match : ℤ → ℤ → Bool
is_match certainty d = not (ltb_int d (pos 0)) && ltb_int d certainty

abbrev pub record_best : {F : Type 0} → ℤ → Source F → Source F
record_best d s = record s { stats = record (s.stats) { best = better d s.stats.best } }

module _ {F L E : Type 0} (v : Vision F L E) (encodings : List E) (certainty : ℤ) where
  abbrev pub matched : Round F → ℕ → Source F → Turned F
  matched r index s =
      ends (if r.vetoes then rubberstamp else success)
        (record s { stats = record (s.stats) { model_index = some index; elapsed = r.matched_at } })

  abbrev pub measured : ℕ → Option ℤ → Round F → Source F → Turned F
  measured index none r s = raises s
  measured index (some d) r s =
      if is_match certainty d then matched r index (record_best d s) else goes (record_best d s)

  unfoldable pub measure : List ℤ → Round F → Source F → Turned F
  unfolding is_match
  measure distances r s = measured (v.argmin distances) (entry distances (v.argmin distances)) r s

  abbrev pub compare_encoding : Option E → Round F → Source F → Turned F
  compare_encoding none r s = goes s
  compare_encoding (some e) r s = measure (v.distances encodings e) r s

  abbrev pub and_then : Turned F → (Source F → Turned F) → Turned F
  and_then (ends result s) next = ends result s
  and_then (raises s) next = raises s
  and_then (goes s) next = next s

  -- The loop over the faces of a frame.
  unfoldable pub on_faces : F → List L → Round F → Source F → Turned F
  on_faces frame [] r s = goes s
  on_faces frame (l ∷ ls) r s =
      and_then (compare_encoding (v.compute_encoding frame l) r s) (λ t. on_faces frame ls r t)

  abbrev pub on_frame : Option F → Round F → Source F → Turned F
  on_frame none r s = goes s
  on_frame (some frame) r s = on_faces frame (v.detect_faces frame) r s

  -- The body of the loop, after the generator's turn.
  unfoldable pub on_yield : ℕ → Round F → Source F → Option F → Turned F
  on_yield timeout r s frame =
      if r.cancelled
      then ends cancelled s
      else if ltb timeout r.elapsed
      then ends (timed_out_result s.stats) s
      else on_frame frame r s

  abbrev pub set_elapsed : ℕ → Source F → Source F
  set_elapsed n s = record s { stats = record (s.stats) { elapsed = n } }

  abbrev pub on_next : ℕ → Round F → Source F × Option F × ℕ → Turned F
  on_next timeout r (s, frame, darkness) = on_yield timeout r (set_elapsed r.elapsed s) frame

  abbrev pub on_camera : ℕ → Round F → Option F → Source F → Turned F
  on_camera timeout r none s = ends invalid_device (count_frame s)
  on_camera timeout r (some frame) s = on_next timeout r (next_frame v frame s)

  unfoldable pub verify_round : ℕ → Round F → Source F → Turned F
  verify_round timeout r s = on_camera timeout r r.frame s

  abbrev pub after_round :
      Turned F → (Source F → Option (Ended × Source F)) → Option (Ended × Source F)
  after_round (ends result s) next = some (returns result, s)
  after_round (raises s) next = some (index_error, s)
  after_round (goes s) next = next s

  -- `none` is that the loop still runs after the rounds.
  unfoldable pub verify_loop : ℕ → List (Round F) → Source F → Option (Ended × Source F)
  verify_loop timeout [] s = none
  verify_loop timeout (r ∷ rs) s =
      after_round (verify_round timeout r s) (λ t. verify_loop timeout rs t)

  -- `opens`: the camera could be opened.
  unfoldable pub verify : ℕ → Bool → List (Round F) → Source F → Option (Ended × Source F)
  verify timeout opens rs s =
      if is_empty encodings
      then some (returns no_face_model, s)
      else if not opens
      then some (returns invalid_device, s)
      else verify_loop timeout rs s
