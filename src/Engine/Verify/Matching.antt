-- ===== src/Engine/Verify/Matching.antt =====
-- What a success of `verify` in linux-hello/src/engine.py rests on.
use linux_hello.Prelude.{
  ℕ, ◌≤◌, ◌<◌, ◌≡◌, ◌≢◌, refl, ap, ◌⊎◌, inl, inr, Bool, true, false, Option, none, some, List, [],
  ◌∷◌, arith, ltb, ◌==◌, if◌then◌else◌, is_empty, Bool-cases,
}
use linux_hello.Prelude.Int.{ℤ, pos, negsuc}
use linux_hello.Daemon.Results.{success, no_face_model, invalid_device}
use linux_hello.Engine.Frames.{Vision, Stats, Source, next_frame}
use linux_hello.Engine.Verify.{
  Round, Turned, ends, raises, goes, Ended, returns, measured, timed_out_result, entry, is_match,
  measure, compare_encoding, and_then, on_faces, on_frame, on_yield, on_next, on_camera,
  set_elapsed, verify_round, after_round, verify_loop, verify,
}

-- At least 0, and below the limit.
abbrev pub InRange : ℤ → ℤ → Type 0
InRange (pos limit) (pos d) = d < limit
InRange _ _ = ⊥

is_match-InRange : (limit d : ℤ) → is_match limit d ≡ true → InRange limit d
unfolding is_match
is_match-InRange (pos limit) (pos d) h = ground arith
is_match-InRange (pos limit) (negsuc d) h = cc h
is_match-InRange (negsuc limit) (pos d) h = absurd (ground arith)
is_match-InRange (negsuc limit) (negsuc d) h = cc h

module _ {F L E : Type 0} (v : Vision F L E) (encodings : List E) (certainty : ℤ) where
  -- The face at a location of a frame: its encoding, and the distance to the enrolled one that argmin picks.
  pub record IsMatch (frame : F) (l : L) : Type 0 where
    pub encoding : E
    pub encoded : v.compute_encoding frame l ≡ some encoding
    pub distance : ℤ
    pub measured_at :
        entry (v.distances encodings encoding) (v.argmin (v.distances encodings encoding))
        ≡ some distance
    pub near : InRange certainty distance

  abbrev pub HasMatch : F → List L → Type 0
  HasMatch frame [] = ⊥
  HasMatch frame (l ∷ ls) = IsMatch frame l ⊎ HasMatch frame ls

  -- A turn from `before`, in time, not cancelled and not vetoed, in which a frame that was looked at has such a face.
  pub record Unlocks (timeout : ℕ) (r : Round F) (before : Source F) : Type 0 where
    pub in_time : r.elapsed ≤ timeout
    pub wanted : r.cancelled ≡ false
    pub allowed : r.vetoes ≡ false
    pub picture : F
    pub taken : r.frame ≡ some picture
    pub seen : F
    pub looked_at : (next_frame v picture before).1 ≡ some seen
    pub face : HasMatch seen (v.detect_faces seen)

  -- The turn that unlocks, after turns that go on.
  abbrev pub UnlocksIn : ℕ → List (Round F) → Source F → Type 0
  UnlocksIn timeout [] s = ⊥
  UnlocksIn timeout (r ∷ rs) s =
      Unlocks timeout r s
      ⊎ ((t : Source F) × (verify_round v encodings certainty timeout r s ≡ goes t)
          × UnlocksIn timeout rs t)

  -- A turn that ends in success has what `P` says; others have nothing to show.
  abbrev OnSuccess : Type 0 → Turned F → Type 0
  OnSuccess P (goes s) = Unit
  OnSuccess P (raises s) = Unit
  OnSuccess P (ends success s) = P
  OnSuccess P (ends _ s) = Unit

  OnSuccess-mono : (P Q : Type 0) (t : Turned F) → (P → Q) → OnSuccess P t → OnSuccess Q t
  OnSuccess-mono P Q (goes s) f h = tt
  OnSuccess-mono P Q (raises s) f h = tt
  OnSuccess-mono P Q (ends success s) f h = f h
  OnSuccess-mono P Q (ends no_face_model s) f h = tt
  OnSuccess-mono P Q (ends _ s) f h = tt

  and_then-OnSuccess :
      (P Q : Type 0) (t : Turned F) (next : Source F → Turned F)
      → OnSuccess P t
      → ((s : Source F) → OnSuccess Q (next s))
      → OnSuccess (P ⊎ Q) (and_then v encodings certainty t next)
  and_then-OnSuccess P Q (goes s) next h k = OnSuccess-mono Q (P ⊎ Q) (next s) inr (k s)
  and_then-OnSuccess P Q (raises s) next h k = tt
  and_then-OnSuccess P Q (ends x s) next h k = OnSuccess-mono P (P ⊎ Q) (ends x s) inl h

  measured-OnSuccess :
      (frame : F) (l : L) (x : E) (o : Option ℤ) (r : Round F) (s : Source F)
      → v.compute_encoding frame l ≡ some x
      → entry (v.distances encodings x) (v.argmin (v.distances encodings x)) ≡ o
      → OnSuccess
          ((r.vetoes ≡ false) × IsMatch frame l)
          (measured v encodings certainty (v.argmin (v.distances encodings x)) o r s)
  measured-OnSuccess frame l x none r s e i = tt
  measured-OnSuccess frame l x (some d) r s e i = elim (Bool-cases (is_match certainty d)) [
    | inr far ↦ rw far tt
    | inl near ↦ elim (Bool-cases r.vetoes) [
      | inl vetoed ↦ rw (near, vetoed) tt
      | inr allowed ↦
          rw (near, allowed)
            (
              refl,
              record {
                encoding = x;
                encoded = e;
                distance = d;
                measured_at = i;
                near = is_match-InRange certainty d near;
              },
            )
    ]
  ]

  compare-OnSuccess :
      (frame : F) (l : L) (o : Option E) (r : Round F) (s : Source F)
      → v.compute_encoding frame l ≡ o
      → OnSuccess
          ((r.vetoes ≡ false) × IsMatch frame l)
          (compare_encoding v encodings certainty o r s)
  unfolding measure
  compare-OnSuccess frame l none r s e = tt
  compare-OnSuccess frame l (some x) r s e =
      measured-OnSuccess frame l x
        (entry (v.distances encodings x) (v.argmin (v.distances encodings x))) r s e refl

  faces-OnSuccess :
      (frame : F) (ls : List L) (r : Round F) (s : Source F)
      → OnSuccess
          ((r.vetoes ≡ false) × HasMatch frame ls)
          (on_faces v encodings certainty frame ls r s)
  unfolding on_faces
  faces-OnSuccess frame [] r s = tt
  faces-OnSuccess frame (l ∷ ls) r s =
      OnSuccess-mono _ ((r.vetoes ≡ false) × HasMatch frame (l ∷ ls)) _ joined (
        and_then-OnSuccess ((r.vetoes ≡ false) × IsMatch frame l)
          ((r.vetoes ≡ false) × HasMatch frame ls)
          (compare_encoding v encodings certainty (v.compute_encoding frame l) r s)
          (λ t. on_faces v encodings certainty frame ls r t)
          (compare-OnSuccess frame l (v.compute_encoding frame l) r s refl)
          (λ t. faces-OnSuccess frame ls r t))
    where
      joined :
          ((r.vetoes ≡ false) × IsMatch frame l) ⊎ ((r.vetoes ≡ false) × HasMatch frame ls)
          → (r.vetoes ≡ false) × HasMatch frame (l ∷ ls)
      joined (inl (a, m)) = (a, inl m)
      joined (inr (a, m)) = (a, inr m)

  timed_out-OnSuccess :
      (P : Type 0) (stats : Stats) (s : Source F) → OnSuccess P (ends (timed_out_result stats) s)
  unfolding timed_out_result
  timed_out-OnSuccess P stats s = elim (Bool-cases (stats.dark == stats.valid)) [
    | inl dark ↦ rw dark tt
    | inr seen ↦ rw seen tt
  ]

  if-OnSuccess :
      (P : Type 0) (b : Bool) (x y : Turned F)
      → (b ≡ true → OnSuccess P x)
      → (b ≡ false → OnSuccess P y)
      → OnSuccess P (if b then x else y)
  if-OnSuccess P true x y h k = h refl
  if-OnSuccess P false x y h k = k refl

  frame-OnSuccess :
      (timeout : ℕ) (r : Round F) (picture : F) (before : Source F) (s : Source F) (o : Option F)
      → r.frame ≡ some picture
      → (next_frame v picture before).1 ≡ o
      → r.elapsed ≤ timeout
      → r.cancelled ≡ false
      → OnSuccess (Unlocks timeout r before) (on_frame v encodings certainty o r s)
  frame-OnSuccess timeout r picture before s none e g h w = tt
  frame-OnSuccess timeout r picture before s (some seen) e g h w =
      OnSuccess-mono ((r.vetoes ≡ false) × HasMatch seen (v.detect_faces seen))
        (Unlocks timeout r before) _
        (λ m. record {
          in_time = h;
          wanted = w;
          allowed = m.0;
          picture = picture;
          taken = e;
          seen = seen;
          looked_at = g;
          face = m.1;
        })
        (faces-OnSuccess seen (v.detect_faces seen) r s)

  yield-OnSuccess :
      (timeout : ℕ) (r : Round F) (picture : F) (before : Source F) (s : Source F)
      (frame : Option F)
      → r.frame ≡ some picture
      → (next_frame v picture before).1 ≡ frame
      → OnSuccess (Unlocks timeout r before) (on_yield v encodings certainty timeout r s frame)
  unfolding on_yield
  yield-OnSuccess timeout r picture before s frame e f =
      if-OnSuccess _ r.cancelled _ _ (λ stop. tt)
        (λ wanted.
          if-OnSuccess _ (ltb timeout r.elapsed) _ _ (λ late. timed_out-OnSuccess _ s.stats s)
            (λ early. frame-OnSuccess timeout r picture before s frame e f (ground arith) wanted))

  next-OnSuccess :
      (timeout : ℕ) (r : Round F) (picture : F) (before : Source F) (next : Source F × Option F × ℕ)
      → r.frame ≡ some picture
      → next_frame v picture before ≡ next
      → OnSuccess (Unlocks timeout r before) (on_next v encodings certainty timeout r next)
  next-OnSuccess timeout r picture before (s, frame, darkness) e f =
      yield-OnSuccess timeout r picture before (set_elapsed v encodings certainty r.elapsed s) frame
        e (ap (λ (n : Source F × Option F × ℕ). n.1) f)

  camera-OnSuccess :
      (timeout : ℕ) (r : Round F) (o : Option F) (s : Source F)
      → r.frame ≡ o
      → OnSuccess (Unlocks timeout r s) (on_camera v encodings certainty timeout r o s)
  camera-OnSuccess timeout r none s e = tt
  camera-OnSuccess timeout r (some picture) s e =
      next-OnSuccess timeout r picture s (next_frame v picture s) e refl

  after-success :
      (P Q : Type 0) (t : Turned F) (next : Source F → Option (Ended × Source F)) (last : Source F)
      → OnSuccess P t
      → ((s : Source F) → t ≡ goes s → next s ≡ some (returns success, last) → Q)
      → after_round v encodings certainty t next ≡ some (returns success, last)
      → P ⊎ Q
  after-success P Q (goes s) next last h k e = inr (k s refl e)
  after-success P Q (raises s) next last h k e = cc e
  after-success P Q (ends success s) next last h k e = inl h
  after-success P Q (ends no_face_model s) next last h k e = cc e
  after-success P Q (ends _ s) next last h k e = cc e

  loop-Unlocks :
      (timeout : ℕ) (rs : List (Round F)) (s last : Source F)
      → verify_loop v encodings certainty timeout rs s ≡ some (returns success, last)
      → UnlocksIn timeout rs s
  unfolding verify_loop verify_round
  loop-Unlocks timeout [] s last e = cc e
  loop-Unlocks timeout (r ∷ rs) s last e =
      after-success (Unlocks timeout r s)
        ((t : Source F) × (verify_round v encodings certainty timeout r s ≡ goes t)
          × UnlocksIn timeout rs t)
        (verify_round v encodings certainty timeout r s)
        (λ t. verify_loop v encodings certainty timeout rs t) last
        (camera-OnSuccess timeout r r.frame s refl)
        (λ t g f. (t, g, loop-Unlocks timeout rs t last f)) e

  -- `verify` succeeds only by a turn within the timeout, not cancelled and not vetoed by a rubber stamp, that comes
  -- after turns which went on, and in which the frame passed the filters, as those turns left them, and has a
  -- face whose distance to an enrolled encoding, the one at the index that argmin gives for the distances, is
  -- at least 0 and below the limit; and only with an encoding enrolled and the camera open.
  pub verify-Unlocks :
      (timeout : ℕ) (opens : Bool) (rs : List (Round F)) (s last : Source F)
      → verify v encodings certainty timeout opens rs s ≡ some (returns success, last)
      → UnlocksIn timeout rs s × (encodings ≢ []) × (opens ≡ true)
  unfolding verify
  verify-Unlocks timeout opens rs s last e = elim (Bool-cases (is_empty encodings)) [
    | inl blank ↦
        let wrong : some (returns no_face_model, s) ≡ some (returns success, last) =
          rw blank at e in
        cc wrong
    | inr known ↦ elim (Bool-cases opens) [
      | inr broken ↦
          let wrong : some (returns invalid_device, s) ≡ some (returns success, last) =
            rw (known, broken) at e in
          cc wrong
      | inl camera ↦
          let looped : verify_loop v encodings certainty timeout rs s
              ≡ some (returns success, last) =
            rw (known, camera) at e in
          (
            loop-Unlocks timeout rs s last looped,
            (λ (nil : encodings ≡ []). cc (ap is_empty nil, known)),
            camera,
          )
    ]
  ]
