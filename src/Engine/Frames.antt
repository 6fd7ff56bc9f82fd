-- ===== src/Engine/Frames.antt =====
-- The frames that the engine looks at (`_frames` of linux-hello/src/engine.py): one turn of the
-- generator. Pictures, detection and recognition are those of OpenCV and of a backend, taken as a
-- record of functions. `none` from the camera is CameraError.
pub mod Counting
use linux_hello.Prelude.{
  ℕ, ◌+◌, ◌%◌, ◌≡◌, ◌<◌, Bool, true, false, Option, none, some, List, [], ◌∷◌, ◌++◌, leb, ltb, ◌==◌,
  if◌then◌else◌, length,
}
use linux_hello.Prelude.Int.{ℤ}
use linux_hello.Engine.Filter.{DarkFilter, accept, AmbientPairing, lit}

pub data Turn : Type 0 where
  upright clockwise counterclockwise : Turn

-- `F` frames, `L` locations of faces, `E` encodings. `prepare` is the contrast step, `level` the
-- brightness, `darkness` the share of the darkest bucket, `look` scales and turns; `argmin` gives the
-- index of a least number (both laws are of the libraries), `round3` is round(a / b, 3) in thousandths.
pub record Vision (F L E : Type 0) : Type 0 where
  pub subtract : F → F → F
  pub level : F → ℕ
  pub prepare : F → F
  pub darkness : F → ℕ
  pub look : Turn → F → F
  pub detect_faces : F → List L
  pub compute_encoding : F → L → Option E
  pub distances : List E → E → List ℤ
  pub argmin : List ℤ → ℕ
  pub distance_each : (es : List E) (e : E) → length (distances es e) ≡ length es
  pub argmin_below : (d : ℤ) (ds : List ℤ) → argmin (d ∷ ds) < length (d ∷ ds)
  pub width : F → ℕ
  pub left : L → ℤ
  pub right : L → ℤ
  pub round3 : ℤ → ℕ → ℤ

pub record Stats : Type 0 where
  pub frames : ℕ
  pub black : ℕ
  pub dark : ℕ
  pub valid : ℕ
  pub darkness_total : ℕ
  pub best : Option ℤ
  pub elapsed : ℕ
  pub model_index : Option ℕ

abbrev pub new_stats : Stats
new_stats = record {
  frames = 0;
  black = 0;
  dark = 0;
  valid = 0;
  darkness_total = 0;
  best = none;
  elapsed = 0;
  model_index = none;
}

-- What the generator and the loop around it keep. `kept` is `keep`, none where it is None.
pub record Source (F : Type 0) : Type 0 where
  pub rotate : ℕ
  pub dark_filter : DarkFilter
  pub pairing : AmbientPairing F
  pub kept : Option (List F)
  pub stats : Stats

-- Portrait checks alternate the orientation per frame.
unfoldable pub turn_of : ℕ → ℕ → Turn
turn_of rotate frames =
    if rotate == 1
    then (if frames % 3 == 1
        then counterclockwise
        else if frames % 3 == 2
        then clockwise
        else upright)
    else if rotate == 2
    then (if frames % 2 == 0 then counterclockwise else clockwise)
    else upright

-- stats.frames += 1, before the camera is read.
unfoldable pub count_frame : {F : Type 0} → Source F → Source F
count_frame s = record s { stats = record (s.stats) { frames = s.stats.frames + 1 } }

module _ {F L E : Type 0} (v : Vision F L E) where
  -- keep is not None and len(keep) < 3
  abbrev pub keep_frame : F → Option (List F) → Option (List F)
  keep_frame frame none = none
  keep_frame frame (some kept) =
      if ltb (length kept) 3 then some (kept ++ frame ∷ []) else some kept

  -- A frame that passed the dark filter, or did not.
  abbrev pub accepted : F → ℕ → DarkFilter × Bool → Source F → Source F × Option F × ℕ
  accepted frame darkness (f, false) s = (
    record s { dark_filter = f; stats = record (s.stats) { dark = s.stats.dark + 1 } },
    none,
    darkness,
  )
  accepted frame darkness (f, true) s = (
    record s { dark_filter = f },
    some (v.look (turn_of s.rotate s.stats.frames) frame),
    darkness,
  )

  unfoldable pub lit_frame : F → Source F → Source F × Option F × ℕ
  lit_frame frame s =
      let seen = v.prepare frame in
      let darkness = v.darkness seen in
      let kept = record s { kept = keep_frame frame s.kept } in
      if leb 100_000 darkness
      then (record kept { stats = record (s.stats) { black = s.stats.black + 1 } }, none, darkness)
      else accepted seen darkness (accept darkness s.dark_filter) (record kept {
        stats = record (s.stats) {
          valid = s.stats.valid + 1;
          darkness_total = s.stats.darkness_total + darkness;
        };
      })

  abbrev pub paired : AmbientPairing F × Option F → Source F → Source F × Option F × ℕ
  paired (p, none) s = (
    record s { pairing = p; stats = record (s.stats) { black = s.stats.black + 1 } },
    none,
    100_000,
  )
  paired (p, some frame) s = lit_frame frame (record s { pairing = p })

  -- What is yielded for a frame of the camera: a picture to look at or none, and its darkness.
  unfoldable pub next_frame : F → Source F → Source F × Option F × ℕ
  next_frame frame s = paired (lit v.subtract frame (v.level frame) s.pairing) (count_frame s)
