-- ===== src/Engine/Frames/Counting.antt =====
-- The counters of `_frames` in linux-hello/src/engine.py.
use linux_hello.Prelude.{
  ℕ, ◌+◌, ◌≤◌, ◌<◌, ◌≡◌, inl, inr, Bool, true, false, Option, none, some, List, [], ◌∷◌, ◌++◌,
  arith, leb, ltb, length, length-append, Bool-cases,
}
use linux_hello.Engine.Filter.{DarkFilter, accept, AmbientPairing, lit}
use linux_hello.Engine.Frames.{
  Vision, Source, keep_frame, accepted, lit_frame, paired, count_frame, next_frame,
}

-- Every frame was black or valid, the dark ones are among the valid, and at most three are kept.
pub record IsCounted {F : Type 0} (s : Source F) : Type 0 where
  pub counted : s.stats.frames ≡ s.stats.black + s.stats.valid
  pub dark_valid : s.stats.dark ≤ s.stats.valid
  pub few : (kept : List F) → s.kept ≡ some kept → length kept ≤ 3

module _ {F L E : Type 0} (v : Vision F L E) where
  keep_frame-few :
      (frame : F) (o : Option (List F))
      → ((kept : List F) → o ≡ some kept → length kept ≤ 3)
      → (kept : List F) → keep_frame v frame o ≡ some kept
      → length kept ≤ 3
  keep_frame-few frame none h kept e = cc e
  keep_frame-few frame (some old) h kept e = elim (Bool-cases (ltb (length old) 3)) [
    | inl room ↦
        let grown : some (old ++ frame ∷ []) ≡ some kept = rw room at e in
        let same : old ++ frame ∷ [] ≡ kept = cc grown in
        rw (← same) (
          omega (
            arith,
            length-append old (frame ∷ []),
            (let few : length old < 3 = ground arith in few),
          ))
    | inr full ↦ let same : some old ≡ some kept = rw full at e in h kept same
  ]

  accepted-IsCounted :
      (frame : F) (darkness : ℕ) (next : DarkFilter × Bool) (s : Source F)
      → s.stats.frames ≡ s.stats.black + s.stats.valid
      → s.stats.dark + 1 ≤ s.stats.valid
      → ((kept : List F) → s.kept ≡ some kept → length kept ≤ 3)
      → IsCounted (accepted v frame darkness next s).0
  accepted-IsCounted frame darkness (f, false) s c d k = record {
    counted = c;
    dark_valid = d;
    few = k;
  }
  accepted-IsCounted frame darkness (f, true) s c d k = record {
    counted = c;
    dark_valid = omega (arith, d);
    few = k;
  }

  lit_frame-IsCounted :
      (frame : F) (s : Source F)
      → s.stats.frames ≡ s.stats.black + s.stats.valid + 1
      → s.stats.dark ≤ s.stats.valid
      → ((kept : List F) → s.kept ≡ some kept → length kept ≤ 3)
      → IsCounted (lit_frame v frame s).0
  unfolding lit_frame
  lit_frame-IsCounted frame s c d k =
      let few = keep_frame-few frame s.kept k in
      let darkness = v.darkness (v.prepare frame) in
      let seen : Source F = record s {
        kept = keep_frame v frame s.kept;
        stats = record (s.stats) {
          valid = s.stats.valid + 1;
          darkness_total = s.stats.darkness_total + darkness;
        };
      } in
      elim (Bool-cases (leb 100_000 (v.darkness (v.prepare frame)))) [
        | inl black ↦ rw black (record { counted = omega (arith, c); dark_valid = d; few = few })
        | inr bright ↦ rw bright (
            accepted-IsCounted (v.prepare frame) darkness (accept darkness s.dark_filter) seen
              (omega (arith, c)) (omega (arith, d)) few)
      ]

  paired-IsCounted :
      (next : AmbientPairing F × Option F) (s : Source F)
      → s.stats.frames ≡ s.stats.black + s.stats.valid + 1
      → s.stats.dark ≤ s.stats.valid
      → ((kept : List F) → s.kept ≡ some kept → length kept ≤ 3)
      → IsCounted (paired v next s).0
  paired-IsCounted (p, none) s c d k = record {
    counted = omega (arith, c);
    dark_valid = d;
    few = k;
  }
  paired-IsCounted (p, some frame) s c d k =
      lit_frame-IsCounted frame (record s { pairing = p }) c d k

  -- After every frame that is read, the frames counted are the black and the valid ones together, the dark
  -- ones are no more than the valid ones, and at most three frames are kept, if this held before.
  pub next_frame-IsCounted :
      (frame : F) (s : Source F) → IsCounted s → IsCounted (next_frame v frame s).0
  unfolding next_frame count_frame
  next_frame-IsCounted frame s i =
      paired-IsCounted (lit v.subtract frame (v.level frame) s.pairing) (count_frame s)
        (omega (arith, i.counted)) i.dark_valid i.few
