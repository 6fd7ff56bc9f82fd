-- ===== src/Engine/Filter.antt =====
-- Which frames are looked at (classes DarkFilter and AmbientPairing of linux-hello/src/engine.py).
-- Darkness is in thousandths of a percent and brightness in thousandths of a grey level; the
-- comparisons with factors 1.25 and 1.15 are multiplied out. What a float rounds off is left out.
pub mod Dark
pub mod Pairing
use linux_hello.Prelude.{
  ℕ, zero, suc, ◌+◌, ◌*◌, ◌/◌, min, Bool, true, false, not, ◌&&◌, Option, none, some, List, [], ◌∷◌,
  ◌++◌, leb, ltb, if◌then◌else◌, length, drop, get_or,
}

-- `threshold` is none for "auto".
pub record DarkFilter : Type 0 where
  pub threshold : Option ℕ
  pub history : List ℕ

unfoldable pub insert_sorted : ℕ → List ℕ → List ℕ
insert_sorted x [] = x ∷ []
insert_sorted x (y ∷ ys) = let rest = insert_sorted x ys in if leb x y then x ∷ y ∷ ys else y ∷ rest

unfoldable pub sorted : List ℕ → List ℕ
sorted [] = []
sorted (x ∷ xs) = insert_sorted x (sorted xs)

-- sorted(self.history)[len(self.history) // 2]
unfoldable pub baseline : List ℕ → ℕ
baseline history = get_or (sorted history) (length history / 2) 0

-- darkness > min(95.0, baseline * 1.25 + 10)
unfoldable pub is_too_dark : ℕ → List ℕ → Bool
is_too_dark darkness history =
    leb 5 (length history) && ltb (min 380_000 (5 * baseline history + 40_000)) (4 * darkness)

-- Appended, and the oldest of more than 30 dropped.
unfoldable pub remember : ℕ → List ℕ → List ℕ
remember darkness history =
    let grown = history ++ darkness ∷ [] in if ltb 30 (length grown) then drop 1 grown else grown

abbrev pub accept_under : Option ℕ → ℕ → DarkFilter → DarkFilter × Bool
accept_under (some threshold) darkness f = (f, leb darkness threshold)
accept_under none darkness f =
    if is_too_dark darkness f.history
    then (f, false)
    else (record f { history = remember darkness f.history }, true)

unfoldable pub accept : ℕ → DarkFilter → DarkFilter × Bool
accept darkness f = accept_under f.threshold darkness f

-- Give up pairing when no lit frame turns up for this many frames.
abbrev pub patience : ℕ
patience = 10

-- `F` is a frame with its grey picture; the ambient one is kept with its brightness.
pub record AmbientPairing (F : Type 0) : Type 0 where
  pub enabled : Bool
  pub ambient : Option (F × ℕ)
  pub unpaired : ℕ

module _ {F : Type 0} where
  -- Lit frames are clearly brighter than the ambient frame before them.
  abbrev pub is_lit : Option (F × ℕ) → ℕ → Bool
  is_lit none level = false
  is_lit (some (frame, ambient_level)) level = ltb (115 * ambient_level + 200_000) (100 * level)

  abbrev pub subtract_ambient : (F → F → F) → F → Option (F × ℕ) → F
  subtract_ambient subtract frame none = frame
  subtract_ambient subtract frame (some (ambient, level)) = subtract frame ambient

  -- `none` for an ambient frame; `level` is the brightness of the frame.
  unfoldable pub lit : (F → F → F) → F → ℕ → AmbientPairing F → AmbientPairing F × Option F
  lit subtract frame level p =
      if not p.enabled
      then (p, some frame)
      else if is_lit p.ambient level
      then (
        record p { ambient = none; unpaired = 0 },
        some (subtract_ambient subtract frame p.ambient),
      )
      else if ltb patience (p.unpaired + 1)
      then (
        record p { ambient = some (frame, level); unpaired = p.unpaired + 1; enabled = false },
        some frame,
      )
      else (record p { ambient = some (frame, level); unpaired = p.unpaired + 1 }, none)
