-- ===== src/Engine/Filter/Pairing.antt =====
-- The frames that `AmbientPairing` of linux-hello/src/engine.py passes on.
use linux_hello.Prelude.{
  ℕ, ◌+◌, ◌≤◌, ◌<◌, ◌≡◌, refl, ◌⊎◌, inl, inr, true, Option, List, [], ◌∷◌, arith, ltb, is_some,
  length, Bool-cases,
}
use linux_hello.Engine.Filter.{AmbientPairing, lit, is_lit, patience}

-- One of them is a frame.
abbrev pub HasFrame : {F : Type 0} → List (Option F) → Type 0
HasFrame [] = ⊥
HasFrame (o ∷ os) = (is_some o ≡ true) ⊎ HasFrame os

module _ {F : Type 0} (subtract : F → F → F) where
  -- What is passed on for frames in turn, each with its brightness.
  unfoldable pub lits : List (F × ℕ) → AmbientPairing F → List (Option F)
  lits [] p = []
  lits ((frame, level) ∷ rest) p = let (q, out) = lit subtract frame level p in out ∷ lits rest q

  -- A frame, or one more that was held back.
  lit-unpaired :
      (frame : F) (level : ℕ) (p : AmbientPairing F)
      → (is_some (lit subtract frame level p).1 ≡ true)
        ⊎ (((lit subtract frame level p).0.unpaired ≡ p.unpaired + 1) × (p.unpaired + 1 ≤ patience))
  unfolding lit
  lit-unpaired frame level p = elim (Bool-cases p.enabled) [
    | inr off ↦ inl (rw off refl)
    | inl on ↦ elim (Bool-cases (is_lit p.ambient level)) [
      | inl bright ↦ inl (rw (on, bright) refl)
      | inr dim ↦ elim (Bool-cases (ltb patience (p.unpaired + 1))) [
        | inl many ↦ inl (rw (on, dim, many) refl)
        | inr few ↦ inr (rw (on, dim, few) (refl, ground arith))
      ]
    ]
  ]

  -- Of eleven frames in a row, fewer by those held back before, at least one is passed on, whether or
  -- not the emitter alternates.
  pub lits-HasFrame :
      (frames : List (F × ℕ)) (p : AmbientPairing F)
      → p.unpaired ≤ patience
      → patience < p.unpaired + length frames
      → HasFrame (lits frames p)
  unfolding lits
  lits-HasFrame [] p h k = absurd (omega (arith, h, k))
  lits-HasFrame ((frame, level) ∷ rest) p h k = elim (lit-unpaired frame level p) [
    | inl out ↦ inl out
    | inr (more, few) ↦ inr (
        lits-HasFrame rest (lit subtract frame level p).0 (omega (arith, more, few))
          (omega (arith, more, k)))
  ]
