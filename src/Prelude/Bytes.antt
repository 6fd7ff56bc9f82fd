-- ===== src/Prelude/Bytes.antt =====
-- Byte strings, and whether two are the same.
use Prim.Native.Nat.{ℕ}
use mathlib.Core.Path.{◌≡◌, refl, sym, ap, ◌∙◌}
use mathlib.Core.Logic.{◌≢◌, inl, inr}
use mathlib.Core.List.{List, [], ◌∷◌}
use mathlib.Core.Bool.{Bool, true, false, ◌&&◌}
use native.Mathlib.Omega.{arith}
use linux_hello.Prelude.Tests.{◌==◌, Bool-cases}

abbrev pub Bytes : Type 0
Bytes = List ℕ

unfoldable pub same_bytes : Bytes → Bytes → Bool
same_bytes [] [] = true
same_bytes [] (y ∷ ys) = false
same_bytes (x ∷ xs) [] = false
same_bytes (x ∷ xs) (y ∷ ys) = x == y && same_bytes xs ys

pub same_bytes_sound : (xs ys : Bytes) → same_bytes xs ys ≡ true → xs ≡ ys
unfolding same_bytes
same_bytes_sound [] [] h = refl
same_bytes_sound [] (y ∷ ys) h = cc h
same_bytes_sound (x ∷ xs) [] h = cc h
same_bytes_sound (x ∷ xs) (y ∷ ys) h = elim (Bool-cases (x == y)) [
  | inl same ↦
      let rest : same_bytes xs ys ≡ true = rw same at h in
      let head : x ≡ y = ground arith in cc (same_bytes_sound xs ys rest, head)
  | inr other ↦ let wrong : false ≡ true = rw other at h in cc wrong
]

pub same_bytes_refl : (xs : Bytes) → same_bytes xs xs ≡ true
unfolding same_bytes
same_bytes_refl [] = refl
same_bytes_refl (x ∷ xs) = ground (arith, same_bytes_refl xs)

pub same_bytes_differ : (xs ys : Bytes) → xs ≢ ys → same_bytes xs ys ≡ false
same_bytes_differ xs ys h = elim (Bool-cases (same_bytes xs ys)) [
  | inl same ↦ absurd (h (same_bytes_sound xs ys same))
  | inr other ↦ other
]

pub same_bytes_apart : (xs ys : Bytes) → same_bytes xs ys ≡ false → xs ≢ ys
same_bytes_apart xs ys h e =
    true-ne-false (sym (same_bytes_refl xs) ∙ ap (λ x. same_bytes xs x) e ∙ h)
  where
    true-ne-false : true ≢ false
    true-ne-false w = cc w
