-- ===== src/Prelude/Dict.antt =====
-- A Python `dict` with text keys, as an association list: `d.get(k)`, `d[k] = v`, `d.pop(k, None)`.
-- Insertion order is not read by the code that uses it.
use mathlib.Core.Path.{◌≡◌, refl}
use mathlib.Core.List.{List, [], ◌∷◌}
use mathlib.Core.Option.{Option, none, some}
use native.Mathlib.Omega.{arith}
use text.Mathlib.Text.{◌==◌}
use text.Mathlib.TextEquality.{eq_iff}
use text.Mathlib.TextPositions.{eq_refl}
use Prim.Native.String.{String}
use linux_hello.Prelude.Tests.{if◌then◌else◌}

abbrev pub Dict {ℓ} : Type ℓ → Type ℓ
Dict V = List (String × V)

module _ {ℓ} {V : Type ℓ} where
  unfoldable pub get : String → Dict V → Option V
  get k [] = none
  get k ((j, v) ∷ m) = if j == k then some v else get k m

  unfoldable pub insert : String → V → Dict V → Dict V
  insert k v [] = (k, v) ∷ []
  insert k v ((j, w) ∷ m) = if j == k then (k, v) ∷ m else (j, w) ∷ insert k v m

  unfoldable pub pop : String → Dict V → Dict V
  pop k [] = []
  pop k ((j, w) ∷ m) = let rest = pop k m in if j == k then rest else (j, w) ∷ rest

  pub get-insert :
      (k j : String) (v : V) (m : Dict V)
      → get j (insert k v m) ≡ (if k == j then some v else get j m)
  unfolding get insert
  get-insert k j v [] = refl
  get-insert k j v ((i, w) ∷ m) =
      ground (arith, eq_iff k j, eq_iff i k, eq_iff i j, get-insert k j v m)

  pub get-pop : (k j : String) (m : Dict V) → get j (pop k m) ≡ (if k == j then none else get j m)
  unfolding get pop
  get-pop k j [] = ground arith
  get-pop k j ((i, w) ∷ m) = ground (arith, get-pop k j m, eq_iff i k, eq_iff i j, eq_iff k j)

  pub get-insert_self : (k : String) (v : V) (m : Dict V) → get k (insert k v m) ≡ some v
  get-insert_self k v m = simp (get-insert, eq_refl)

  pub get-pop_self : (k : String) (m : Dict V) → get k (pop k m) ≡ none
  get-pop_self k m = simp (get-pop, eq_refl)
