-- ===== src/Prelude/Store.antt =====
-- A map from texts (lists of code points) to values, as an association list: a `dict`, or a directory tree.
use mathlib.Core.Path.{◌≡◌, refl, sym, ◌∙◌}
use mathlib.Core.Logic.{◌≢◌, inl, inr}
use mathlib.Core.List.{List, [], ◌∷◌}
use mathlib.Core.Option.{Option, none, some}
use mathlib.Core.Bool.{false}
use linux_hello.Prelude.Tests.{if◌then◌else◌, Bool-cases}
use linux_hello.Prelude.Bytes.{
  Bytes, same_bytes, same_bytes_sound, same_bytes_refl, same_bytes_differ,
}

abbrev pub Store {ℓ} : Type ℓ → Type ℓ
Store V = List (Bytes × V)

module _ {ℓ} {V : Type ℓ} where
  unfoldable pub lookup : Bytes → Store V → Option V
  unfolding same_bytes
  lookup k [] = none
  lookup k ((j, v) ∷ m) = if same_bytes j k then some v else lookup k m

  unfoldable pub store : Bytes → V → Store V → Store V
  unfolding same_bytes
  store k v [] = (k, v) ∷ []
  store k v ((j, w) ∷ m) = if same_bytes j k then (k, v) ∷ m else (j, w) ∷ store k v m

  unfoldable pub erase : Bytes → Store V → Store V
  unfolding same_bytes
  erase k [] = []
  erase k ((j, w) ∷ m) = let rest = erase k m in if same_bytes j k then rest else (j, w) ∷ rest

  pub lookup-store_self : (k : Bytes) (v : V) (m : Store V) → lookup k (store k v m) ≡ some v
  unfolding lookup store
  lookup-store_self k v [] = rw (same_bytes_refl k) refl
  lookup-store_self k v ((j, w) ∷ m) = elim (Bool-cases (same_bytes j k)) [
    | inl same ↦ rw (same, same_bytes_refl k) refl
    | inr other ↦ rw (other, other) (lookup-store_self k v m)
  ]

  pub lookup-store_other :
      (k j : Bytes) (v : V) (m : Store V) → k ≢ j → lookup j (store k v m) ≡ lookup j m
  unfolding lookup store
  lookup-store_other k j v [] n = rw (same_bytes_differ k j n) refl
  lookup-store_other k j v ((i, w) ∷ m) n = elim (Bool-cases (same_bytes i k)) [
    | inl same ↦
        let apart : same_bytes i j ≡ false =
          same_bytes_differ i j (λ e. n (sym (same_bytes_sound i k same) ∙ e)) in
        rw (same, same_bytes_differ k j n, apart) refl
    | inr other ↦ elim (Bool-cases (same_bytes i j)) [
      | inl here ↦ rw (other, here) refl
      | inr there ↦ rw (other, there) (lookup-store_other k j v m n)
    ]
  ]

  pub lookup-erase_self : (k : Bytes) (m : Store V) → lookup k (erase k m) ≡ none
  unfolding lookup erase
  lookup-erase_self k [] = refl
  lookup-erase_self k ((j, w) ∷ m) = elim (Bool-cases (same_bytes j k)) [
    | inl same ↦ rw same (lookup-erase_self k m)
    | inr other ↦ rw (other, other) (lookup-erase_self k m)
  ]

  pub lookup-erase_other : (k j : Bytes) (m : Store V) → k ≢ j → lookup j (erase k m) ≡ lookup j m
  unfolding lookup erase
  lookup-erase_other k j [] n = refl
  lookup-erase_other k j ((i, w) ∷ m) n = elim (Bool-cases (same_bytes i k)) [
    | inl same ↦
        let apart : same_bytes i j ≡ false =
          same_bytes_differ i j (λ e. n (sym (same_bytes_sound i k same) ∙ e)) in
        rw (same, apart) (lookup-erase_other k j m n)
    | inr other ↦ elim (Bool-cases (same_bytes i j)) [
      | inl here ↦ rw (other, here) refl
      | inr there ↦ rw (other, there) (lookup-erase_other k j m n)
    ]
  ]
