-- ===== src/Prelude/Lists.antt =====
-- Lists measured and cut by native numbers, and dictionaries with number keys.
use Prim.Native.Nat.{ℕ, zero, suc, ◌+◌, ◌-◌, ◌≤◌, min}
use mathlib.Core.Logic.{◌⊎◌, inl, inr}
use mathlib.Core.Path.{◌≡◌, refl, ap, subst}
use mathlib.Core.List.{List, [], ◌∷◌, ◌++◌}
use mathlib.Core.Option.{Option, none, some}
use native.Mathlib.Omega.{arith}
use linux_hello.Prelude.Tests.{◌==◌, if◌then◌else◌, Bool-cases, ==_iff}

module _ {ℓ} {A : Type ℓ} where
  abbrev pub length : List A → ℕ
  length [] = 0
  length (x ∷ xs) = suc (length xs)

  abbrev pub take : ℕ → List A → List A
  take zero xs = []
  take (suc n) [] = []
  take (suc n) (x ∷ xs) = x ∷ take n xs

  abbrev pub drop : ℕ → List A → List A
  drop zero xs = xs
  drop (suc n) [] = []
  drop (suc n) (x ∷ xs) = drop n xs

  abbrev pub replicate : ℕ → A → List A
  replicate zero a = []
  replicate (suc n) a = a ∷ replicate n a

  abbrev pub get_or : List A → ℕ → A → A
  get_or [] i d = d
  get_or (x ∷ xs) zero d = x
  get_or (x ∷ xs) (suc i) d = get_or xs i d

  -- `P` of every entry.
  abbrev pub All {κ} : (A → Type κ) → List A → Type κ
  All P [] = Unit
  All P (x ∷ xs) = P x × All P xs

  -- `P` of some entry.
  abbrev pub Any : (A → Type 0) → List A → Type 0
  Any P [] = ⊥
  Any P (x ∷ xs) = P x ⊎ Any P xs

  -- The second list is of the entries of the first with `P`, each as often, in their order.
  pub data Selected {κ} (P : A → Type κ) : List A → List A → Type (ℓ ⊔ κ) where
    ends : Selected P [] []
    keeps : {x : A} {xs ys : List A} → P x → Selected P xs ys → Selected P (x ∷ xs) (x ∷ ys)
    skips : {x : A} {xs ys : List A} → ¬ P x → Selected P xs ys → Selected P (x ∷ xs) ys

module _ {ℓ} {A : Type ℓ} where
  pub length-append : (xs ys : List A) → length (xs ++ ys) ≡ length xs + length ys
  length-append [] ys = omega arith
  length-append (x ∷ xs) ys = omega (arith, length-append xs ys)

  pub length-take : (n : ℕ) (xs : List A) → length (take n xs) ≡ min n (length xs)
  length-take zero xs = omega arith
  length-take (suc n) [] = omega arith
  length-take (suc n) (x ∷ xs) = omega (arith, length-take n xs)

  pub length-drop : (n : ℕ) (xs : List A) → length (drop n xs) ≡ length xs - n
  length-drop zero xs = omega arith
  length-drop (suc n) [] = omega arith
  length-drop (suc n) (x ∷ xs) = omega (arith, length-drop n xs)

  pub length-replicate : (n : ℕ) (a : A) → length (replicate n a) ≡ n
  length-replicate zero a = refl
  length-replicate (suc n) a = ap suc (length-replicate n a)

  -- What a prefix leaves out is what comes next.
  pub take-append-take :
      (m n k : ℕ) (xs : List A) → m + n ≡ k → take m xs ++ take n (drop m xs) ≡ take k xs
  take-append-take zero n k xs e = let e' : n ≡ k = omega arith in ap (λ i. take i xs) e'
  take-append-take (suc m) zero zero [] e = refl
  take-append-take (suc m) (suc n) zero [] e = refl
  take-append-take (suc m) zero (suc k) [] e = refl
  take-append-take (suc m) (suc n) (suc k) [] e = refl
  take-append-take (suc m) n zero (x ∷ xs) e = absurd (omega arith)
  take-append-take (suc m) n (suc k) (x ∷ xs) e =
      ap (λ (l : List A). x ∷ l) (take-append-take m n k xs (omega arith))

  pub take-all : (n : ℕ) (xs : List A) → length xs ≤ n → take n xs ≡ xs
  take-all zero [] h = refl
  take-all zero (x ∷ xs) h = absurd (omega arith)
  take-all (suc n) [] h = refl
  take-all (suc n) (x ∷ xs) h = ap (λ (l : List A). x ∷ l) (take-all n xs (omega arith))

  -- Cutting off the padding.
  pub take-append : (n : ℕ) (xs ys : List A) → length xs ≡ n → take n (xs ++ ys) ≡ xs
  take-append zero [] ys h = refl
  take-append (suc n) [] ys h = absurd (omega arith)
  take-append zero (x ∷ xs) ys h = absurd (omega arith)
  take-append (suc n) (x ∷ xs) ys h = ap (λ (l : List A). x ∷ l) (take-append n xs ys (omega arith))

  pub take-length-take : (n : ℕ) (xs : List A) → take (length (take n xs)) xs ≡ take n xs
  take-length-take zero xs = refl
  take-length-take (suc n) [] = refl
  take-length-take (suc n) (x ∷ xs) = ap (λ (l : List A). x ∷ l) (take-length-take n xs)

  pub All-append {κ} : (P : A → Type κ) (xs ys : List A) → All P xs → All P ys → All P (xs ++ ys)
  All-append P [] ys h k = k
  All-append P (x ∷ xs) ys h k = (h.0, All-append P xs ys h.1 k)

-- A Python `dict` with number keys, as an association list: `d.get(k)` and `d[k] = v`.
module _ {ℓ} {V : Type ℓ} where
  unfoldable pub find : ℕ → List (ℕ × V) → Option V
  find k [] = none
  find k ((j, v) ∷ m) = if j == k then some v else find k m

  unfoldable pub put : ℕ → V → List (ℕ × V) → List (ℕ × V)
  put k v [] = (k, v) ∷ []
  put k v ((j, w) ∷ m) = if j == k then (k, v) ∷ m else (j, w) ∷ put k v m

  pub find-put :
      (k j : ℕ) (v : V) (m : List (ℕ × V))
      → find j (put k v m) ≡ (if k == j then some v else find j m)
  unfolding find put
  find-put k j v [] = refl
  find-put k j v ((i, w) ∷ m) = ground (arith, find-put k j v m)

  pub find-put_self : (k : ℕ) (v : V) (m : List (ℕ × V)) → find k (put k v m) ≡ some v
  find-put_self k v m = ground (arith, find-put k k v m)

  pub put-put : (k : ℕ) (v w : V) (m : List (ℕ × V)) → put k w (put k v m) ≡ put k w m
  unfolding put
  put-put k v w [] = ground arith
  put-put k v w ((j, u) ∷ m) = ground (arith, put-put k v w m)

  pub All-find {κ} :
      (P : ℕ × V → Type κ) (k : ℕ) (m : List (ℕ × V)) (v : V)
      → All P m
      → find k m ≡ some v
      → P (k, v)
  unfolding find
  All-find P k [] v h e = cc
  All-find P k ((j, w) ∷ m) v h e = elim (Bool-cases (j == k)) [
    | inl same ↦
        let e' : some w ≡ some v = rw same at e in
        subst (λ i. P (i, v)) ((==_iff j k).0 same) (subst (λ (x : V). P (j, x)) (cc e') h.0)
    | inr other ↦ let e' : find k m ≡ some v = rw other at e in All-find P k m v h.1 e'
  ]

  pub All-put {κ} :
      (P : ℕ × V → Type κ) (k : ℕ) (v : V) (m : List (ℕ × V))
      → All P m
      → P (k, v)
      → All P (put k v m)
  unfolding put
  All-put P k v [] h p = (p, tt)
  All-put P k v ((j, w) ∷ m) h p = elim (Bool-cases (j == k)) [
    | inl same ↦ rw same (p, h.1)
    | inr other ↦ rw other (h.0, All-put P k v m h.1 p)
  ]

  pub All-map_of {κ} :
      (P Q : ℕ × V → Type κ) (m : List (ℕ × V)) → ((x : ℕ × V) → P x → Q x) → All P m → All Q m
  All-map_of P Q [] f h = tt
  All-map_of P Q (x ∷ m) f h = (f x h.0, All-map_of P Q m f h.1)
