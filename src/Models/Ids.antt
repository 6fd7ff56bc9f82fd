-- ===== src/Models/Ids.antt =====
-- The ids and labels of a user's models (linux-hello/src/models.py).
use linux_hello.Prelude.{
  ℕ, zero, suc, ◌≤◌, ◌<◌, ◌+◌, ◌≢◌, sym, inl, inr, List, [], ◌∷◌, ◌++◌, arith, Bool-cases, length,
  ◌==◌, All, All-append, take, length-take,
}
use linux_hello.Models.{
  Model, max_id, next_id, without_id, without_commas, or_text, clean_label, default_label,
}

abbrev pub IsLabel : List ℕ → Type 0
IsLabel l = (l ≢ []) × (length l ≤ 24) × All (λ c. c ≢ b',') l

module _ {F : Type 0} where
  abbrev pub Lacks : ℕ → List (Model F) → Type 0
  Lacks i = All (λ m. m.id ≢ i)

  abbrev pub Distinct : List (Model F) → Type 0
  Distinct [] = Unit
  Distinct (m ∷ ms) = Lacks m.id ms × Distinct ms

  pub record WellFormed (ms : List (Model F)) : Type 0 where
    pub distinct : Distinct ms
    pub labels : All (λ m. IsLabel m.label) ms

  pub Distinct-append :
      (ms : List (Model F)) (m : Model F) → Distinct ms → Lacks m.id ms → Distinct (ms ++ m ∷ [])
  Distinct-append [] m d l = (tt, tt)
  Distinct-append (x ∷ ms) m d l = (
    All-append (λ y. y.id ≢ x.id) ms (m ∷ []) d.0 ((λ e. l.0 (sym e)), tt),
    Distinct-append ms m d.1 l.1,
  )

  max_id-Lacks : (n : ℕ) (ms : List (Model F)) → max_id ms < n → Lacks n ms
  unfolding max_id
  max_id-Lacks n [] h = tt
  max_id-Lacks n (m ∷ ms) h = ((λ e. omega arith), max_id-Lacks n ms (omega arith))

  pub next_id-Lacks : (ms : List (Model F)) → Lacks (next_id ms) ms
  unfolding next_id
  next_id-Lacks [] = tt
  next_id-Lacks (m ∷ ms) = max_id-Lacks (max_id (m ∷ ms) + 1) (m ∷ ms) (omega arith)

  pub All-without_id :
      (P : Model F → Type 0) (i : ℕ) (ms : List (Model F)) → All P ms → All P (without_id i ms)
  unfolding without_id
  All-without_id P i [] h = tt
  All-without_id P i (m ∷ ms) h = elim (Bool-cases (m.id == i)) [
    | inl hit ↦ rw hit (All-without_id P i ms h.1)
    | inr miss ↦ rw miss (h.0, All-without_id P i ms h.1)
  ]

  pub Distinct-without_id : (i : ℕ) (ms : List (Model F)) → Distinct ms → Distinct (without_id i ms)
  unfolding without_id
  Distinct-without_id i [] d = tt
  Distinct-without_id i (m ∷ ms) d = elim (Bool-cases (m.id == i)) [
    | inl hit ↦ rw hit (Distinct-without_id i ms d.1)
    | inr miss ↦ rw miss (All-without_id (λ y. y.id ≢ m.id) i ms d.0, Distinct-without_id i ms d.1)
  ]

length-without_commas : (cs : List ℕ) → All (λ c. c ≢ b',') (without_commas cs)
unfolding without_commas
length-without_commas [] = tt
length-without_commas (c ∷ cs) = elim (Bool-cases (c == b',')) [
  | inl hit ↦ rw hit (length-without_commas cs)
  | inr miss ↦ rw miss ((λ e. ground arith), length-without_commas cs)
]

All-take : (P : ℕ → Type 0) (n : ℕ) (cs : List ℕ) → All P cs → All P (take n cs)
All-take P zero cs h = tt
All-take P (suc n) [] h = tt
All-take P (suc n) (c ∷ cs) h = (h.0, All-take P n cs h.1)

or_text-IsLabel :
    (t d : List ℕ) → length t ≤ 24 → All (λ c. c ≢ b',') t → IsLabel d → IsLabel (or_text t d)
or_text-IsLabel [] d l a h = h
or_text-IsLabel (c ∷ cs) d l a h = ((λ e. cc e), l, a)

pub clean_label-IsLabel : (label d : List ℕ) → IsLabel d → IsLabel (clean_label label d)
unfolding clean_label
clean_label-IsLabel label d h =
    or_text-IsLabel (take 24 (without_commas label)) d
      (omega (arith, length-take 24 (without_commas label)))
      (All-take _ 24 (without_commas label) (length-without_commas label)) h

pub default_label-IsLabel : IsLabel default_label
default_label-IsLabel = ((λ e. cc e), omega arith, omega arith)
