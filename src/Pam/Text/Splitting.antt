-- ===== src/Pam/Text/Splitting.antt =====
-- `splitlines` and joining the lines again.
use mathlib.Core.List.{append_assoc}
use linux_hello.Prelude.{
  ℕ, ◌≡◌, ◌≢◌, refl, ap, ◌∙◌, inl, inr, Bool, true, false, List, [], ◌∷◌, ◌++◌, if◌then◌else◌,
  Bool-cases, All,
}
use linux_hello.Pam.Text.{Text, is_break, onto_first, splitlines, concat}

-- Characters that end no line, and a last one that does.
abbrev pub IsLine : Text → Type 0
IsLine [] = ⊥
IsLine (c ∷ []) = is_break c ≡ true
IsLine (c ∷ d ∷ cs) = (is_break c ≡ false) × IsLine (d ∷ cs)

-- A test for `IsLine`.
unfoldable pub is_line : Text → Bool
unfolding is_break
is_line [] = false
is_line (c ∷ []) = is_break c
is_line (c ∷ d ∷ cs) = let rest = is_line (d ∷ cs) in if is_break c then false else rest

pub is_line_sound : (l : Text) → is_line l ≡ true → IsLine l
unfolding is_line is_break
is_line_sound [] h = cc h
is_line_sound (c ∷ []) h = h
is_line_sound (c ∷ d ∷ cs) h = elim (Bool-cases (is_break c)) [
  | inl end ↦ let wrong : false ≡ true = rw end at h in absurd (cc wrong)
  | inr inner ↦
      let rest : is_line (d ∷ cs) ≡ true = rw inner at h in (inner, is_line_sound (d ∷ cs) rest)
]

concat-onto_first : (c : ℕ) (ls : List Text) → concat (onto_first c ls) ≡ c ∷ concat ls
unfolding concat
concat-onto_first c [] = refl
concat-onto_first c (l ∷ ls) = refl

-- The lines of a text are the text.
pub concat-splitlines : (t : Text) → concat (splitlines t) ≡ t
unfolding splitlines concat
concat-splitlines [] = refl
concat-splitlines (c ∷ cs) = elim (Bool-cases (is_break c)) [
  | inl end ↦ rw end (ap (λ (x : Text). c ∷ x) (concat-splitlines cs))
  | inr inner ↦
      rw inner
        (concat-onto_first c (splitlines cs) ∙ ap (λ (x : Text). c ∷ x) (concat-splitlines cs))
]

line-splitlines : (l rest : Text) → IsLine l → splitlines (l ++ rest) ≡ l ∷ splitlines rest
unfolding splitlines
line-splitlines [] rest h = absurd h
line-splitlines (c ∷ []) rest h = rw h refl
line-splitlines (c ∷ d ∷ cs) rest h = rw (h.0, line-splitlines (d ∷ cs) rest h.1) refl

-- Whole lines are found again, whatever follows them.
pub splitlines-concat :
    (ls : List Text) (rest : Text)
    → All IsLine ls
    → splitlines (concat ls ++ rest) ≡ ls ++ splitlines rest
unfolding concat
splitlines-concat [] rest h = refl
splitlines-concat (l ∷ ls) rest h =
    ap splitlines (append_assoc l (concat ls) rest)
    ∙ line-splitlines l (concat ls ++ rest) h.0
    ∙ ap (λ (x : List Text). l ∷ x) (splitlines-concat ls rest h.1)

-- A text that ends with a newline, or is empty.
abbrev pub IsClosed : Text → Type 0
IsClosed [] = Unit
IsClosed (c ∷ []) = c ≡ 10
IsClosed (c ∷ d ∷ cs) = IsClosed (d ∷ cs)

onto_first-IsLine :
    (c : ℕ) (ls : List Text)
    → is_break c ≡ false
    → ls ≢ []
    → All IsLine ls
    → All IsLine (onto_first c ls)
onto_first-IsLine c [] b n h = absurd (n refl)
onto_first-IsLine c ([] ∷ ls) b n h = absurd h.0
onto_first-IsLine c ((d ∷ ds) ∷ ls) b n h = ((b, h.0), h.1)

pub splitlines-ne-nil : (c : ℕ) (cs : Text) → splitlines (c ∷ cs) ≢ []
unfolding splitlines
splitlines-ne-nil c cs e = elim (Bool-cases (is_break c)) [
  | inl end ↦ let wrong : (c ∷ []) ∷ splitlines cs ≡ [] = rw end at e in cc wrong
  | inr inner ↦
      let wrong : onto_first c (splitlines cs) ≡ [] = rw inner at e in
      onto_first-ne-nil (splitlines cs) wrong
]
  where
    onto_first-ne-nil : (ls : List Text) → onto_first c ls ≢ []
    onto_first-ne-nil [] w = cc w
    onto_first-ne-nil (l ∷ ls) w = cc w

pub splitlines-IsLine : (t : Text) → IsClosed t → All IsLine (splitlines t)
unfolding splitlines is_break
splitlines-IsLine [] h = tt
splitlines-IsLine (c ∷ []) h = rw h (refl, tt)
splitlines-IsLine (c ∷ d ∷ cs) h =
    let rest = splitlines-IsLine (d ∷ cs) h in
    elim (Bool-cases (is_break c)) [
      | inl end ↦ rw end (end, rest)
      | inr inner ↦
          rw inner (onto_first-IsLine c (splitlines (d ∷ cs)) inner (splitlines-ne-nil d cs) rest)
    ]
