-- ===== src/Pam/Blocks/Marks.antt =====
-- Marks in a text and in its lines (has_block and remove_block of linux-hello/src/integration/pam.py).
use mathlib.Core.List.{append_assoc}
use linux_hello.Prelude.{
  ℕ, ◌≡◌, ◌≢◌, refl, sym, ap, subst, ◌∙◌, inl, inr, Bool, true, false, ◌&&◌, ◌||◌, List, [], ◌∷◌,
  ◌++◌, ==_refl, is_empty, Bool-cases, All,
}
use linux_hello.Prelude.Bytes.{same_bytes, same_bytes_sound}
use linux_hello.Pam.Text.{
  Text, is_space, splitlines, concat, lstrip, rstrip, strip, startswith, contains, elem,
}
use linux_hello.Pam.Text.Splitting.{concat-splitlines}
use linux_hello.Pam.Blocks.{has_block}

or_true : (b : Bool) → b || true ≡ true
or_true true = refl
or_true false = refl

startswith-append : (m b : Text) → startswith (m ++ b) m ≡ true
unfolding startswith
startswith-append [] b = refl
startswith-append (x ∷ xs) b = rw (==_refl x) (startswith-append xs b)

contains-append : (x : ℕ) (xs a b : Text) → contains (x ∷ xs) (a ++ ((x ∷ xs) ++ b)) ≡ true
unfolding contains
contains-append x xs [] b =
    ap (λ s. s || contains (x ∷ xs) (xs ++ b)) (startswith-append (x ∷ xs) b)
contains-append x xs (c ∷ a) b =
    ap (λ s. startswith (c ∷ (a ++ ((x ∷ xs) ++ b))) (x ∷ xs) || s) (contains-append x xs a b)
    ∙ or_true (startswith (c ∷ (a ++ ((x ∷ xs) ++ b))) (x ∷ xs))

-- A part of a text.
record IsPart (m t : Text) : Type 0 where
  before : Text
  behind : Text
  whole : t ≡ before ++ (m ++ behind)

rstrip-IsPart : (t : Text) → IsPart (rstrip t) t
unfolding rstrip
rstrip-IsPart t = record { before = []; behind = (cut t).0; whole = (cut t).1 }
  where
    cut : (t : Text) → (b : Text) × (t ≡ rstrip t ++ b)
    cut [] = ([], refl)
    cut (c ∷ cs) = elim (Bool-cases (is_space c && is_empty (rstrip cs))) [
      | inl blank ↦ (c ∷ cs, rw blank refl)
      | inr word ↦ ((cut cs).0, rw word (ap (λ (x : Text). c ∷ x) (cut cs).1))
    ]

lstrip-cut : (t : Text) → (a : Text) × (t ≡ a ++ lstrip t)
unfolding lstrip
lstrip-cut [] = ([], refl)
lstrip-cut (c ∷ cs) = elim (Bool-cases (is_space c)) [
  | inl space ↦ (c ∷ (lstrip-cut cs).0, rw space (ap (λ (x : Text). c ∷ x) (lstrip-cut cs).1))
  | inr word ↦ ([], rw word refl)
]

strip-IsPart : (t : Text) → IsPart (strip t) t
unfolding strip
strip-IsPart t =
    let r = rstrip-IsPart t in
    let l = lstrip-cut (rstrip t) in
    record {
      before = r.before ++ l.0;
      behind = r.behind;
      whole =
          r.whole
          ∙ ap (λ (x : Text). r.before ++ (x ++ r.behind)) l.1
          ∙ ap (λ (x : Text). r.before ++ x) (append_assoc l.0 (lstrip (rstrip t)) r.behind)
          ∙ sym (append_assoc r.before l.0 (lstrip (rstrip t) ++ r.behind));
    }

-- A part of a part.
IsPart-trans : (m l t : Text) → IsPart m l → IsPart l t → IsPart m t
IsPart-trans m l t p q = record {
  before = q.before ++ p.before;
  behind = p.behind ++ q.behind;
  whole =
      q.whole
      ∙ ap (λ (x : Text). q.before ++ (x ++ q.behind)) p.whole
      ∙ ap (λ (x : Text). q.before ++ x) (append_assoc p.before (m ++ p.behind) q.behind)
      ∙ ap (λ (x : Text). q.before ++ (p.before ++ x)) (append_assoc m p.behind q.behind)
      ∙ sym (append_assoc q.before p.before (m ++ (p.behind ++ q.behind)));
}

lines-IsPart :
    (front : Text) (ls : List Text) (t : Text) → t ≡ front ++ concat ls → All (λ l. IsPart l t) ls
unfolding concat
lines-IsPart front [] t e = tt
lines-IsPart front (l ∷ ls) t e = (
  record { before = front; behind = concat ls; whole = e },
  lines-IsPart (front ++ l) ls t (e ∙ sym (append_assoc front l (concat ls))),
)

part-contained : (m t : Text) → m ≢ [] → IsPart m t → contains m t ≡ true
part-contained [] t n p = absurd (n refl)
part-contained (x ∷ xs) t n p =
    ap (contains (x ∷ xs)) p.whole ∙ contains-append x xs p.before p.behind

-- A mark that a text does not hold.
abbrev pub IsAbsent : Text → Text → Type 0
IsAbsent t m = (m ≢ []) × (has_block t m ≡ false)

line-outside :
    (t l : Text) (begins : List Text)
    → All (IsAbsent t) begins
    → IsPart l t
    → elem (strip l) begins ≡ false
unfolding elem has_block
line-outside t l [] h p = refl
line-outside t l (m ∷ begins) h p = elim (Bool-cases (same_bytes m (strip l))) [
  | inr other ↦ rw other (line-outside t l begins h.1 p)
  | inl same ↦
      let equal : m ≡ strip l = same_bytes_sound m (strip l) same in
      let part : IsPart m t =
        IsPart-trans m l t (subst (λ (x : Text). IsPart x l) (sym equal) (strip-IsPart l)) p in
      let held : contains m t ≡ true = part-contained m t h.0.0 part in
      absurd (true-false (sym held ∙ h.0.1))
]
  where
    true-false : true ≢ false
    true-false w = cc w

lines-outside :
    (t : Text) (begins : List Text) (ls : List Text)
    → All (IsAbsent t) begins
    → All (λ l. IsPart l t) ls
    → All (λ l. elem (strip l) begins ≡ false) ls
lines-outside t begins [] h p = tt
lines-outside t begins (l ∷ ls) h p =
    (line-outside t l begins h p.0, lines-outside t begins ls h p.1)

-- No line of a text is a mark that the text does not hold.
pub absent-outside :
    (t : Text) (begins : List Text)
    → All (IsAbsent t) begins
    → All (λ l. elem (strip l) begins ≡ false) (splitlines t)
absent-outside t begins h =
    lines-outside t begins (splitlines t) h
      (lines-IsPart [] (splitlines t) t (sym (concat-splitlines t)))

pub absent-unmarked :
    (t m : Text) (begins : List Text)
    → All (IsAbsent t) begins
    → elem m begins ≡ true
    → has_block t m ≡ false
unfolding elem
absent-unmarked t m [] h e = absurd (cc e)
absent-unmarked t m (x ∷ begins) h e = elim (Bool-cases (same_bytes x m)) [
  | inl same ↦ subst (λ (y : Text). has_block t y ≡ false) (same_bytes_sound x m same) h.0.1
  | inr other ↦
      let rest : elem m begins ≡ true = rw other at e in absent-unmarked t m begins h.1 rest
]
