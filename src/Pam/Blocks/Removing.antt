-- ===== src/Pam/Blocks/Removing.antt =====
-- `remove_block` against `insert_block` of linux-hello/src/integration/pam.py.
use mathlib.Core.List.{append_assoc}
use linux_hello.Prelude.{
  ◌≡◌, ◌≢◌, refl, sym, ap, subst, ◌∙◌, inl, inr, true, false, List, [], ◌∷◌, ◌++◌, arith,
  Option-cases, All, All-append, length, map,
}
use linux_hello.Prelude.Bytes.{same_bytes}
use linux_hello.Pam.Text.{Text, splitlines, concat, strip, elem}
use linux_hello.Pam.Text.Splitting.{IsLine, IsClosed, concat-splitlines, splitlines-IsLine}
use linux_hello.Pam.Blocks.Gates.{
  IsBlockLine, IsCopy, IsOurLine, copies-IsBlockLine, our_line-IsBlockLine,
}
use linux_hello.Pam.Blocks.{
  newline, begin_mark, end_mark, ok, pam_error, has_block, before_auth, joined, block_lines,
  insert_block, outside, inside, remove_block,
}
use linux_hello.Pam.Blocks.Marks.{IsAbsent, absent-outside, absent-unmarked}
use linux_hello.Pam.Blocks.Placing.{
  close_last-same, splitlines-LastClosed, Splits, before_auth-Splits, All-front, All-back,
  splitlines-lines, length-Splits, block-nonempty, whole-placed,
}

-- A line that begins no block.
abbrev pub IsOutside : List Text → Text → Type 0
IsOutside begins l = elem (strip l) begins ≡ false

outside-append :
    (begins ls rest : List Text)
    → All (IsOutside begins) ls
    → outside begins (ls ++ rest) ≡ ls ++ outside begins rest
unfolding outside
outside-append begins [] rest h = refl
outside-append begins (l ∷ ls) rest h = rw (h.0, outside-append begins ls rest h.1) refl

pub outside-same : (begins ls : List Text) → All (IsOutside begins) ls → outside begins ls ≡ ls
unfolding outside
outside-same begins [] h = refl
outside-same begins (l ∷ ls) h = rw (h.0, outside-same begins ls h.1) refl

abbrev IsInside : Text → Type 0
IsInside l = same_bytes (strip l) end_mark ≡ false

inside-append :
    (begins block ls rest : List Text)
    → All IsInside ls
    → inside begins block (ls ++ (end_mark ++ newline) ∷ rest) ≡ outside begins rest
unfolding inside strip same_bytes
inside-append begins block [] rest h = refl
inside-append begins block (l ∷ ls) rest h =
    rw h.0 (inside-append begins (block ++ l ∷ []) ls rest h.1)

mark_begins :
    (begins : List Text)
    → elem begin_mark begins ≡ true
    → elem (strip (begin_mark ++ newline)) begins ≡ true
unfolding strip
mark_begins begins h = h

gates-IsInside :
    (gates : List Text) → All IsBlockLine gates → All IsInside (map (λ g. g ++ newline) gates)
gates-IsInside [] h = tt
gates-IsInside (g ∷ gs) h = (h.0.inner, gates-IsInside gs h.1)

outside-block :
    (begins gates : List Text) (line : Text) (back : List Text)
    → elem begin_mark begins ≡ true
    → All IsBlockLine gates
    → IsBlockLine line
    → outside begins (block_lines gates line ++ back) ≡ outside begins back
unfolding block_lines outside
outside-block begins gates line back m h k = rw (mark_begins begins m) (
    ap (λ x. inside begins [] x)
      (append_assoc (map (λ g. g ++ newline) gates) ((line ++ newline) ∷ (end_mark ++ newline) ∷ [])
          back
        ∙ sym (
            append_assoc (map (λ g. g ++ newline) gates) ((line ++ newline) ∷ [])
              ((end_mark ++ newline) ∷ back)))
    ∙ inside-append begins [] (map (λ g. g ++ newline) gates ++ (line ++ newline) ∷ []) back (
        All-append IsInside (map (λ g. g ++ newline) gates) ((line ++ newline) ∷ [])
          (gates-IsInside gates h) (k.inner, tt)))

-- Taking out the block that was put between whole lines.
placed-removed :
    (begins gates : List Text) (line : Text) (ls r : List Text)
    → elem begin_mark begins ≡ true
    → All IsBlockLine gates
    → IsBlockLine line
    → All IsLine ls
    → All (IsOutside begins) ls
    → Splits (block_lines gates line) ls r
    → outside begins (splitlines (concat r)) ≡ ls
placed-removed begins gates line ls r m h k w o s =
    let block = block_lines gates line in
    let whole : All IsLine (s.front ++ s.back) = subst (All IsLine) s.whole w in
    let free : All (IsOutside begins) (s.front ++ s.back) =
      subst (All (IsOutside begins)) s.whole o in
    let lines : All IsLine (s.front ++ (block ++ s.back)) =
      subst (All IsLine) s.placed (whole-placed gates line ls r h k w s) in
    rw s.placed (
      ap (λ x. outside begins x) (splitlines-lines (s.front ++ (block ++ s.back)) lines)
      ∙ outside-append begins s.front (block ++ s.back)
          (All-front (IsOutside begins) s.front s.back free)
      ∙ ap (λ (x : List Text). s.front ++ x)
          (outside-block begins gates line s.back m h k
            ∙ outside-same begins s.back (All-back (IsOutside begins) s.front s.back free))
      ∙ sym s.whole)

-- A block of `insert_block`, whose gates are copies that `gate_line` makes and whose line is one of our two,
-- put into a text that ends with a newline (or is empty) and holds none of the marks `begins`, which are not empty
-- and among which is ours, is taken out by `remove_block`: what is left is the text, character for character.
pub remove_block-insert_block :
    (begins gates : List Text) (line text t' : Text)
    → IsClosed text
    → elem begin_mark begins ≡ true
    → All (IsAbsent text) begins
    → All IsCopy gates
    → IsOurLine line
    → insert_block text gates line ≡ ok t'
    → remove_block t' begins ≡ text
unfolding insert_block remove_block
remove_block-insert_block begins gates line text t' c m absent h k e =
    let o = absent-outside text begins absent in
    let n = absent-unmarked text begin_mark begins absent m in
    let closed = close_last-same (splitlines text) (splitlines-LastClosed text c) in
    let placed : joined (before_auth (block_lines gates line) (splitlines text)) ≡ ok t' =
      rw (n, closed) at e in
    elim (Option-cases (before_auth (block_lines gates line) (splitlines text))) [
      | inl gone ↦ let wrong : pam_error ≡ ok t' = rw gone at placed in cc wrong
      | inr (r, found) ↦
          let there : ok (concat r) ≡ ok t' = rw found at placed in
          let same : concat r ≡ t' = cc there in
          rw (← same) (
            ap concat (
              placed-removed begins gates line (splitlines text) r m (copies-IsBlockLine gates h)
                (our_line-IsBlockLine line k) (splitlines-IsLine text c) o
                (before_auth-Splits (block_lines gates line) (splitlines text) r found))
            ∙ concat-splitlines text)
    ]

-- The text with a block is another one.
pub insert_block-differs :
    (gates : List Text) (line text t' : Text)
    → IsClosed text
    → has_block text begin_mark ≡ false
    → All IsCopy gates
    → IsOurLine line
    → insert_block text gates line ≡ ok t'
    → t' ≢ text
unfolding insert_block
insert_block-differs gates line text t' c n h k e same =
    let closed = close_last-same (splitlines text) (splitlines-LastClosed text c) in
    let placed : joined (before_auth (block_lines gates line) (splitlines text)) ≡ ok t' =
      rw (n, closed) at e in
    elim (Option-cases (before_auth (block_lines gates line) (splitlines text))) [
      | inl gone ↦ let wrong : pam_error ≡ ok t' = rw gone at placed in cc wrong
      | inr (r, found) ↦
          let there : ok (concat r) ≡ ok t' = rw found at placed in
          let whole : concat r ≡ text = cc (there, same) in
          let s = before_auth-Splits (block_lines gates line) (splitlines text) r found in
          let lines =
            whole-placed gates line (splitlines text) r (copies-IsBlockLine gates h)
              (our_line-IsBlockLine line k) (splitlines-IsLine text c) s in
          let equal : r ≡ splitlines text = sym (splitlines-lines r lines) ∙ ap splitlines whole in
          let size = length-Splits (block_lines gates line) (splitlines text) r s in
          let some_lines = block-nonempty gates line in
          let sizes : length r ≡ length (splitlines text) = ap length equal in omega arith
    ]
