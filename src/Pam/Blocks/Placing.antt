-- ===== src/Pam/Blocks/Placing.antt =====
-- Where `insert_block` of linux-hello/src/integration/pam.py puts its block.
use mathlib.Core.Option
use linux_hello.Prelude.{
  ℕ, ◌≡◌, ◌≢◌, refl, sym, ap, subst, ◌∙◌, inl, inr, true, none, some, List, [], ◌∷◌, ◌++◌, arith,
  Bool-cases, Option-cases, All, All-append, length, length-append, ◌+◌, ◌<◌, map,
}
use linux_hello.Prelude.Bytes.{same_bytes}
use linux_hello.Pam.Text.{Text, is_break, onto_first, splitlines, concat, endswith}
use linux_hello.Pam.Text.Splitting.{
  IsLine, is_line, is_line_sound, IsClosed, splitlines-concat, splitlines-ne-nil,
}
use linux_hello.Pam.Lines.{is_auth_line}
use linux_hello.Pam.Blocks.Gates.{IsBlockLine}
use linux_hello.Pam.Blocks.{newline, begin_mark, end_mark, close_last, before_auth, block_lines}

-- The last line ends with a newline.
abbrev pub LastClosed : List Text → Type 0
LastClosed [] = Unit
LastClosed (l ∷ []) = endswith l newline ≡ true
LastClosed (l ∷ m ∷ ls) = LastClosed (m ∷ ls)

pub close_last-same : (ls : List Text) → LastClosed ls → close_last ls ≡ ls
unfolding close_last
close_last-same [] h = refl
close_last-same (l ∷ []) h = rw h refl
close_last-same (l ∷ m ∷ ls) h = ap (λ (x : List Text). l ∷ x) (close_last-same (m ∷ ls) h)

endswith-cons : (c : ℕ) (l : Text) → endswith l newline ≡ true → endswith (c ∷ l) newline ≡ true
unfolding endswith
endswith-cons c l h = elim (Bool-cases (same_bytes (c ∷ l) newline)) [
  | inl same ↦ rw same refl
  | inr other ↦ rw (other, h) refl
]

LastClosed-cons : (l : Text) (ls : List Text) → ls ≢ [] → LastClosed ls → LastClosed (l ∷ ls)
LastClosed-cons l [] n h = absurd (n refl)
LastClosed-cons l (m ∷ ls) n h = h

LastClosed-onto_first :
    (c : ℕ) (ls : List Text) → ls ≢ [] → LastClosed ls → LastClosed (onto_first c ls)
LastClosed-onto_first c [] n h = absurd (n refl)
LastClosed-onto_first c (l ∷ []) n h = endswith-cons c l h
LastClosed-onto_first c (l ∷ m ∷ ls) n h = h

pub splitlines-LastClosed : (t : Text) → IsClosed t → LastClosed (splitlines t)
unfolding splitlines is_break endswith
splitlines-LastClosed [] h = tt
splitlines-LastClosed (c ∷ []) h = rw h refl
splitlines-LastClosed (c ∷ d ∷ cs) h =
    let rest = splitlines-LastClosed (d ∷ cs) h in
    elim (Bool-cases (is_break c)) [
      | inl end ↦
          rw end (LastClosed-cons (c ∷ []) (splitlines (d ∷ cs)) (splitlines-ne-nil d cs) rest)
      | inr inner ↦
          rw inner (LastClosed-onto_first c (splitlines (d ∷ cs)) (splitlines-ne-nil d cs) rest)
    ]

-- The lines before and after the block.
pub record Splits (block ls r : List Text) : Type 0 where
  pub front : List Text
  pub back : List Text
  pub whole : ls ≡ front ++ back
  pub placed : r ≡ front ++ (block ++ back)

pub before_auth-Splits :
    (block ls r : List Text) → before_auth block ls ≡ some r → Splits block ls r
unfolding before_auth
before_auth-Splits block [] r e = cc e
before_auth-Splits block (l ∷ ls) r e = elim (Bool-cases (is_auth_line l)) [
  | inl auth ↦
      let here : some (block ++ l ∷ ls) ≡ some r = rw auth at e in
      record { front = []; back = l ∷ ls; whole = refl; placed = cc here }
  | inr other ↦
      let later : Option.map (λ rest. l ∷ rest) (before_auth block ls) ≡ some r = rw other at e in
      elim (Option-cases (before_auth block ls)) [
        | inl gone ↦ let wrong : none ≡ some r = rw gone at later in cc wrong
        | inr (rest, found) ↦
            let there : some (l ∷ rest) ≡ some r = rw found at later in
            let s = before_auth-Splits block ls rest found in
            let same : l ∷ rest ≡ r = cc there in
            record {
              front = l ∷ s.front;
              back = s.back;
              whole = ap (λ (x : List Text). l ∷ x) s.whole;
              placed = sym same ∙ ap (λ (x : List Text). l ∷ x) s.placed;
            }
      ]
]

begin-whole : IsLine (begin_mark ++ newline)
unfolding is_line is_break
begin-whole = is_line_sound (begin_mark ++ newline) refl

end-whole : IsLine (end_mark ++ newline)
unfolding is_line is_break
end-whole = is_line_sound (end_mark ++ newline) refl

gates-whole :
    (gates : List Text) → All IsBlockLine gates → All IsLine (map (λ g. g ++ newline) gates)
gates-whole [] h = tt
gates-whole (g ∷ gs) h = (h.0.whole, gates-whole gs h.1)

-- The lines of a block are whole lines, and are passed over from its begin to its end.
block-whole :
    (gates : List Text) (line : Text)
    → All IsBlockLine gates
    → IsBlockLine line
    → All IsLine (block_lines gates line)
unfolding block_lines
block-whole gates line h k = (
  begin-whole,
  All-append IsLine (map (λ g. g ++ newline) gates) _ (gates-whole gates h)
      (k.whole, (end-whole, tt)),
)

pub All-front : {A : Type 0} (P : A → Type 0) (xs ys : List A) → All P (xs ++ ys) → All P xs
All-front P [] ys h = tt
All-front P (x ∷ xs) ys h = (h.0, All-front P xs ys h.1)

pub All-back : {A : Type 0} (P : A → Type 0) (xs ys : List A) → All P (xs ++ ys) → All P ys
All-back P [] ys h = h
All-back P (x ∷ xs) ys h = All-back P xs ys h.1

append_nil : {A : Type 0} (xs : List A) → xs ++ [] ≡ xs
append_nil [] = refl
append_nil {A} (x ∷ xs) = ap (λ (l : List A). x ∷ l) (append_nil xs)

pub splitlines-lines : (ls : List Text) → All IsLine ls → splitlines (concat ls) ≡ ls
unfolding splitlines
splitlines-lines ls h =
    ap splitlines (sym (append_nil (concat ls))) ∙ splitlines-concat ls [] h ∙ append_nil ls

pub length-Splits :
    (block ls r : List Text) → Splits block ls r → length r ≡ length ls + length block
length-Splits block ls r s =
    let a = length-append s.front s.back in
    let b = length-append s.front (block ++ s.back) in
    let c = length-append block s.back in rw (s.whole, s.placed) (omega arith)

pub block-nonempty : (gates : List Text) (line : Text) → 0 < length (block_lines gates line)
unfolding block_lines
block-nonempty gates line = omega arith

pub whole-placed :
    (gates : List Text) (line : Text) (ls r : List Text)
    → All IsBlockLine gates
    → IsBlockLine line
    → All IsLine ls
    → Splits (block_lines gates line) ls r
    → All IsLine r
whole-placed gates line ls r h k w s =
    let block = block_lines gates line in
    let whole : All IsLine (s.front ++ s.back) = subst (All IsLine) s.whole w in
    subst (All IsLine) (sym s.placed) (
      All-append IsLine s.front (block ++ s.back) (All-front IsLine s.front s.back whole) (
        All-append IsLine block s.back (block-whole gates line h k)
          (All-back IsLine s.front s.back whole)))
