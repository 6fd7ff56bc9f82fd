-- ===== src/Pam/Blocks/Gates.antt =====
-- The copies of check lines that `gate_line` of linux-hello/src/integration/pam.py makes, as lines of a block.
use linux_hello.Models.{codes}
use linux_hello.Prelude.{
  ℕ, ◌≡◌, refl, sym, ◌⊎◌, subst, Bool, true, false, none, some, List, [], ◌∷◌, ◌++◌, arith,
  if◌then◌else◌, Bool-cases, All, All-append, inl, inr,
}
use linux_hello.Prelude.Bytes.{same_bytes}
use linux_hello.Pam.Text.{
  Text, is_break, is_space, lstrip, rstrip, strip, split, push_char, begins_space,
}
use linux_hello.Pam.Text.Splitting.{IsLine, is_line, is_line_sound}
use linux_hello.Pam.Lines.{gate_of, is_copied, gate_line, join_words}
use linux_hello.Pam.Blocks.{newline, end_mark, insert_line, login_insert_line}

-- A line inside a block: it is one line, and not the end mark.
pub record IsBlockLine (l : Text) : Type 0 where
  pub whole : IsLine (l ++ newline)
  pub inner : same_bytes (strip (l ++ newline)) end_mark ≡ false

abbrev NoSpace : Text → Type 0
NoSpace = All (λ c. is_space c ≡ false)

abbrev NoBreak : Text → Type 0
NoBreak = All (λ c. is_break c ≡ false)

is_break-space : (c : ℕ) → is_space c ≡ false → is_break c ≡ false
unfolding is_break is_space
is_break-space c h = ground arith

NoSpace-NoBreak : (t : Text) → NoSpace t → NoBreak t
NoSpace-NoBreak [] h = tt
NoSpace-NoBreak (c ∷ cs) h = (is_break-space c h.0, NoSpace-NoBreak cs h.1)

push_char-NoSpace :
    (c : ℕ) (b : Bool) (ws : List Text)
    → is_space c ≡ false
    → All NoSpace ws
    → All NoSpace (push_char c b ws)
push_char-NoSpace c true ws n h = ((n, tt), h)
push_char-NoSpace c false [] n h = ((n, tt), tt)
push_char-NoSpace c false (w ∷ ws) n h = ((n, h.0), h.1)

split-NoSpace : (t : Text) → All NoSpace (split t)
unfolding split
split-NoSpace [] = tt
split-NoSpace (c ∷ cs) = elim (Bool-cases (is_space c)) [
  | inl space ↦ rw space (split-NoSpace cs)
  | inr word ↦ rw word (push_char-NoSpace c (begins_space cs) (split cs) word (split-NoSpace cs))
]

join_words-NoBreak : (ws : List Text) → All NoSpace ws → NoBreak (join_words ws)
unfolding join_words is_break
join_words-NoBreak [] h = tt
join_words-NoBreak (w ∷ []) h = NoSpace-NoBreak w h.0
join_words-NoBreak (w ∷ x ∷ ws) h =
    All-append _ (w ++ codes " ") (join_words (x ∷ ws))
      (All-append _ w (codes " ") (NoSpace-NoBreak w h.0) (refl, tt))
      (join_words-NoBreak (x ∷ ws) h.1)

NoBreak-IsLine : (t : Text) → NoBreak t → IsLine (t ++ newline)
unfolding is_break
NoBreak-IsLine [] h = refl
NoBreak-IsLine (c ∷ []) h = (h.0, refl)
NoBreak-IsLine (c ∷ d ∷ cs) h = (h.0, NoBreak-IsLine (d ∷ cs) h.1)

-- A line whose first character is a dash is not the end mark.
dash-inner : (t : Text) → same_bytes (strip (45 ∷ t)) end_mark ≡ false
unfolding strip lstrip rstrip is_space same_bytes
dash-inner t = refl

abbrev copy : Text → Text → Text
copy control rest = codes "-auth\t" ++ control ++ codes "\t" ++ rest

copy-IsBlockLine :
    (control rest : Text) → NoBreak control → NoBreak rest → IsBlockLine (copy control rest)
unfolding is_break
copy-IsBlockLine control rest n h = record {
  whole = NoBreak-IsLine (copy control rest) (
    refl,
    (
      refl,
      (
        refl,
        (
          refl,
          (
            refl,
            (
              refl,
              All-append _ (control ++ codes "\t") rest
                  (All-append _ control (codes "\t") n (refl, tt)) h,
            ),
          ),
        ),
      ),
    ),
  );
  inner = dash-inner (codes "auth\t" ++ control ++ codes "\t" ++ rest ++ newline);
}

gate_of-IsBlockLine :
    (ws : List Text) (g : Text) → All NoSpace ws → gate_of ws ≡ some g → IsBlockLine g
unfolding gate_of
gate_of-IsBlockLine [] g h e = absurd (cc e)
gate_of-IsBlockLine (k ∷ []) g h e = absurd (cc e)
gate_of-IsBlockLine (k ∷ w ∷ []) g h e = absurd (cc e)
gate_of-IsBlockLine (kind ∷ control ∷ m ∷ args) g h e = made (is_copied kind control m args) e
  where
    made :
        (b : Bool)
        → (if b then some (copy control (join_words (m ∷ args))) else none) ≡ some g
        → IsBlockLine g
    made true s =
        let same : copy control (join_words (m ∷ args)) ≡ g = cc s in
        subst IsBlockLine same (
          copy-IsBlockLine control (join_words (m ∷ args)) (NoSpace-NoBreak control h.1.0)
            (join_words-NoBreak (m ∷ args) h.1.1))
    made false s = absurd (cc s)

pub gate_line-IsBlockLine : (line g : Text) → gate_line line ≡ some g → IsBlockLine g
unfolding gate_line
gate_line-IsBlockLine line g e = gate_of-IsBlockLine (split line) g (split-NoSpace line) e

pub insert_line-IsBlockLine : IsBlockLine insert_line
unfolding is_line is_break strip same_bytes
insert_line-IsBlockLine = record {
  whole = is_line_sound (insert_line ++ newline) refl;
  inner = refl;
}

pub login_insert_line-IsBlockLine : IsBlockLine login_insert_line
unfolding is_line is_break strip same_bytes
login_insert_line-IsBlockLine = record {
  whole = is_line_sound (login_insert_line ++ newline) refl;
  inner = refl;
}

-- A copy of some check line.
abbrev pub IsCopy : Text → Type 0
IsCopy g = (line : Text) × (gate_line line ≡ some g)

pub copies-IsBlockLine : (gates : List Text) → All IsCopy gates → All IsBlockLine gates
copies-IsBlockLine [] h = tt
copies-IsBlockLine (g ∷ gs) h = (gate_line-IsBlockLine h.0.0 g h.0.1, copies-IsBlockLine gs h.1)

-- One of the two lines that start our module.
abbrev pub IsOurLine : Text → Type 0
IsOurLine line = (line ≡ insert_line) ⊎ (line ≡ login_insert_line)

pub our_line-IsBlockLine : (line : Text) → IsOurLine line → IsBlockLine line
our_line-IsBlockLine line (inl e) = subst IsBlockLine (sym e) insert_line-IsBlockLine
our_line-IsBlockLine line (inr e) = subst IsBlockLine (sym e) login_insert_line-IsBlockLine
