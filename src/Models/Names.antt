-- ===== src/Models/Names.antt =====
-- Which user names pass the test of `_path` in linux-hello/src/models.py.
use Prim.Native.String.{String}
use linux_hello.Prelude.{
  Bool-cases, inl, inr, ℕ, ◌≡◌, ◌≢◌, true, List, [], ◌∷◌, arith, ◌==◌, leb, All, length, ◌≤◌,
  if◌then◌else◌,
}
use linux_hello.Models.{
  codes, is_first_char, is_name_char, at_end, name_rest, matches_pattern, is_valid_user,
}

-- A character that cannot end or leave a directory's entry.
abbrev pub IsPlain : ℕ → Type 0
IsPlain c = (c ≢ b'/') × (c ≢ 0)

name_char-IsPlain : (c : ℕ) → is_name_char c ≡ true → IsPlain c
unfolding is_name_char
name_char-IsPlain c h = (λ e. ground (arith, e), λ e. ground (arith, e))

at_end-IsPlain : (cs : List ℕ) → at_end cs ≡ true → All IsPlain cs
unfolding at_end
at_end-IsPlain [] h = tt
at_end-IsPlain (c ∷ []) h = ((λ e. ground (arith, e), λ e. ground (arith, e)), tt)
at_end-IsPlain (c ∷ d ∷ cs) h = absurd (ground arith)

name_rest-IsPlain : (cs : List ℕ) → name_rest cs ≡ true → All IsPlain cs
unfolding name_rest
name_rest-IsPlain [] h = tt
name_rest-IsPlain (c ∷ cs) h = elim (Bool-cases (is_name_char c)) [
  | inl name ↦
      let rest : name_rest cs ≡ true = rw name at h in
      (name_char-IsPlain c name, name_rest-IsPlain cs rest)
  | inr other ↦
      let ends : (if c == b'$' then at_end cs else at_end (c ∷ cs)) ≡ true = rw other at h in
      elim (Bool-cases (c == b'$')) [
        | inl dollar ↦
            let end : at_end cs ≡ true = rw dollar at ends in
            let same : c ≡ b'$' = ground arith in
            ((λ e. omega arith, λ e. omega arith), at_end-IsPlain cs end)
        | inr newline ↦
            let end : at_end (c ∷ cs) ≡ true = rw newline at ends in at_end-IsPlain (c ∷ cs) end
      ]
]

first_char-IsPlain : (c : ℕ) → is_first_char c ≡ true → IsPlain c × (c ≢ b'.')
unfolding is_first_char
first_char-IsPlain c h = ((λ e. ground (arith, e), λ e. ground (arith, e)), λ e. ground (arith, e))

-- An entry of a directory of its own: no slash, no null character, not empty, no dot in front.
abbrev pub IsEntry : List ℕ → Type 0
IsEntry cs = All IsPlain cs × ((ds : List ℕ) → cs ≢ b'.' ∷ ds) × (cs ≢ []) × (length cs ≤ 256)

matches_pattern-IsEntry :
    (cs : List ℕ) → matches_pattern cs ≡ true → leb (length cs) 256 ≡ true → IsEntry cs
unfolding matches_pattern
matches_pattern-IsEntry [] h k = cc h
matches_pattern-IsEntry (c ∷ cs) h k =
    let first : is_first_char c ≡ true = ground arith in
    let rest : name_rest cs ≡ true = ground arith in
    let plain = first_char-IsPlain c first in
    (
      (plain.0, name_rest-IsPlain cs rest),
      λ ds e. let dot : c ≡ b'.' = cc e in plain.1 dot,
      λ e. cc e,
      ground arith,
    )

-- A user name that passes has no slash and no null character, is not empty, does not begin with
-- a dot and is at most 256 characters long: its file is an entry of the models directory.
pub is_valid_user-IsEntry : (user : String) → is_valid_user user ≡ true → IsEntry (codes user)
unfolding is_valid_user
is_valid_user-IsEntry user h = matches_pattern-IsEntry (codes user) (ground arith) (ground arith)
