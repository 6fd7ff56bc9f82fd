-- ===== src/Pam/Text.antt =====
-- The operations of Python's `str` that linux-hello/src/integration/pam.py uses, on texts as lists of
-- code points. Text files are read with universal newlines, so no text has a carriage return.
pub mod Splitting
use linux_hello.Prelude.{
  ℕ, Bool, true, false, ◌&&◌, ◌||◌, not, Option, none, some, List, [], ◌∷◌, ◌++◌, leb, ◌==◌,
  if◌then◌else◌, is_empty,
}
use linux_hello.Prelude.Bytes.{same_bytes}

abbrev pub Text : Type 0
Text = List ℕ

-- What ends a line for `splitlines`.
unfoldable pub is_break : ℕ → Bool
is_break c = leb 10 c && leb c 13 || leb 28 c && leb c 30 || c == 0x85 || c == 0x2028 || c == 0x2029

unfoldable pub is_space : ℕ → Bool
is_space c =
    leb 9 c && leb c 13
    || leb 28 c && leb c 32
    || c == 0x85
    || c == 0xA0
    || c == 0x1680
    || leb 0x2000 c && leb c 0x200A
    || c == 0x2028
    || c == 0x2029
    || c == 0x202F
    || c == 0x205F
    || c == 0x3000

abbrev pub onto_first : ℕ → List Text → List Text
onto_first c [] = (c ∷ []) ∷ []
onto_first c (l ∷ ls) = (c ∷ l) ∷ ls

-- text.splitlines(keepends=True)
unfoldable pub splitlines : Text → List Text
splitlines [] = []
splitlines (c ∷ cs) =
    let rest = splitlines cs in if is_break c then (c ∷ []) ∷ rest else onto_first c rest

-- "".join(lines)
unfoldable pub concat : List Text → Text
concat [] = []
concat (l ∷ ls) = l ++ concat ls

unfoldable pub lstrip : Text → Text
lstrip [] = []
lstrip (c ∷ cs) = let rest = lstrip cs in if is_space c then rest else c ∷ cs

unfoldable pub rstrip : Text → Text
rstrip [] = []
rstrip (c ∷ cs) = let rest = rstrip cs in if is_space c && is_empty rest then [] else c ∷ rest

unfoldable pub strip : Text → Text
unfolding is_space lstrip rstrip
strip t = lstrip (rstrip t)

-- text.split(): a space after which a word begins.
abbrev pub push_char : ℕ → Bool → List Text → List Text
push_char c true ws = (c ∷ []) ∷ ws
push_char c false [] = (c ∷ []) ∷ []
push_char c false (w ∷ ws) = (c ∷ w) ∷ ws

abbrev pub begins_space : Text → Bool
begins_space [] = true
begins_space (c ∷ cs) = is_space c

unfoldable pub split : Text → List Text
unfolding is_space
split [] = []
split (c ∷ cs) =
    let rest = split cs in if is_space c then rest else push_char c (begins_space cs) rest

unfoldable pub startswith : Text → Text → Bool
startswith t [] = true
startswith [] (p ∷ ps) = false
startswith (c ∷ cs) (p ∷ ps) = c == p && startswith cs ps

-- `part in text`
unfoldable pub contains : Text → Text → Bool
unfolding startswith
contains part [] = is_empty part
contains part (c ∷ cs) = startswith (c ∷ cs) part || contains part cs

unfoldable pub endswith : Text → Text → Bool
unfolding same_bytes
endswith [] part = is_empty part
endswith (c ∷ cs) part = same_bytes (c ∷ cs) part || endswith cs part

-- text.lstrip("-")
unfoldable pub without_dashes : Text → Text
without_dashes [] = []
without_dashes (c ∷ cs) = let rest = without_dashes cs in if c == b'-' then rest else c ∷ cs

-- os.path.basename
unfoldable pub has_slash : Text → Bool
has_slash [] = false
has_slash (c ∷ cs) = if c == b'/' then true else has_slash cs

unfoldable pub basename : Text → Text
unfolding has_slash
basename [] = []
basename (c ∷ cs) = let rest = basename cs in if has_slash (c ∷ cs) then rest else c ∷ cs

unfoldable pub elem : Text → List Text → Bool
unfolding same_bytes
elem t [] = false
elem t (x ∷ xs) = if same_bytes x t then true else elem t xs
