-- ===== src/Pam/Lines.antt =====
-- The lines of a PAM service file (linux-hello/src/integration/pam.py).
use linux_hello.Models.{codes}
use linux_hello.Prelude.{
  Bool, true, false, ◌&&◌, ◌||◌, Option, none, some, List, [], ◌∷◌, ◌++◌, if◌then◌else◌, is_empty,
}
use linux_hello.Prelude.Bytes.{same_bytes}
use linux_hello.Pam.Text.{Text, strip, split, startswith, endswith, without_dashes, basename, elem}

abbrev pub pam_module : Text
pam_module = codes "pam_linux_hello.so"

-- The words after a control field in brackets.
unfoldable pub after_brackets : List Text → List Text
unfolding endswith
after_brackets [] = []
after_brackets (w ∷ ws) =
    let rest = after_brackets ws in if endswith w (codes "]") then w ∷ ws else rest

abbrev pub skip_brackets : List Text → List Text
skip_brackets [] = []
skip_brackets (w ∷ ws) = if startswith w (codes "[") then after_brackets (w ∷ ws) else w ∷ ws

abbrev pub tail : List Text → List Text
tail [] = []
tail (w ∷ ws) = ws

abbrev pub head? : List Text → Option Text
head? [] = none
head? (w ∷ ws) = some w

abbrev pub module_after : List Text → Option Text × Option Text
module_after [] = (none, none)
module_after (kind ∷ rest) = (some (without_dashes kind), head? (tail (skip_brackets rest)))

-- The type and the module of a line, or none twice.
unfoldable pub module_of : Text → Option Text × Option Text
unfolding strip split startswith without_dashes after_brackets
module_of line =
    let stripped = strip line in
    if is_empty stripped || startswith stripped (codes "#")
    then (none, none)
    else if startswith stripped (codes "@include")
    then (some (codes "@include"), head? (tail (split stripped)))
    else module_after (split stripped)

abbrev pub is_some_of : Option Text → Text → Bool
is_some_of none t = false
is_some_of (some x) t = same_bytes x t

unfoldable pub is_auth_line : Text → Bool
unfolding module_of same_bytes
is_auth_line line =
    let found = module_of line in
    if is_some_of (found.0) (codes "auth")
    then true
    else is_some_of (found.0) (codes "@include") && is_some_of (found.1) (codes "common-auth")

abbrev pub is_ours_of : Option Text → Bool
is_ours_of none = false
is_ours_of (some m) = same_bytes (basename m) pam_module

unfoldable pub is_ours : Text → Bool
unfolding module_of basename same_bytes
is_ours line = is_ours_of (module_of line).1

-- GATES: a check's module, and the argument that it needs.
abbrev pub gate_needs : List (Text × Option Text)
gate_needs =
    (codes "pam_faillock.so", some (codes "preauth"))
    ∷ (codes "pam_nologin.so", none)
    ∷ (codes "pam_access.so", none)
    ∷ (codes "pam_shells.so", none)
    ∷ (codes "pam_securetty.so", none)
    ∷ (codes "pam_listfile.so", none)
    ∷ (codes "pam_time.so", none)
    ∷ []

abbrev pub meets : Option Text → List Text → Bool
meets none args = true
meets (some need) args = elem need args

unfoldable pub is_gate : List (Text × Option Text) → Text → List Text → Bool
unfolding same_bytes elem
is_gate [] name args = false
is_gate ((gate, need) ∷ gates) name args =
    if same_bytes gate name then meets need args else is_gate gates name args

-- " ".join(words)
unfoldable pub join_words : List Text → Text
join_words [] = []
join_words (w ∷ []) = w
join_words (w ∷ x ∷ ws) = w ++ codes " " ++ join_words (x ∷ ws)

unfoldable pub is_copied : Text → Text → Text → List Text → Bool
unfolding same_bytes basename is_gate without_dashes elem
is_copied kind control m args =
    same_bytes (without_dashes kind) (codes "auth")
    && elem control (codes "required" ∷ codes "requisite" ∷ [])
    && is_gate gate_needs (basename m) args

unfoldable pub gate_of : List Text → Option Text
unfolding join_words is_copied
gate_of (kind ∷ control ∷ m ∷ args) =
    if is_copied kind control m args
    then some (codes "-auth\t" ++ control ++ codes "\t" ++ join_words (m ∷ args))
    else none
gate_of _ = none

-- Our copy of a check line, or none where the line is not one.
unfoldable pub gate_line : Text → Option Text
unfolding split gate_of
gate_line line = gate_of (split line)
