-- ===== src/Pam/Files.antt =====
-- The files that face unlock changes, and the auth stacks in them (linux-hello/src/integration/pam.py).
use linux_hello.Models.{codes}
use linux_hello.Prelude.{
  ℕ, zero, suc, Bool, true, false, ◌&&◌, ◌||◌, Option, none, some, List, [], ◌∷◌, ◌++◌,
  if◌then◌else◌, is_empty, is_some, map,
}
use linux_hello.Prelude.Bytes.{same_bytes}
use linux_hello.Prelude.Store.{Store, lookup}
use linux_hello.Pam.Text.{
  Text, is_break, splitlines, split, startswith, endswith, without_dashes, elem,
}
use linux_hello.Pam.Lines.{gate_line}
use linux_hello.Pam.Blocks.{begins_all, remove_block}

-- os.path.join, of two
unfoldable pub join : Text → Text → Text
unfolding startswith endswith
join d s =
    if startswith s (codes "/")
    then s
    else if is_empty d || endswith d (codes "/")
    then d ++ s
    else d ++ codes "/" ++ s

-- The path of a file, with the root "/".
abbrev pub path_of : Text → Text
path_of relative = join (codes "/") relative

abbrev pub etc_path : Text → Text
etc_path service = path_of (join (codes "etc/pam.d") service)

abbrev pub kscreenlocker_config : Text
kscreenlocker_config = path_of (codes "etc/xdg/kscreenlockerrc")

abbrev pub autologin_main : Text
autologin_main = path_of (codes "etc/plasmalogin.conf")

abbrev pub autologin_file : Text
autologin_file = path_of (codes "etc/plasmalogin.conf.d/linux-hello.conf")

abbrev pub Files : Type 0
Files = Store Text

-- os.path.isfile
unfoldable pub is_file : Files → Text → Bool
is_file files path = is_some (lookup path files)

abbrev pub or_else : Option Text → Option Text → Option Text
or_else none o = o
or_else (some t) o = some t

abbrev pub found_at : Files → Text → Option Text
found_at files path = if is_file files path then some path else none

-- The path of the vendor's file for a service.
unfoldable pub vendor_of : Files → Text → Option Text
unfolding join is_file lookup
vendor_of files service =
    or_else (found_at files (path_of (join (codes "usr/lib/pam.d") service)))
      (found_at files (path_of (join (codes "usr/etc/pam.d") service)))

-- The path of the file that PAM uses for a service.
unfoldable pub find_service : Files → Text → Option Text
unfolding join is_file lookup vendor_of
find_service files service = or_else (found_at files (etc_path service)) (vendor_of files service)

-- text.splitlines(), without the ends
unfoldable pub without_break : Text → Text
unfolding is_break
without_break [] = []
without_break (c ∷ []) = if is_break c then [] else c ∷ []
without_break (c ∷ d ∷ cs) = c ∷ without_break (d ∷ cs)

abbrev pub bare_lines : Text → List Text
bare_lines text = map without_break (splitlines text)

-- What the words of a line are for a stack's reader.
pub data StackLine : Type 0 where
  skipped : StackLine
  auth_line : StackLine
  include_of : Text → StackLine

abbrev pub is_auth_word : Text → Bool
is_auth_word w = same_bytes (without_dashes w) (codes "auth")

unfoldable pub stack_line : List Text → StackLine
unfolding same_bytes without_dashes elem startswith
stack_line [] = skipped
stack_line (w ∷ []) =
    if startswith w (codes "#") then skipped else if is_auth_word w then auth_line else skipped
stack_line (w ∷ x ∷ []) =
    if startswith w (codes "#")
    then skipped
    else if same_bytes w (codes "@include")
    then include_of x
    else if is_auth_word w
    then auth_line
    else skipped
stack_line (w ∷ x ∷ y ∷ ws) =
    if startswith w (codes "#")
    then skipped
    else if same_bytes w (codes "@include")
    then include_of x
    else if is_auth_word w && elem x (codes "include" ∷ codes "substack" ∷ [])
    then include_of y
    else if is_auth_word w
    then auth_line
    else skipped

abbrev pub Reader : Type 0
Reader = List Text → List Text → List Text × List Text

abbrev pub text_of : Option Text → Text
text_of none = []
text_of (some t) = t

abbrev pub text_at : Files → Text → Text
text_at files path = text_of (lookup path files)

abbrev pub appended : List Text → List Text × List Text → List Text × List Text
appended before after = (before ++ after.0, after.1)

-- The files of an include, when it is found, new and not too deep.
abbrev pub followed : Files → Option Reader → Option Text → List Text → List Text × List Text
followed files none path seen = ([], seen)
followed files (some reader) none seen = ([], seen)
followed files (some reader) (some path) seen =
    if elem path seen then ([], seen) else reader (bare_lines (text_at files path)) (path ∷ seen)

-- One level of `_auth_lines`: the lines, and the paths seen so far.
unfoldable pub auth_lines_over : Files → Option Reader → Reader
unfolding split stack_line find_service elem lookup
auth_lines_over files deeper [] seen = ([], seen)
auth_lines_over files deeper (l ∷ ls) seen = elim (stack_line (split l)) [
  | skipped ↦ auth_lines_over files deeper ls seen
  | auth_line ↦ appended (l ∷ []) (auth_lines_over files deeper ls seen)
  | include_of name ↦
      let inner = followed files deeper (find_service files name) seen in
      appended inner.0 (auth_lines_over files deeper ls inner.1)
]

-- With the includes that may still be entered.
unfoldable pub auth_lines : Files → ℕ → Reader
auth_lines files zero = auth_lines_over files none
auth_lines files (suc depth) = auth_lines_over files (some (auth_lines files depth))

abbrev pub max_include_depth : ℕ
max_include_depth = 8

abbrev pub add_gate : Option Text → List Text → List Text
add_gate none gates = gates
add_gate (some g) gates = if elem g gates then gates else gates ++ g ∷ []

-- Each copy once, in the order of the lines.
unfoldable pub gates_over : List Text → List Text → List Text
unfolding gate_line elem
gates_over gates [] = gates
gates_over gates (l ∷ ls) = gates_over (add_gate (gate_line l) gates) ls

unfoldable pub gates_of : Files → Text → List Text
unfolding auth_lines
gates_of files text =
    gates_over []
      (auth_lines files max_include_depth (bare_lines (remove_block text begins_all)) []).0

unfoldable pub includes_word : Text → List Text → Bool
unfolding same_bytes without_dashes elem
includes_word other (w ∷ x ∷ y ∷ ws) =
    is_auth_word w && elem x (codes "include" ∷ codes "substack" ∷ []) && same_bytes y other
includes_word other _ = false

unfoldable pub any_includes : Text → List Text → Bool
unfolding split includes_word
any_includes other [] = false
any_includes other (l ∷ ls) = if includes_word other (split l) then true else any_includes other ls

-- Whether a service pulls in another one's auth stack.
unfoldable pub includes : Files → Text → Text → Bool
unfolding find_service lookup any_includes
includes files service other = elim (find_service files service) [
  | none ↦ false
  | some path ↦ any_includes other (bare_lines (text_at files path))
]
