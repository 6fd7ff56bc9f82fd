-- ===== src/Pam/Ini.antt =====
-- Groups of INI files, and the user that logs in automatically (linux-hello/src/integration/pam.py).
use mathlib.Core.Option
use linux_hello.Models.{codes}
use linux_hello.Prelude.{
  ℕ, Bool, true, false, ◌&&◌, ◌||◌, Option, none, some, List, [], ◌∷◌, leb, ◌==◌, if◌then◌else◌,
  is_empty,
}
use linux_hello.Prelude.Bytes.{same_bytes}
use linux_hello.Prelude.Store.{Store, lookup, store}
use linux_hello.Pam.Text.{Text, splitlines, concat, strip, startswith, endswith}
use linux_hello.Pam.Files.{Files, autologin_file, autologin_main, bare_lines}

unfoldable pub without_last : Text → Text
without_last [] = []
without_last (c ∷ []) = []
without_last (c ∷ d ∷ cs) = c ∷ without_last (d ∷ cs)

abbrev pub without_first : Text → Text
without_first [] = []
without_first (c ∷ cs) = cs

-- line.split("=", 1), where the line has a "="
unfoldable pub split_equals : Text → Option (Text × Text)
split_equals [] = none
split_equals (c ∷ cs) =
    let rest = split_equals cs in
    if c == b'=' then some ([], cs) else Option.map (λ kv. (c ∷ kv.0, kv.1)) rest

unfoldable pub is_group : Text → Bool
unfolding startswith endswith
is_group line = startswith line (codes "[") && endswith line (codes "]")

abbrev pub same_group : Option Text → Text → Bool
same_group none group = false
same_group (some g) group = same_bytes g group

abbrev pub key_value : Text → Option (Text × Text)
key_value line = if startswith line (codes "#") then none else split_equals line

abbrev pub with_key : Option (Text × Text) → Store Text → Store Text
with_key none values = values
with_key (some kv) values = store (strip (kv.0)) (strip (kv.1)) values

-- The loop of `_ini_group`: the current group and the values so far.
unfoldable pub ini_over : Text → Option Text → Store Text → List Text → Store Text
unfolding strip is_group same_bytes startswith split_equals store without_last
ini_over group current values [] = values
ini_over group current values (l ∷ ls) =
    let line = strip l in
    let entered = ini_over group (some (without_last (without_first line))) values ls in
    let added = ini_over group current (with_key (key_value line) values) ls in
    let passed = ini_over group current values ls in
    if is_group line then entered else if same_group current group then added else passed

unfoldable pub ini_group : Text → Text → Store Text
ini_group text group = ini_over group none [] (bare_lines text)

abbrev pub autologin_group : Text
autologin_group = codes "Autologin"

abbrev pub user_of : Text → Option Text
user_of text = lookup (codes "User") (ini_group text autologin_group)

abbrev pub nonempty : Option Text → Option Text
nonempty none = none
nonempty (some t) = if is_empty t then none else some t

abbrev pub user_in : Option Text → Option Text
user_in none = none
user_in (some text) = nonempty (user_of text)

-- The user that our drop-in logs in.
unfoldable pub autologin_user : Files → Option Text
unfolding lookup ini_group
autologin_user files = user_in (lookup autologin_file files)

abbrev pub names_user : Text → Option (Text × Text) → Bool
names_user user none = false
names_user user (some kv) =
    same_bytes (strip (kv.0)) (codes "User") && same_bytes (strip (kv.1)) user

-- The lines of the main file without its copy of our user.
unfoldable pub forget_over : Text → Option Text → List Text → List Text
unfolding strip is_group same_bytes startswith split_equals without_last
forget_over user current [] = []
forget_over user current (l ∷ ls) =
    let stripped = strip l in
    let entered = forget_over user (some (without_last (without_first stripped))) ls in
    let rest = forget_over user current ls in
    if is_group stripped
    then l ∷ entered
    else if same_group current autologin_group && names_user user (key_value stripped)
    then rest
    else l ∷ rest

abbrev pub forget_in : Files → Text → Text → Files
forget_in files text user =
    let out = concat (forget_over user none (splitlines text)) in
    if same_bytes out text then files else store autologin_main out files

unfoldable pub forget_main_autologin : Files → Option Text → Files
unfolding lookup forget_over concat splitlines store same_bytes
forget_main_autologin files none = files
forget_main_autologin files (some user) = elim (lookup autologin_main files) [
  | none ↦ files
  | some text ↦ if is_empty user then files else forget_in files text user
]

abbrev pub is_letter : ℕ → Bool
is_letter c = leb b'A' c && leb c b'Z' || leb b'a' c && leb c b'z' || c == b'_'

abbrev pub is_name_char : ℕ → Bool
is_name_char c = is_letter c || leb b'0' c && leb c b'9' || c == b'.' || c == b'@' || c == b'-'

unfoldable pub all_name_chars : Text → Bool
all_name_chars [] = true
all_name_chars (c ∷ cs) = is_name_char c && all_name_chars cs

-- USER_NAME.fullmatch
unfoldable pub is_user_name : Text → Bool
unfolding all_name_chars
is_user_name [] = false
is_user_name (c ∷ cs) = is_letter c && all_name_chars cs
