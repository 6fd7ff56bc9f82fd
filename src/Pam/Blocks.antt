-- ===== src/Pam/Blocks.antt =====
-- Marked blocks in a service file (linux-hello/src/integration/pam.py).
pub mod Gates
pub mod Marks
pub mod Placing
pub mod Removing
use mathlib.Core.Option
use linux_hello.Models.{codes}
use linux_hello.Prelude.{
  ℕ, Bool, true, false, ◌||◌, Option, none, some, List, [], ◌∷◌, ◌++◌, if◌then◌else◌, is_empty, map,
}
use linux_hello.Prelude.Bytes.{same_bytes}
use linux_hello.Pam.Text.{Text, splitlines, concat, strip, contains, endswith, elem}
use linux_hello.Pam.Lines.{pam_module, is_auth_line, is_ours}

abbrev pub newline : Text
newline = 10 ∷ []

abbrev pub begin_mark : Text
begin_mark = codes "# BEGIN linux-hello (managed by linux-hello, do not edit)"

abbrev pub end_mark : Text
end_mark = codes "# END linux-hello"

abbrev pub wallet_begin : Text
wallet_begin = codes "# BEGIN linux-hello kwallet (managed by linux-hello, do not edit)"

abbrev pub begins_all : List Text
begins_all = begin_mark ∷ wallet_begin ∷ []

abbrev pub insert_line : Text
insert_line = codes "auth\t[success=done default=ignore]\t" ++ pam_module

abbrev pub login_insert_line : Text
login_insert_line =
    codes "auth\t[success=done ignore=ignore auth_err=die default=ignore]\t" ++ pam_module

abbrev pub wallet_hold_line : Text
wallet_hold_line = codes "-auth\toptional\t" ++ pam_module ++ codes " remember_password"

abbrev pub wallet_remember_line : Text
wallet_remember_line = codes "-session\toptional\t" ++ pam_module ++ codes " remember_password"

abbrev pub wallet_release_line : Text
wallet_release_line = codes "-auth\toptional\t" ++ pam_module ++ codes " kwallet"

-- A value, or PamError.
pub data Result {ℓ} (A : Type ℓ) : Type ℓ where
  ok : A → Result A
  pam_error : Result A

unfoldable pub has_block : Text → Text → Bool
unfolding contains
has_block text begin = contains begin text

-- The last line gets a newline if it has none.
unfoldable pub close_last : List Text → List Text
unfolding endswith
close_last [] = []
close_last (l ∷ []) = if endswith l newline then l ∷ [] else (l ++ newline) ∷ []
close_last (l ∷ m ∷ ls) = l ∷ close_last (m ∷ ls)

-- The block in front of the first auth line.
unfoldable pub before_auth : List Text → List Text → Option (List Text)
before_auth block [] = none
before_auth block (l ∷ ls) =
    let later = Option.map (λ rest. l ∷ rest) (before_auth block ls) in
    if is_auth_line l then some (block ++ l ∷ ls) else later

abbrev pub joined : Option (List Text) → Result Text
joined none = pam_error
joined (some ls) = ok (concat ls)

-- The lines of our block.
unfoldable pub block_lines : List Text → Text → List Text
block_lines gates line =
    (begin_mark ++ newline)
    ∷ (map (λ g. g ++ newline) gates ++ (line ++ newline) ∷ (end_mark ++ newline) ∷ [])

unfoldable pub insert_block : Text → List Text → Text → Result Text
insert_block text gates line =
    if has_block text begin_mark
    then ok text
    else joined (before_auth (block_lines gates line) (close_last (splitlines text)))

-- The lines of a block whose end is missing, without ours.
unfoldable pub without_ours : List Text → List Text
without_ours [] = []
without_ours (l ∷ ls) = let rest = without_ours ls in if is_ours l then rest else l ∷ rest

-- The loop of `remove_block`: outside a block, and inside one with its lines so far.
unfoldable mutual
  pub outside : List Text → List Text → List Text
  outside begins [] = []
  outside begins (l ∷ ls) =
      let hidden = inside begins [] ls in
      let kept = l ∷ outside begins ls in if elem (strip l) begins then hidden else kept

  pub inside : List Text → List Text → List Text → List Text
  inside begins block [] = without_ours block
  inside begins block (l ∷ ls) =
      let over = outside begins ls in
      let longer = inside begins (block ++ l ∷ []) ls in
      if same_bytes (strip l) end_mark then over else longer

unfoldable pub remove_block : Text → List Text → Text
remove_block text begins = concat (outside begins (splitlines text))

unfoldable pub wallet_block : Text → Text
wallet_block line = wallet_begin ++ newline ++ line ++ newline ++ end_mark ++ newline

unfoldable pub insert_wallet_release : Text → Result Text
insert_wallet_release text =
    if has_block text wallet_begin
    then ok text
    else joined (before_auth (wallet_block wallet_release_line ∷ []) (splitlines text))

unfoldable pub has_auth_line : List Text → Bool
has_auth_line [] = false
has_auth_line (l ∷ ls) = if is_auth_line l then true else has_auth_line ls

-- The block behind the last auth line.
unfoldable pub behind_last_auth : Text → List Text → Option (List Text)
behind_last_auth block [] = none
behind_last_auth block (l ∷ ls) =
    let later = Option.map (λ rest. l ∷ rest) (behind_last_auth block ls) in
    if has_auth_line ls then later else if is_auth_line l then some (l ∷ block ∷ ls) else none

abbrev pub with_session_line : Option (List Text) → Result Text
with_session_line none = pam_error
with_session_line (some ls) = ok (concat ls ++ wallet_block wallet_remember_line)

unfoldable pub close_text : Text → Text
unfolding endswith
close_text text = if is_empty text || endswith text newline then text else text ++ newline

unfoldable pub insert_wallet_remember : Text → Result Text
insert_wallet_remember text =
    if has_block text wallet_begin
    then ok text
    else with_session_line
        (behind_last_auth (wallet_block wallet_hold_line) (splitlines (close_text text)))

-- Drops unmarked lines of older versions.
unfoldable pub remove_legacy_lines : Text → Text
remove_legacy_lines text = concat (without_ours (splitlines text))
