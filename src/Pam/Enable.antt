-- ===== src/Pam/Enable.antt =====
-- Putting our lines into one file (linux-hello/src/integration/pam.py).
pub mod Framing
use linux_hello.Models.{codes}
use linux_hello.Prelude.{
  Bool, true, false, ◌&&◌, ◌||◌, not, Option, none, some, List, [], ◌∷◌, ◌++◌, if◌then◌else◌,
  is_empty, is_some,
}
use linux_hello.Prelude.Bytes.{same_bytes}
use linux_hello.Prelude.Store.{Store, lookup, store}
use linux_hello.Pam.Text.{Text, startswith, endswith, elem}
use linux_hello.Pam.Blocks.{
  begin_mark, end_mark, wallet_begin, begins_all, newline, insert_line, login_insert_line, Result,
  ok, pam_error, has_block, insert_block, remove_block, insert_wallet_release,
  insert_wallet_remember,
}
use linux_hello.Pam.OwnStack.{build_own_stack}
use linux_hello.Pam.Files.{
  Files, etc_path, kscreenlocker_config, autologin_main, autologin_file, path_of, is_file, text_at,
  found_at, vendor_of, or_else, find_service, gates_of,
}
use linux_hello.Pam.Ini.{autologin_user, user_of, ini_group, is_user_name}

pub data Action : Type 0 where
  inserted copied created : Action

-- What the manifest says of a file.
pub record Entry : Type 0 where
  pub action : Action
  pub target : Text
  pub sha256 : Text
  pub separator : Text

-- The files, and the manifest as it stands in memory.
pub record Work : Type 0 where
  pub files : Files
  pub state : Store Entry

abbrev pub own_header : Text
own_header = codes "#%PAM-1.0\n# Created by linux-hello"

abbrev pub password_first_services : List Text
password_first_services = codes "plasmalogin" ∷ codes "sddm" ∷ []

abbrev pub has_any_block : Text → Bool
has_any_block text = has_block text begin_mark || has_block text wallet_begin

abbrev pub action_of : Option Entry → Bool → Action → Action
action_of none blocks action = action
action_of (some entry) blocks action = if blocks then entry.action else action

-- How the file came to be.
unfoldable pub action_for : Text → Text → Action → Store Entry → Action
unfolding lookup has_block
action_for path text action state = action_of (lookup path state) (has_any_block text) action

-- The file that a block goes into, and how it comes to be.
abbrev pub from_vendor : Files → Option Text → Result (Text × Action)
from_vendor files none = pam_error
from_vendor files (some vendor) = ok (text_at files vendor, copied)

unfoldable pub source_of : Files → Text → Result (Text × Action)
unfolding lookup vendor_of
source_of files service = elim (lookup (etc_path service) files) [
  | some text ↦ ok (text, inserted)
  | none ↦ from_vendor files (vendor_of files service)
]

abbrev pub line_for : Text → Text
line_for service = if elem service password_first_services then login_insert_line else insert_line

abbrev pub wallet_text : Bool → Text → Result Text
wallet_text release clean =
    if release then insert_wallet_release clean else insert_wallet_remember clean

abbrev pub is_own_at : Files → Text → Bool
is_own_at files path = is_file files path && startswith (text_at files path) own_header

-- The stack that ours is built from, and whether it is the fingerprint one.
abbrev pub own_source : Files → Option Text → Result Text
own_source files none = elim (find_service files (codes "kde")) [
  | none ↦ pam_error
  | some path ↦ build_own_stack (text_at files path) false
]
own_source files (some path) = build_own_stack (text_at files path) true

abbrev pub kscreenlocker_block : Text
kscreenlocker_block =
    begin_mark
    ++ newline
    ++ codes "[Authenticators]"
    ++ newline
    ++ codes "Face=true"
    ++ newline
    ++ end_mark
    ++ newline

-- What goes between a config and our block.
unfoldable pub separator_for : Text → Text
unfolding endswith
separator_for text =
    if is_empty text || endswith text (codes "\n\n")
    then []
    else if endswith text newline
    then newline
    else newline ++ newline

abbrev pub or_empty : Option Text → Text
or_empty none = []
or_empty (some user) = user

abbrev pub user_or : Option Text → Option Text → Text
user_or none o = or_empty o
user_or (some user) o = if is_empty user then or_empty o else user

abbrev pub names_other : Option Text → Text → Bool
names_other none user = false
names_other (some named) user = not (same_bytes named user)

abbrev pub named_in_main : Files → Option Text
named_in_main files = elim (lookup autologin_main files) [ none ↦ none | some text ↦ user_of text ]

abbrev pub autologin_text : Text → Bool → Text
autologin_text user session =
    codes "# Created by linux-hello: log in automatically, then lock the screen.\n"
    ++ codes "# Removed again by 'linux-hello-cli disable auto-login'.\n"
    ++ codes "[Autologin]\n"
    ++ codes "User="
    ++ user
    ++ newline
    ++ (if session then codes "Session=plasma\n" else [])

abbrev pub wayland_session : Text
wayland_session = path_of (codes "usr/share/wayland-sessions/plasma.desktop")

-- Whether our drop-in may name a user.
abbrev pub may_log_in : Text → Bool
may_log_in user = not (is_empty user) && not (same_bytes user (codes "root")) && is_user_name user

-- Whether a file is there that is not ours.
abbrev pub is_foreign_at : Files → Text → Bool
is_foreign_at files path = is_file files path && not (is_own_at files path)

abbrev pub checked : Bool → Result Work → Result Work
checked wrong r = if wrong then pam_error else r

module _ (hash : Text → Text) where
  -- Writes a file, with its entry.
  unfoldable pub write_entry : Text → Text → Action → Text → Text → Work → Work
  unfolding store
  write_entry path text action target separator w = record {
    files = store path text w.files;
    state =
        store path
          (record { action = action; target = target; sha256 = hash text; separator = separator })
          w.state;
  }

  -- The new text in place of the old one, unless they are the same.
  unfoldable pub write_changed :
      Text → Text → Text → Action → Text → Result Text → Work → Result Work
  unfolding same_bytes write_entry action_for
  write_changed path target text action separator pam_error w = pam_error
  write_changed path target text action separator (ok new_text) w =
      if same_bytes new_text text
      then ok w
      else ok (write_entry path new_text (action_for path text action w.state) target separator w)

  abbrev pub insert_into : Text → Text → Work → Result (Text × Action) → Result Work
  insert_into service target w pam_error = pam_error
  insert_into service target w (ok (text, action)) =
      write_changed (etc_path service) target text action []
        (insert_block (remove_block text (begin_mark ∷ [])) (gates_of w.files text)
          (line_for service))
        w

  unfoldable pub enable_insert : Text → Text → Work → Result Work
  unfolding write_changed insert_block remove_block gates_of elem source_of
  enable_insert service target w = insert_into service target w (source_of w.files service)

  abbrev pub wallet_into : Text → Bool → Text → Work → Result (Text × Action) → Result Work
  wallet_into service release target w pam_error = pam_error
  wallet_into service release target w (ok (text, action)) =
      write_changed (etc_path service) target text action []
        (wallet_text release (remove_block text (wallet_begin ∷ []))) w

  unfoldable pub enable_wallet : Text → Bool → Text → Work → Result Work
  unfolding write_changed remove_block insert_wallet_release insert_wallet_remember source_of
  enable_wallet service release target w =
      wallet_into service release target w (source_of w.files service)

  -- A file of ours as a whole: written unless it is there already, and always entered.
  unfoldable pub write_whole : Text → Text → Text → Work → Work
  unfolding lookup store same_bytes is_file
  write_whole path text target w = record {
    files =
        if is_file w.files path && same_bytes (text_at w.files path) text
        then w.files
        else store path text w.files;
    state =
        store path
          (record { action = created; target = target; sha256 = hash text; separator = [] })
          w.state;
  }

  abbrev pub own_written : Text → Text → Work → Result Text → Result Work
  own_written path target w pam_error = pam_error
  own_written path target w (ok text) = ok (write_whole path text target w)

  unfoldable pub enable_own : Text → Text → Work → Result Work
  unfolding write_whole build_own_stack find_service is_file lookup startswith
  enable_own service target w = checked (is_foreign_at w.files (etc_path service)) (
      own_written (etc_path service) target w
        (own_source w.files (find_service w.files (codes "kde-fingerprint"))))

  abbrev pub kde_config_from : Text → Work → Option Text → Result Work
  kde_config_from target w none =
      ok (write_entry kscreenlocker_config kscreenlocker_block created target [] w)
  kde_config_from target w (some text) =
      if has_block text begin_mark
      then ok w
      else ok (
          write_entry kscreenlocker_config (text ++ separator_for text ++ kscreenlocker_block)
            inserted target (separator_for text) w)

  unfoldable pub enable_kde_config : Text → Work → Result Work
  unfolding write_entry lookup has_block separator_for
  enable_kde_config target w = kde_config_from target w (lookup kscreenlocker_config w.files)

  unfoldable pub enable_autologin : Text → Option Text → Work → Result Work
  unfolding write_whole autologin_user ini_group lookup is_user_name same_bytes is_file
  enable_autologin target given w =
      let user = user_or given (autologin_user w.files) in
      checked (not (may_log_in user)) (
        checked (names_other (named_in_main w.files) user) (
          ok (
            write_whole autologin_file (autologin_text user (is_file w.files wayland_session))
              target w)))
