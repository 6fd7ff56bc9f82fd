-- ===== src/Pam/Revert.antt =====
-- Undoing the change to one file (linux-hello/src/integration/pam.py).
pub mod Framing
pub mod Sources
pub mod Undoing
use linux_hello.Models.{codes}
use linux_hello.Prelude.{
  Bool, true, false, ◌&&◌, ◌||◌, not, Option, none, some, List, [], ◌∷◌, ◌-◌, if◌then◌else◌,
  is_empty, take, length,
}
use linux_hello.Prelude.Bytes.{same_bytes}
use linux_hello.Prelude.Store.{Store, lookup, store, erase}
use linux_hello.Pam.Text.{Text, strip, startswith, endswith}
use linux_hello.Pam.Blocks.{has_block, remove_block}
use linux_hello.Pam.Files.{Files, autologin_file}
use linux_hello.Pam.Ini.{user_of, ini_group, forget_main_autologin}
use linux_hello.Pam.Enable.{
  Entry, Work, Action, inserted, copied, created, own_header, has_any_block,
}

abbrev pub removed : Text → Work → Work × Bool
removed path w = (record { files = erase path w.files; state = w.state }, true)

abbrev pub written : Text → Text → Work → Work × Bool
written path text w = (record { files = store path text w.files; state = w.state }, true)

unfoldable pub without_separator : Text → Text → Text
unfolding endswith
without_separator separator text =
    if not (is_empty separator) && endswith text separator
    then take (length text - length separator) text
    else text

abbrev pub forgotten : Text → Text → Files → Files
forgotten path text files =
    if same_bytes path autologin_file then forget_main_autologin files (user_of text) else files

abbrev pub is_whole : Text → Text → Bool
is_whole path text = same_bytes path autologin_file || startswith text own_header

abbrev pub popped : Text → Work → Work
popped path w = record { files = w.files; state = erase path w.state }

module _ (hash : Text → Text) where
  abbrev pub is_untouched : Text → Entry → Bool
  is_untouched text entry = same_bytes (hash text) entry.sha256

  -- A file that is ours by the manifest, or was copied or changed by us.
  abbrev pub revert_by : Action → Text → Text → Text → Entry → Work → Work × Bool
  revert_by created path text cleaned entry w =
      if is_untouched text entry || is_empty (strip cleaned)
      then removed path w
      else if same_bytes cleaned text
      then (w, false)
      else written path cleaned w
  revert_by inserted path text cleaned entry w =
      if same_bytes cleaned text
      then (w, false)
      else written path (without_separator entry.separator cleaned) w
  revert_by copied path text cleaned entry w =
      if same_bytes cleaned text
      then (w, false)
      else if is_untouched text entry
      then removed path w
      else written path (without_separator entry.separator cleaned) w

  -- The file with no block left, once its entry is gone.
  abbrev pub revert_rest : Text → Text → Text → Option Entry → Work → Work × Bool
  revert_rest path text cleaned none w =
      if same_bytes cleaned text then (w, false) else written path cleaned w
  revert_rest path text cleaned (some entry) w = revert_by entry.action path text cleaned entry w

  abbrev pub rehashed : Text → Text → Option Entry → Store Entry → Store Entry
  rehashed path text none state = state
  rehashed path text (some entry) state =
      store path
        (record {
          action = entry.action;
          target = entry.target;
          sha256 = hash text;
          separator = entry.separator;
        })
        state

  -- The file with another target's block in it.
  abbrev pub revert_partly : Text → Text → Text → Work → Work × Bool
  revert_partly path text partly w = if same_bytes partly text then (w, false) else (
    record {
      files = store path partly w.files;
      state = rehashed path partly (lookup path w.state) w.state;
    },
    true,
  )

  abbrev pub revert_text : Text → List Text → Text → Work → Work × Bool
  revert_text path begins text w =
      let cleaned = remove_block text begins in
      if is_whole path text
      then removed path (popped path w)
      else if has_any_block cleaned
      then revert_partly path text cleaned w
      else revert_rest path text cleaned (lookup path w.state) (popped path w)

  abbrev pub revert_from : Text → List Text → Work → Option Text → Work × Bool
  revert_from path begins w none = (popped path w, false)
  revert_from path begins w (some text) =
      revert_text path begins text (record { files = forgotten path text w.files; state = w.state })

  -- The work after it, and whether the file changed.
  unfoldable pub revert : Text → List Text → Work → Work × Bool
  unfolding lookup store erase same_bytes startswith strip remove_block has_block without_separator
      forget_main_autologin ini_group
  revert path begins w = revert_from path begins w (lookup path w.files)
