-- ===== src/Pam/Reset.antt =====
-- The state of the targets, and undoing all of them (linux-hello/src/integration/pam.py).
pub mod Leaving
use linux_hello.Models.{codes}
use linux_hello.Prelude.{
  Bool, true, false, ◌&&◌, ◌||◌, not, ◌==◌, Option, none, some, List, [], ◌∷◌, if◌then◌else◌,
  is_empty, is_some,
}
use linux_hello.Prelude.Bytes.{same_bytes}
use linux_hello.Prelude.Store.{Store, lookup, store, erase}
use linux_hello.Pam.Text.{Text, strip, startswith, contains, endswith, has_slash}
use linux_hello.Pam.Lines.{pam_module}
use linux_hello.Pam.Blocks.{
  begin_mark, wallet_begin, begins_all, Result, ok, pam_error, has_block, remove_block,
  remove_legacy_lines,
}
use linux_hello.Pam.Files.{Files, etc_path, kscreenlocker_config, autologin_file, is_file, text_at}
use linux_hello.Pam.Ini.{autologin_user, forget_main_autologin}
use linux_hello.Pam.Enable.{Entry, Work, own_header}
use linux_hello.Pam.Revert.{revert}
use linux_hello.Pam.Targets.{
  Kind, insert, own, kde_config, wallet_release, wallet_remember, autologin, Plan, plan_of, Disk,
  Outcome, done, failed, enable,
}

abbrev pub holds : Files → Text → Text → Bool
holds files path mark = is_file files path && has_block (text_at files path) mark

unfoldable pub service_enabled : Files → Text → Kind → Bool
unfolding lookup is_file has_block startswith autologin_user
service_enabled files service kde_config = holds files kscreenlocker_config begin_mark
service_enabled files service autologin = is_some (autologin_user files)
service_enabled files service wallet_release = holds files (etc_path service) wallet_begin
service_enabled files service wallet_remember = holds files (etc_path service) wallet_begin
service_enabled files service own =
    is_file files (etc_path service) && startswith (text_at files (etc_path service)) own_header
service_enabled files service insert = holds files (etc_path service) begin_mark

unfoldable pub all_enabled : Files → Plan → Bool
unfolding service_enabled
all_enabled files [] = true
all_enabled files ((service, kind) ∷ plan) =
    if service_enabled files service kind then all_enabled files plan else false

abbrev pub is_on : Files → Text → Result Plan → Bool
is_on files target pam_error = false
is_on files target (ok plan) =
    not (is_empty plan) && all_enabled files plan
    || same_bytes target (codes "auto-login") && is_some (autologin_user files)

-- A target's "enabled".
unfoldable pub target_enabled : Files → Text → Bool
unfolding plan_of all_enabled same_bytes autologin_user
target_enabled files target = is_on files target (plan_of files target)

abbrev pub targets : List Text
targets =
    codes "lock-screen" ∷ codes "admin" ∷ codes "sudo" ∷ codes "login" ∷ codes "auto-login" ∷ []

unfoldable pub enabled_of : Files → List Text → List Text
unfolding target_enabled
enabled_of files [] = []
enabled_of files (t ∷ ts) =
    let rest = enabled_of files ts in if target_enabled files t then t ∷ rest else rest

-- The drop-in, before anything else.
unfoldable pub without_drop_in : Files → Files
unfolding lookup erase is_file autologin_user forget_main_autologin
without_drop_in files =
    if is_file files autologin_file
    then erase autologin_file (forget_main_autologin files (autologin_user files))
    else files

abbrev pub etc_prefix : Text
etc_prefix = codes "/etc/pam.d/"

-- Whether a path is of an entry of the directory of services.
unfoldable pub is_service_path : Text → Text → Bool
unfolding has_slash
is_service_path [] path = not (has_slash path)
is_service_path (p ∷ prefix) [] = false
is_service_path (p ∷ prefix) (c ∷ path) = c == p && is_service_path prefix path

-- What is left of one service file.
abbrev pub cleaned_file : Text → Text → Files → Files
cleaned_file path text files =
    let cleaned = remove_legacy_lines (remove_block text begins_all) in
    if endswith path (codes ".linux-hello-backup")
    then erase path files
    else if startswith text own_header
    then erase path files
    else if not (contains pam_module text)
    then files
    else if same_bytes cleaned text
    then files
    else store path cleaned files

-- The loop over the directory.
unfoldable pub clean_etc : Store Text → Files → Files
unfolding is_service_path erase store remove_legacy_lines remove_block endswith startswith contains
    same_bytes
clean_etc [] files = files
clean_etc ((path, text) ∷ entries) files =
    clean_etc entries
      (if is_service_path etc_prefix path then cleaned_file path text files else files)

abbrev pub cleaned_config : Text → Files → Files
cleaned_config text files =
    let cleaned = remove_block text begins_all in
    if has_block text begin_mark
    then (if is_empty (strip cleaned)
        then erase kscreenlocker_config files
        else store kscreenlocker_config cleaned files)
    else files

abbrev pub config_of : Option Text → Files → Files
config_of none files = files
config_of (some text) files = cleaned_config text files

-- A block whose manifest entry was lost.
unfoldable pub clean_config : Files → Files
unfolding lookup has_block remove_block strip erase store
clean_config files = config_of (lookup kscreenlocker_config files) files

-- The manifest, or an empty one in place of a corrupt one.
abbrev pub loaded_or_empty : Option (Store Entry) → Store Entry
loaded_or_empty none = []
loaded_or_empty (some state) = state

module _ (hash : Text → Text) where
  -- The files of the manifest.
  unfoldable pub revert_all : Store Entry → Work → Work
  unfolding revert
  revert_all [] w = w
  revert_all ((path, entry) ∷ entries) w = revert_all entries (revert hash path begins_all w).0

  unfoldable pub reset : Disk → Disk
  unfolding without_drop_in revert_all clean_etc clean_config
  reset d =
      let state = loaded_or_empty d.saved in
      let w = revert_all state (record { files = without_drop_in d.files; state = state }) in
      record { files = clean_config (clean_etc w.files w.files); saved = some w.state }

  -- Enables again, in turn; the first failure ends it.
  unfoldable pub enable_each : List Text → Disk → Outcome
  unfolding enable
  enable_each [] d = done d
  enable_each (t ∷ ts) d = elim (enable hash t none d) [
    | done e ↦ enable_each ts e
    | failed e ↦ failed e
  ]

  unfoldable pub refresh : Disk → Outcome
  unfolding enable_each enabled_of
  refresh d = enable_each (enabled_of d.files targets) d
