-- ===== src/Pam/Tests.antt =====
-- Runs of the PAM modules at concrete service files.
use linux_hello.Models.{codes}
use linux_hello.Prelude.{All, true, false, ◌≡◌, refl, inl, [], ◌∷◌, ◌++◌, ◌≢◌, none, some}
use linux_hello.Pam.Text.{
  Text, splitlines, concat, strip, lstrip, rstrip, split, is_break, is_space, startswith, contains,
  endswith, without_dashes, has_slash, basename, elem,
}
use linux_hello.Pam.Lines.{
  module_of, after_brackets, is_auth_line, gate_line, gate_of, is_copied, is_gate, join_words,
  is_ours,
}
use linux_hello.Pam.Blocks.{
  without_ours, wallet_block, insert_wallet_release, insert_wallet_remember, behind_last_auth,
  has_auth_line, close_text, begin_mark, begins_all, insert_line, ok, has_block, close_last,
  before_auth, block_lines, insert_block, outside, inside, remove_block,
}
use linux_hello.Pam.Blocks.Marks.{IsAbsent}
use linux_hello.Pam.Blocks.Removing.{remove_block-insert_block}
use linux_hello.Prelude.Bytes.{same_bytes_apart, same_bytes}
use linux_hello.Prelude.Store.{lookup, store, erase}
use linux_hello.Pam.OwnStack.{
  own_header_lines, own_stack_line, build_own_stack, own_body, close_line, is_kept,
}
use linux_hello.Pam.OwnStack.Allowing.{Grants, build_own_stack-Grants}
use linux_hello.Pam.Files.{
  join, etc_path, autologin_file, is_file, vendor_of, find_service, without_break, stack_line,
  auth_lines_over, auth_lines, gates_over, gates_of, includes_word, any_includes, includes,
}
use linux_hello.Pam.Ini.{ini_over, ini_group, autologin_user, all_name_chars, is_user_name}
use linux_hello.Pam.Enable.{
  Work, copied, action_for, source_of, is_own_at, write_entry, write_changed, enable_insert,
  enable_wallet, enable_autologin,
}
use linux_hello.Pam.Revert.{revert}
use linux_hello.Pam.Revert.Undoing.{IsPlain, revert-enable_insert}
use linux_hello.Pam.Targets.{
  Disk, failed, any_holds, kde_face_supported, plan_of, kind_path, texts_before, restore, step_of,
  run_steps, enable,
}
use linux_hello.Pam.Reset.{target_enabled, reset}
use linux_hello.Pam.Reset.Leaving.{reset-target_enabled}
use linux_hello.Pam.Targets.Restoring.{enable-IsAsBefore}

abbrev sudo_file : Text
sudo_file = codes "#%PAM-1.0\nauth required pam_nologin.so\nauth include system-auth\n"

abbrev nologin_copy : Text
nologin_copy = codes "-auth\trequired\tpam_nologin.so"

abbrev sudo_with_block : Text
sudo_with_block =
    codes "#%PAM-1.0\n"
    ++ concat (block_lines (nologin_copy ∷ []) insert_line)
    ++ codes "auth required pam_nologin.so\nauth include system-auth\n"

nologin_copied : gate_line (codes "auth required pam_nologin.so") ≡ some nologin_copy
unfolding gate_line gate_of is_copied split is_space without_dashes same_bytes elem is_gate basename
    has_slash join_words
nologin_copied = refl

sudo_inserted : insert_block sudo_file (nologin_copy ∷ []) insert_line ≡ ok sudo_with_block
unfolding insert_block has_block contains startswith close_last endswith same_bytes splitlines
    is_break before_auth is_auth_line module_of strip lstrip rstrip is_space split after_brackets
    without_dashes block_lines concat
sudo_inserted = refl

sudo-IsAbsent : All (IsAbsent sudo_file) begins_all
unfolding has_block contains startswith
sudo-IsAbsent = ((λ e. cc e, refl), ((λ e. cc e, refl), tt))

all_marks : elem begin_mark begins_all ≡ true
unfolding elem same_bytes
all_marks = refl

remove_block-insert_block_example : remove_block sudo_with_block begins_all ≡ sudo_file
remove_block-insert_block_example =
    remove_block-insert_block begins_all (nologin_copy ∷ []) insert_line sudo_file sudo_with_block
      refl all_marks sudo-IsAbsent ((codes "auth required pam_nologin.so", nologin_copied), tt)
      (inl refl) sudo_inserted

abbrev fingerprint_file : Text
fingerprint_file =
    codes
      "#%PAM-1.0\nauth required pam_nologin.so\nauth required pam_fprintd.so\naccount include system-auth\n"

abbrev own_file : Text
own_file =
    concat own_header_lines
    ++ codes "auth required pam_nologin.so\n"
    ++ own_stack_line
    ++ codes "\naccount include system-auth\n"

build_own_stack-Grants_example : Grants true own_file
unfolding concat build_own_stack own_body close_line is_kept endswith splitlines is_break startswith
    is_auth_line module_of strip lstrip rstrip is_space split after_brackets without_dashes
    same_bytes elem basename has_slash
build_own_stack-Grants_example = build_own_stack-Grants fingerprint_file true

abbrev boot_disk : Disk
boot_disk = record {
  files =
      (codes "/usr/bin/plasmalogin", codes "x")
      ∷ (codes "/etc/pam.d/plasmalogin", codes "auth required pam_unix.so\n")
      ∷ (codes "/usr/lib/pam.d/plasmalogin-autologin", codes "auth required pam_permit.so\n")
      ∷ [];
  saved = some [];
}

as_hash : Text → Text
as_hash t = t

-- Both wallet blocks are written before the user is refused.
root_refused :
    enable as_hash (codes "auto-login") (some (codes "root")) boot_disk ≡ failed boot_disk
unfolding enable as_hash plan_of any_holds kde_face_supported find_service vendor_of is_file
    includes any_includes includes_word texts_before restore kind_path run_steps step_of
    enable_wallet source_of write_changed write_entry action_for remove_block outside inside
    without_ours insert_wallet_release insert_wallet_remember wallet_block behind_last_auth
    has_auth_line close_text before_auth has_block contains startswith enable_autologin
    autologin_user ini_group ini_over is_user_name all_name_chars lookup store erase join concat
    endswith splitlines is_break is_auth_line is_ours module_of strip lstrip rstrip is_space split
    after_brackets without_dashes same_bytes elem basename has_slash
root_refused = refl

enable-IsAsBefore_example :
    ((q : Text) → lookup q boot_disk.files ≡ lookup q boot_disk.files)
    × (boot_disk.saved ≡ boot_disk.saved)
enable-IsAsBefore_example =
    enable-IsAsBefore as_hash (codes "auto-login") (some (codes "root")) boot_disk boot_disk
      root_refused

abbrev vendor_files : Work
vendor_files = record { files = (codes "/usr/lib/pam.d/sudo", sudo_file) ∷ []; state = [] }

abbrev sudo_enabled : Work
sudo_enabled = record {
  files =
      (codes "/usr/lib/pam.d/sudo", sudo_file) ∷ (codes "/etc/pam.d/sudo", sudo_with_block) ∷ [];
  state =
      (
        codes "/etc/pam.d/sudo",
        record { action = copied; target = codes "sudo"; sha256 = sudo_with_block; separator = [] },
      )
      ∷ [];
}

sudo_source : source_of vendor_files.files (codes "sudo") ≡ ok (sudo_file, copied)
unfolding source_of lookup vendor_of is_file join same_bytes startswith endswith
sudo_source = refl

sudo_enables : enable_insert as_hash (codes "sudo") (codes "sudo") vendor_files ≡ ok sudo_enabled
unfolding enable_insert as_hash source_of lookup store vendor_of is_file find_service join
    write_changed write_entry action_for remove_block outside inside without_ours gates_of
    gates_over auth_lines auth_lines_over stack_line without_break gate_line gate_of is_copied
    is_gate join_words insert_block block_lines close_last before_auth has_block contains startswith
    concat endswith splitlines is_break is_auth_line is_ours module_of strip lstrip rstrip is_space
    split after_brackets without_dashes same_bytes elem basename has_slash
sudo_enables = refl

sudo-IsPlain : IsPlain sudo_file
unfolding has_block contains startswith splitlines is_break strip lstrip rstrip is_space elem
    same_bytes
sudo-IsPlain = record { closed = refl; free = refl }

sudo_path : etc_path (codes "sudo") ≢ autologin_file
unfolding join same_bytes startswith endswith
sudo_path e = same_bytes_apart (etc_path (codes "sudo")) autologin_file other e
  where
    other : same_bytes (etc_path (codes "sudo")) autologin_file ≡ false
    other = refl

sudo_not_own : is_own_at sudo_enabled.files (etc_path (codes "sudo")) ≡ false
unfolding lookup is_file join same_bytes startswith endswith concat block_lines
sudo_not_own = refl

revert-enable_insert_example :
    ((q : Text)
      → lookup q (revert as_hash (etc_path (codes "sudo")) (begin_mark ∷ []) sudo_enabled).0.files
        ≡ lookup q vendor_files.files)
    × (lookup
          (etc_path (codes "sudo"))
          (revert as_hash (etc_path (codes "sudo")) (begin_mark ∷ []) sudo_enabled).0.state
        ≡ none)
revert-enable_insert_example =
    revert-enable_insert as_hash (codes "sudo") (codes "sudo") sudo_file copied vendor_files
      sudo_enabled sudo_source sudo-IsPlain sudo_path sudo_enables sudo_not_own

abbrev booting : Disk
booting = record {
  files = (codes "/etc/plasmalogin.conf.d/linux-hello.conf", codes "[Autologin]\nUser=ann\n") ∷ [];
  saved = some [];
}

reset-target_enabled_example :
    (lookup autologin_file (reset as_hash booting).files ≡ none)
    × (target_enabled (reset as_hash booting).files (codes "auto-login") ≡ false)
reset-target_enabled_example = reset-target_enabled as_hash booting
