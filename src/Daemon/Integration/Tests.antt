-- ===== src/Daemon/Integration/Tests.antt =====
-- Runs of the targets and of the kept password.
use Prim.Native.String.{String}
use linux_hello.Models.{codes}
use linux_hello.Prelude.{◌≡◌, refl, true, false, none, some, [], ◌∷◌}
use linux_hello.Prelude.Bytes.{Bytes, same_bytes}
use linux_hello.Prelude.Store.{lookup, store, erase}
use linux_hello.Daemon.Access.{Caller, authorized, require}
use linux_hello.Daemon.Integration.{
  Host, Service, action_failed, replies, raises, auto_login_allowed, forget_user, turn_on, turn_off,
  set_target, login_secret,
}
use linux_hello.Daemon.Integration.Composing.{set_target-forgets}
use linux_hello.Daemon.Integration.Failing.{IsFailed, set_target-IsFailed}
use linux_hello.Pam.Text.{
  splitlines, concat, strip, lstrip, rstrip, split, is_break, is_space, startswith, contains,
  endswith, without_dashes, has_slash, basename, elem,
}
use linux_hello.Pam.Lines.{module_of, after_brackets, is_auth_line, is_ours}
use linux_hello.Pam.Blocks.{
  has_block, before_auth, outside, inside, remove_block, without_ours, wallet_block,
  insert_wallet_release, insert_wallet_remember, behind_last_auth, has_auth_line, close_text,
}
use linux_hello.Pam.Files.{
  join, autologin_file, is_file, vendor_of, find_service, without_break, includes_word,
  any_includes, includes,
}
use linux_hello.Pam.Ini.{
  without_last, split_equals, is_group, ini_over, ini_group, autologin_user, forget_over,
  forget_main_autologin, all_name_chars, is_user_name,
}
use linux_hello.Pam.Enable.{
  action_for, source_of, write_entry, write_changed, enable_wallet, enable_autologin,
}
use linux_hello.Pam.Revert.{revert}
use linux_hello.Pam.Targets.{
  any_holds, kde_face_supported, plan_of, kind_path, texts_before, restore, step_of, run_steps,
  enable, revert_plan, disable,
}

abbrev root : Caller
root = record { sender = ":1.4"; uid = 0 }

-- A host whose caller 0 is called root.
abbrev host : Host
host = record {
  system = record {
    check_authorization = λ caller action. none;
    user_name = λ uid. some "root";
    session_by_pid = λ pid. none;
    list_sessions = none;
    session = λ path. record { active = none; remote = none };
  };
  sealing = record {
    has_tpm = false;
    has_creds = false;
    encrypt = λ user b. none;
    decrypt = λ user b. none;
  };
  hash = λ t. t;
  home_encrypted = λ user. true;
  insecure_auto_login = false;
  user_exists = λ user. true;
  users_preferring_face = [];
}

abbrev plain_service : Service
plain_service = record {
  disk = record {
    files =
        (codes "/usr/bin/plasmalogin", codes "x")
        ∷ (codes "/etc/pam.d/plasmalogin", codes "auth required pam_unix.so\n")
        ∷ (codes "/usr/lib/pam.d/plasmalogin-autologin", codes "auth required pam_permit.so\n")
        ∷ [];
    saved = some [];
  };
  kept = [];
}

-- A service whose state file is corrupt, with a drop-in.
abbrev corrupt_service : Service
corrupt_service = record {
  disk = record {
    files =
        (codes "/etc/plasmalogin.conf.d/linux-hello.conf", codes "[Autologin]\nUser=ann\n") ∷ [];
    saved = none;
  };
  kept = ("ann", 1 ∷ []) ∷ [];
}

-- The password is gone, the drop-in is not.
corrupt_off :
    set_target host root "auto-login" false corrupt_service
    ≡ (record corrupt_service { kept = [] }, raises action_failed)
unfolding set_target turn_off authorized require forget_user autologin_user disable ini_group
    ini_over is_user_name all_name_chars lookup concat startswith endswith splitlines is_break strip
    lstrip rstrip is_space split same_bytes is_group split_equals without_last without_break
corrupt_off = refl

set_target-IsFailed_example :
    IsFailed "auto-login" false corrupt_service (record corrupt_service { kept = [] })
set_target-IsFailed_example =
    set_target-IsFailed host root "auto-login" false corrupt_service
      (record corrupt_service { kept = [] }) action_failed corrupt_off

root_fails :
    set_target host root "auto-login" true plain_service ≡ (plain_service, raises action_failed)
unfolding set_target turn_on authorized require auto_login_allowed enable plan_of any_holds
    kde_face_supported find_service vendor_of is_file includes any_includes includes_word
    texts_before restore kind_path run_steps step_of enable_wallet source_of write_changed
    write_entry action_for remove_block outside inside without_ours insert_wallet_release
    insert_wallet_remember wallet_block behind_last_auth has_auth_line close_text before_auth
    has_block contains startswith enable_autologin autologin_user ini_group ini_over is_user_name
    all_name_chars lookup store erase join concat endswith splitlines is_break is_auth_line is_ours
    module_of strip lstrip rstrip is_space split after_brackets without_dashes same_bytes elem
    basename has_slash
root_fails = refl

abbrev ann_service : Service
ann_service = record {
  disk = record {
    files =
        (codes "/etc/plasmalogin.conf", codes "[Autologin]\nUser=ann\n")
        ∷ (codes "/etc/plasmalogin.conf.d/linux-hello.conf", codes "[Autologin]\nUser=ann\n")
        ∷ [];
    saved = some [];
  };
  kept = ("ann", 1 ∷ []) ∷ [];
}

abbrev quiet_service : Service
quiet_service = record {
  disk = record {
    files = (codes "/etc/plasmalogin.conf", codes "[Autologin]\n") ∷ [];
    saved = some [];
  };
  kept = [];
}

ann_off : set_target host root "auto-login" false ann_service ≡ (quiet_service, replies tt)
unfolding set_target turn_off authorized require forget_user autologin_user disable plan_of
    find_service vendor_of is_file kind_path revert_plan revert forget_main_autologin forget_over
    ini_group ini_over is_group split_equals without_last without_break lookup store erase join
    concat startswith endswith splitlines is_break strip lstrip rstrip is_space same_bytes
ann_off = refl

set_target-forgets_example :
    (lookup autologin_file quiet_service.disk.files ≡ none)
    × ((h' : Host) (asking : Caller) (user : String) (secret : Bytes)
        → login_secret h' asking user quiet_service ≡ replies secret
        → secret ≡ [])
set_target-forgets_example = set_target-forgets host root ann_service quiet_service ann_off
