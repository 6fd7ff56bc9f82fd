-- ===== src/Pam/Reset/Leaving.antt =====
-- Automatic login after `reset` of linux-hello/src/integration/pam.py.
use linux_hello.Models.{codes}
use linux_hello.Prelude.{
  ◌≡◌, ◌≢◌, refl, sym, ap, subst, ◌∙◌, ◌⊎◌, inl, inr, Bool, true, false, not, Option, none, some,
  [], ◌∷◌, if◌then◌else◌, is_empty, is_some, if_cases,
}
use linux_hello.Prelude.Bytes.{same_bytes, same_bytes_apart}
use linux_hello.Prelude.Store.{
  Store, lookup, store, erase, lookup-store_other, lookup-erase_self, lookup-erase_other,
}
use linux_hello.Pam.Text.{Text, strip, startswith, contains, endswith, has_slash}
use linux_hello.Pam.Lines.{pam_module}
use linux_hello.Pam.Blocks.{
  begin_mark, begins_all, ok, has_block, remove_block, remove_legacy_lines,
}
use linux_hello.Pam.Files.{Files, join, kscreenlocker_config, autologin_file, is_file}
use linux_hello.Pam.Ini.{user_in, autologin_user, forget_main_autologin}
use linux_hello.Pam.Enable.{Entry, Work, own_header}
use linux_hello.Pam.Revert.{revert}
use linux_hello.Pam.Revert.Framing.{revert-Keeps, revert-autologin}
use linux_hello.Pam.Targets.{
  autologin, plan_of, wallet_release, wallet_remember, has_auto_login, auto_login_files, Disk,
}
use linux_hello.Pam.Targets.Restoring.{same_path}
use linux_hello.Pam.Reset.{
  service_enabled, all_enabled, is_on, target_enabled, without_drop_in, etc_prefix, is_service_path,
  cleaned_file, clean_etc, config_of, clean_config, loaded_or_empty, revert_all, reset,
}

-- No drop-in.
record IsGone (files : Files) : Type 0 where
  gone : lookup autologin_file files ≡ none

erase-IsGone :
    (path : Text) (files : Files) → path ≢ autologin_file → IsGone files → IsGone (erase path files)
erase-IsGone path files n g = record {
  gone = lookup-erase_other path autologin_file files n ∙ g.gone;
}

store-IsGone :
    (path text : Text) (files : Files)
    → path ≢ autologin_file
    → IsGone files
    → IsGone (store path text files)
store-IsGone path text files n g = record {
  gone = lookup-store_other path autologin_file text files n ∙ g.gone;
}

no_file : (files : Files) (path : Text) → is_file files path ≡ false → lookup path files ≡ none
unfolding is_file
no_file files path h = absent (lookup path files) h
  where
    absent : (o : Option Text) → is_some o ≡ false → o ≡ none
    absent none e = refl
    absent (some text) e = absurd (cc e)

without_drop_in-IsGone : (files : Files) → IsGone (without_drop_in files)
unfolding without_drop_in
without_drop_in-IsGone files =
    let forgotten = forget_main_autologin files (autologin_user files) in
    if_cases IsGone (is_file files autologin_file) (erase autologin_file forgotten) files
      (λ e. record { gone = lookup-erase_self autologin_file forgotten })
      (λ e. record { gone = no_file files autologin_file e })

cleaned_file-IsGone :
    (path text : Text) (files : Files)
    → path ≢ autologin_file
    → IsGone files
    → IsGone (cleaned_file path text files)
cleaned_file-IsGone path text files n g =
    let cleaned = remove_legacy_lines (remove_block text begins_all) in
    if_cases IsGone (endswith path (codes ".linux-hello-backup")) _ _
      (λ e. erase-IsGone path files n g)
      (λ e.
        if_cases IsGone (startswith text own_header) _ _ (λ e'. erase-IsGone path files n g)
          (λ e'.
            if_cases IsGone (not (contains pam_module text)) _ _ (λ i. g)
              (λ i.
                if_cases IsGone (same_bytes cleaned text) _ _ (λ j. g)
                  (λ j. store-IsGone path cleaned files n g))))

drop_in_elsewhere : is_service_path etc_prefix autologin_file ≡ false
unfolding is_service_path has_slash join startswith endswith
drop_in_elsewhere = refl

service_path-apart : (path : Text) → is_service_path etc_prefix path ≡ true → path ≢ autologin_file
service_path-apart path h e =
    true-false (sym h ∙ ap (λ x. is_service_path etc_prefix x) e ∙ drop_in_elsewhere)
  where
    true-false : true ≢ false
    true-false w = cc w

clean_etc-IsGone :
    (entries : Store Text) (files : Files) → IsGone files → IsGone (clean_etc entries files)
unfolding clean_etc
clean_etc-IsGone [] files g = g
clean_etc-IsGone ((path, text) ∷ entries) files g = clean_etc-IsGone entries _ (
    if_cases IsGone (is_service_path etc_prefix path) (cleaned_file path text files) files
      (λ e. cleaned_file-IsGone path text files (service_path-apart path e) g) (λ e. g))

config_apart : kscreenlocker_config ≢ autologin_file
unfolding same_bytes join startswith endswith
config_apart = same_bytes_apart kscreenlocker_config autologin_file config_differs
  where
    config_differs : same_bytes kscreenlocker_config autologin_file ≡ false
    config_differs = refl

config_of-IsGone : (o : Option Text) (files : Files) → IsGone files → IsGone (config_of o files)
config_of-IsGone none files g = g
config_of-IsGone (some text) files g =
    let cleaned = remove_block text begins_all in
    if_cases IsGone (has_block text begin_mark) _ _
      (λ e.
        if_cases IsGone (is_empty (strip cleaned)) _ _
          (λ e'. erase-IsGone kscreenlocker_config files config_apart g)
          (λ e'. store-IsGone kscreenlocker_config cleaned files config_apart g))
      (λ e. g)

no_user : (files : Files) → IsGone files → autologin_user files ≡ none
unfolding autologin_user
no_user files g = ap user_in g.gone

drop_in_off :
    (files : Files)
    → autologin_user files ≡ none
    → service_enabled files (codes "plasmalogin.conf.d") autologin ≡ false
unfolding service_enabled
drop_in_off files h = ap (λ (o : Option Text). is_some o) h

all_off : (files : Files) → autologin_user files ≡ none → all_enabled files auto_login_files ≡ false
unfolding all_enabled
all_off files h =
    let off = drop_in_off files h in
    if_cases (λ b. b ≡ false) (service_enabled files (codes "plasmalogin-autologin") wallet_release)
      _ false
      (λ e.
        if_cases (λ b. b ≡ false) (service_enabled files (codes "plasmalogin") wallet_remember) _
          false (λ e'. rw off refl) (λ e'. refl))
      (λ e. refl)

auto_login_off :
    (files : Files)
    → autologin_user files ≡ none
    → target_enabled files (codes "auto-login") ≡ false
unfolding target_enabled plan_of same_bytes
auto_login_off files h = by_plan (has_auto_login files)
  where
    by_plan :
        (b : Bool)
        → is_on files (codes "auto-login") (ok (if b then auto_login_files else [])) ≡ false
    by_plan true = rw (all_off files h, h) refl
    by_plan false = rw h refl

module _ (hash : Text → Text) where
  revert_all-IsGone :
      (entries : Store Entry) (w : Work) → IsGone w.files → IsGone (revert_all hash entries w).files
  unfolding revert_all
  revert_all-IsGone [] w g = g
  revert_all-IsGone ((path, entry) ∷ entries) w g =
      revert_all-IsGone entries (revert hash path begins_all w).0
        (one (same_path path autologin_file))
    where
      one :
          ((path ≡ autologin_file) ⊎ (path ≢ autologin_file))
          → IsGone (revert hash path begins_all w).0.files
      one (inl same) =
          subst (λ (x : Text). IsGone (revert hash x begins_all w).0.files) (sym same)
            (record { gone = revert-autologin hash begins_all w })
      one (inr other) = record {
        gone = (revert-Keeps hash path autologin_file begins_all w other other).kept ∙ g.gone;
      }

  reset-IsGone : (d : Disk) → IsGone (reset hash d).files
  unfolding reset clean_config
  reset-IsGone d =
      let state = loaded_or_empty d.saved in
      let w = revert_all hash state (record { files = without_drop_in d.files; state = state }) in
      let swept = clean_etc-IsGone w.files w.files (
        revert_all-IsGone state (record { files = without_drop_in d.files; state = state })
          (without_drop_in-IsGone d.files)) in
      config_of-IsGone (lookup kscreenlocker_config (clean_etc w.files w.files))
        (clean_etc w.files w.files) swept

  -- After `reset`, whatever the files and the manifest were, the drop-in is gone and the target that logs in
  -- automatically is shown as off.
  pub reset-target_enabled :
      (d : Disk)
      → (lookup autologin_file (reset hash d).files ≡ none)
        × (target_enabled (reset hash d).files (codes "auto-login") ≡ false)
  reset-target_enabled d = (
    (reset-IsGone d).gone,
    auto_login_off (reset hash d).files (no_user (reset hash d).files (reset-IsGone d)),
  )
