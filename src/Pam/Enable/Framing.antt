-- ===== src/Pam/Enable/Framing.antt =====
-- The one file that each step of linux-hello/src/integration/pam.py writes.
use linux_hello.Models.{codes}
use linux_hello.Prelude.{
  ◌++◌, ◌≡◌, ◌≢◌, refl, ◌⊎◌, inl, inr, Bool, true, false, ◌&&◌, not, Option, none, some, if_cases,
}
use linux_hello.Prelude.Bytes.{same_bytes}
use linux_hello.Prelude.Store.{lookup, lookup-store_other}
use linux_hello.Pam.Text.{Text}
use linux_hello.Pam.Blocks.{begin_mark, Result, ok, pam_error, has_block}
use linux_hello.Pam.Files.{
  Files, etc_path, kscreenlocker_config, autologin_file, is_file, text_at, find_service,
}
use linux_hello.Pam.Ini.{autologin_user}
use linux_hello.Pam.Enable.{
  Action, Work, checked, is_foreign_at, own_source, kde_config_from, separator_for,
  kscreenlocker_block, user_or, autologin_text, wayland_session, may_log_in, names_other,
  named_in_main, action_for, write_entry, write_changed, write_whole, source_of, insert_into,
  wallet_into, own_written, enable_insert, enable_wallet, enable_own, enable_kde_config,
  enable_autologin,
}

-- Every file but the one at the path is as it was.
abbrev pub IsKept : Text → Files → Files → Type 0
IsKept path files files' = (q : Text) → path ≢ q → lookup q files' ≡ lookup q files

-- The same of a step's result, where it has one.
abbrev pub IsFramed : Text → Work → Result Work → Type 0
IsFramed path w pam_error = Unit
IsFramed path w (ok w') = IsKept path w.files w'.files

pub Result-cases : {A : Type 0} (r : Result A) → (r ≡ pam_error) ⊎ ((a : A) × (r ≡ ok a))
Result-cases pam_error = inl refl
Result-cases (ok a) = inr (a, refl)

checked-IsFramed :
    (path : Text) (w : Work) (wrong : Bool) (r : Result Work)
    → IsFramed path w r
    → IsFramed path w (checked wrong r)
checked-IsFramed path w true r h = tt
checked-IsFramed path w false r h = h

module _ (hash : Text → Text) where
  write_changed-IsFramed :
      (path target text : Text) (action : Action) (separator : Text) (r : Result Text) (w : Work)
      → IsFramed path w (write_changed hash path target text action separator r w)
  unfolding write_changed write_entry
  write_changed-IsFramed path target text action separator pam_error w = tt
  write_changed-IsFramed path target text action separator (ok new_text) w =
      if_cases (IsFramed path w) (same_bytes new_text text) (ok w)
        (ok
          (write_entry hash path new_text (action_for path text action w.state) target separator w))
        (λ e q n. refl) (λ e q n. lookup-store_other path q new_text w.files n)

  write_whole-IsKept :
      (path text target : Text) (w : Work)
      → IsKept path w.files (write_whole hash path text target w).files
  unfolding write_whole
  write_whole-IsKept path text target w q n =
      if_cases (λ (f : Files). lookup q f ≡ lookup q w.files)
        (is_file w.files path && same_bytes (text_at w.files path) text) _ _ (λ e. refl)
        (λ e. lookup-store_other path q text w.files n)

  insert_into-IsFramed :
      (service target : Text) (w : Work) (r : Result (Text × Action))
      → IsFramed (etc_path service) w (insert_into hash service target w r)
  insert_into-IsFramed service target w pam_error = tt
  insert_into-IsFramed service target w (ok (text, action)) =
      write_changed-IsFramed (etc_path service) target text action _ _ w

  wallet_into-IsFramed :
      (service : Text) (release : Bool) (target : Text) (w : Work) (r : Result (Text × Action))
      → IsFramed (etc_path service) w (wallet_into hash service release target w r)
  wallet_into-IsFramed service release target w pam_error = tt
  wallet_into-IsFramed service release target w (ok (text, action)) =
      write_changed-IsFramed (etc_path service) target text action _ _ w

  own_written-IsFramed :
      (path target : Text) (w : Work) (r : Result Text)
      → IsFramed path w (own_written hash path target w r)
  own_written-IsFramed path target w pam_error = tt
  own_written-IsFramed path target w (ok text) = write_whole-IsKept path text target w

  pub enable_insert-IsFramed :
      (service target : Text) (w : Work)
      → IsFramed (etc_path service) w (enable_insert hash service target w)
  unfolding enable_insert
  enable_insert-IsFramed service target w =
      insert_into-IsFramed service target w (source_of w.files service)

  pub enable_wallet-IsFramed :
      (service : Text) (release : Bool) (target : Text) (w : Work)
      → IsFramed (etc_path service) w (enable_wallet hash service release target w)
  unfolding enable_wallet
  enable_wallet-IsFramed service release target w =
      wallet_into-IsFramed service release target w (source_of w.files service)

  pub enable_own-IsFramed :
      (service target : Text) (w : Work)
      → IsFramed (etc_path service) w (enable_own hash service target w)
  unfolding enable_own
  enable_own-IsFramed service target w =
      let r =
        own_written hash (etc_path service) target w
          (own_source w.files (find_service w.files (codes "kde-fingerprint"))) in
      checked-IsFramed (etc_path service) w (is_foreign_at w.files (etc_path service)) r (
        own_written-IsFramed (etc_path service) target w
          (own_source w.files (find_service w.files (codes "kde-fingerprint"))))

  kde_config_from-IsFramed :
      (target : Text) (w : Work) (o : Option Text)
      → IsFramed kscreenlocker_config w (kde_config_from hash target w o)
  unfolding write_entry
  kde_config_from-IsFramed target w none =
      λ q n. lookup-store_other kscreenlocker_config q _ w.files n
  kde_config_from-IsFramed target w (some text) =
      if_cases (IsFramed kscreenlocker_config w) (has_block text begin_mark) _ _ (λ e q n. refl)
        (λ e q n.
          lookup-store_other kscreenlocker_config q
            (text ++ separator_for text ++ kscreenlocker_block) w.files n)

  pub enable_kde_config-IsFramed :
      (target : Text) (w : Work) → IsFramed kscreenlocker_config w (enable_kde_config hash target w)
  unfolding enable_kde_config
  enable_kde_config-IsFramed target w =
      kde_config_from-IsFramed target w (lookup kscreenlocker_config w.files)

  pub enable_autologin-IsFramed :
      (target : Text) (given : Option Text) (w : Work)
      → IsFramed autologin_file w (enable_autologin hash target given w)
  unfolding enable_autologin
  enable_autologin-IsFramed target given w =
      let user = user_or given (autologin_user w.files) in
      let text = autologin_text user (is_file w.files wayland_session) in
      let r = write_whole hash autologin_file text target w in
      checked-IsFramed autologin_file w (not (may_log_in user))
        (checked (names_other (named_in_main w.files) user) (ok r))
        (checked-IsFramed autologin_file w (names_other (named_in_main w.files) user) (ok r)
          (write_whole-IsKept autologin_file text target w))
