-- ===== src/Daemon/Integration.antt =====
-- Targets and the kept login password in the service (set_target, remember_login_secret and login_secret of
-- linux-hello/src/daemon/manager.py). Encryption of the home directory, the settings and who prefers face in
-- the lock screen are answers of the host. A signal or a log line changes no state and is left out, and so
-- are failing system calls.
pub mod Composing
pub mod Failing
mod Tests
use Prim.Native.String.{String}
use text.Mathlib.Text.{◌==◌ as str_eq}
use linux_hello.Models.{codes}
use linux_hello.Prelude.{
  Bool, true, false, not, ◌&&◌, ◌==◌, Option, none, some, List, [], ◌∷◌, if◌then◌else◌, is_empty,
  is_some,
}
use linux_hello.Prelude.Bytes.{Bytes, same_bytes}
use linux_hello.Prelude.Dict.{Dict}
use linux_hello.Daemon.Access.{
  Caller, System, Verdict, passes, permission_denied, internal, require,
}
use linux_hello.Daemon.Secrets.{Sealing, store, load}
use linux_hello.Pam.Text.{Text}
use linux_hello.Pam.Ini.{autologin_user}
use linux_hello.Pam.Targets.{Disk, Outcome, done, failed, enable, disable}

pub record Host : Type 0 where
  pub system : System
  pub sealing : Sealing
  pub hash : Text → Text
  pub home_encrypted : String → Bool
  pub insecure_auto_login : Bool
  pub user_exists : String → Bool
  pub users_preferring_face : List String

-- What is on disk: files and manifest, and the kept passwords.
pub record Service : Type 0 where
  pub disk : Disk
  pub kept : Dict Bytes

pub data Error : Type 0 where
  denied internal_error invalid_args action_failed : Error

pub data Reply (A : Type 0) : Type 0 where
  replies : A → Reply A
  raises : Error → Reply A

-- Without a user, the home directory is not encrypted.
abbrev pub home_of : Host → Option String → Bool
home_of h none = false
home_of h (some user) = if str_eq user "" then false else h.home_encrypted user

unfoldable pub auto_login_allowed : Host → Option String → Bool
auto_login_allowed h user = if home_of h user then true else h.insecure_auto_login

abbrev pub user_text : Option String → Option Text
user_text none = none
user_text (some user) = some (codes user)

-- secrets.forget, by the user that the drop-in names.
unfoldable pub forget_user : Text → Dict Bytes → Dict Bytes
unfolding same_bytes
forget_user user [] = []
forget_user user ((name, secret) ∷ kept) =
    let rest = forget_user user kept in
    if same_bytes (codes name) user then rest else (name, secret) ∷ rest

abbrev pub forget_of : Option Text → Dict Bytes → Dict Bytes
forget_of none kept = kept
forget_of (some user) kept = forget_user user kept

abbrev pub after : Dict Bytes → Outcome → Service × Reply Unit
after kept (done d) = (record { disk = d; kept = kept }, replies tt)
after kept (failed d) = (record { disk = d; kept = kept }, raises action_failed)

-- The user to log in automatically is whoever turns it on.
unfoldable pub turn_on : Host → Caller → String → Service → Service × Reply Unit
unfolding enable auto_login_allowed
turn_on h caller target s =
    let user = h.system.user_name caller.uid in
    if str_eq target "auto-login"
    then (if auto_login_allowed h user
        then after s.kept (enable h.hash (codes target) (user_text user) s.disk)
        else (s, raises action_failed))
    else after s.kept (enable h.hash (codes target) none s.disk)

unfoldable pub turn_off : Host → String → Service → Service × Reply Unit
unfolding disable autologin_user forget_user
turn_off h target s =
    let keep = str_eq target "lock-screen" && not (is_empty h.users_preferring_face) in
    let kept =
      if str_eq target "auto-login"
      then forget_of (autologin_user s.disk.files) s.kept
      else s.kept in
    after kept (disable h.hash (codes target) keep s.disk)

abbrev pub checked_target : Host → Caller → String → Bool → Service → Verdict → Service × Reply Unit
checked_target h caller target enabled s passes =
    if enabled then turn_on h caller target s else turn_off h target s
checked_target h caller target enabled s permission_denied = (s, raises denied)
checked_target h caller target enabled s internal = (s, raises internal_error)

abbrev pub action_configure : String
action_configure = "io.github.linuxhello.configure"

unfoldable pub set_target : Host → Caller → String → Bool → Service → Service × Reply Unit
unfolding turn_on turn_off require
set_target h caller target enabled s =
    checked_target h caller target enabled s (require h.system caller action_configure)

abbrev pub is_named : Option Text → String → Bool
is_named none user = false
is_named (some name) user = same_bytes name (codes user)

unfoldable pub keeps_login_secret : Host → String → Service → Bool
unfolding autologin_user same_bytes auto_login_allowed
keeps_login_secret h user s =
    is_named (autologin_user s.disk.files) user && auto_login_allowed h (some user)

-- _check_user
unfoldable pub is_user : Host → String → Bool
is_user h user = h.user_exists user && not (str_eq user "root")

abbrev pub with_kept : Option (Dict Bytes) → Service → Service
with_kept none s = s
with_kept (some kept) s = record s { kept = kept }

unfoldable pub remember_login_secret :
    Host → Caller → String → Bytes → Service → Service × Reply Unit
unfolding is_user keeps_login_secret store
remember_login_secret h caller user secret s =
    if not (caller.uid == 0)
    then (s, raises denied)
    else if not (is_user h user)
    then (s, raises invalid_args)
    else if not (keeps_login_secret h user s)
    then (s, replies tt)
    else (with_kept (store h.sealing user secret s.kept) s, replies tt)

abbrev pub or_nothing : Option Bytes → Bytes
or_nothing none = []
or_nothing (some secret) = secret

unfoldable pub login_secret : Host → Caller → String → Service → Reply Bytes
unfolding is_user keeps_login_secret load
login_secret h caller user s =
    if not (caller.uid == 0)
    then raises denied
    else if not (is_user h user)
    then raises invalid_args
    else if not (keeps_login_secret h user s)
    then replies []
    else replies (or_nothing (load h.sealing user s.kept))
