-- ===== src/Pam/Targets.antt =====
-- Turning face unlock on and off for a target (linux-hello/src/integration/pam.py).
pub mod Restoring
use linux_hello.Models.{codes}
use linux_hello.Prelude.{
  ℕ, Bool, true, false, ◌&&◌, ◌||◌, not, Option, none, some, List, [], ◌∷◌, ◌++◌, if◌then◌else◌,
  is_some, map,
}
use linux_hello.Prelude.Bytes.{same_bytes}
use linux_hello.Prelude.Store.{Store, lookup, store, erase}
use linux_hello.Pam.Text.{Text, contains}
use linux_hello.Pam.Blocks.{begin_mark, wallet_begin, Result, ok, pam_error}
use linux_hello.Pam.Files.{
  Files, path_of, etc_path, kscreenlocker_config, autologin_file, is_file, text_at, find_service,
  includes,
}
use linux_hello.Pam.Enable.{
  Entry, Work, enable_insert, enable_own, enable_wallet, enable_kde_config, enable_autologin,
}
use linux_hello.Pam.Revert.{revert}

pub data Kind : Type 0 where
  insert own kde_config wallet_release wallet_remember autologin : Kind

abbrev pub Plan : Type 0
Plan = List (Text × Kind)

abbrev pub kscreenlocker_greeters : List Text
kscreenlocker_greeters =
    codes "usr/lib/kscreenlocker_greet"
    ∷ codes "usr/libexec/kscreenlocker_greet"
    ∷ codes "usr/lib/x86_64-linux-gnu/libexec/kscreenlocker_greet"
    ∷ codes "usr/lib/aarch64-linux-gnu/libexec/kscreenlocker_greet"
    ∷ codes "usr/lib64/libexec/kscreenlocker_greet"
    ∷ []

unfoldable pub any_holds : Files → Text → List Text → Bool
unfolding lookup contains is_file
any_holds files part [] = false
any_holds files part (g ∷ gs) =
    if is_file files (path_of g) && contains part (text_at files (path_of g))
    then true
    else any_holds files part gs

-- Whether some greeter knows the service "kde-face".
unfoldable pub kde_face_supported : Files → Bool
unfolding any_holds
kde_face_supported files = any_holds files (codes "kde-face" ++ 0 ∷ []) kscreenlocker_greeters

abbrev pub has_service : Files → Text → Bool
has_service files service = is_some (find_service files service)

abbrev pub lock_screen_plan : Files → Plan
lock_screen_plan files =
    if kde_face_supported files
      && (has_service files (codes "kde-fingerprint") || has_service files (codes "kde"))
    then (codes "kde-face", own) ∷ (codes "kscreenlockerrc", kde_config) ∷ []
    else if has_service files (codes "kde")
    then (codes "kde", insert) ∷ []
    else []

abbrev pub sudo_plan : Files → Plan
sudo_plan files =
    let has_sudo = has_service files (codes "sudo") in
    let plan = if has_sudo then (codes "sudo", insert) ∷ [] else [] in
    if has_service files (codes "sudo-i")
      && not (has_sudo && includes files (codes "sudo-i") (codes "sudo"))
    then plan ++ (codes "sudo-i", insert) ∷ []
    else plan

abbrev pub login_plan : Files → Plan
login_plan files =
    if has_service files (codes "plasmalogin")
    then (codes "plasmalogin", insert) ∷ []
    else if has_service files (codes "sddm")
    then (codes "sddm", insert) ∷ []
    else []

abbrev pub has_auto_login : Files → Bool
has_auto_login files =
    is_file files (path_of (codes "usr/bin/plasmalogin"))
    && has_service files (codes "plasmalogin")
    && has_service files (codes "plasmalogin-autologin")

abbrev pub auto_login_files : Plan
auto_login_files =
    (codes "plasmalogin-autologin", wallet_release)
    ∷ (codes "plasmalogin", wallet_remember)
    ∷ (codes "plasmalogin.conf.d", autologin)
    ∷ []

abbrev pub auto_login_plan : Files → Plan
auto_login_plan files = if has_auto_login files then auto_login_files else []

-- The files that a target maps to on this system.
unfoldable pub plan_of : Files → Text → Result Plan
unfolding same_bytes kde_face_supported find_service includes is_file lookup
plan_of files target =
    if same_bytes target (codes "lock-screen")
    then ok (lock_screen_plan files)
    else if same_bytes target (codes "admin")
    then ok (if has_service files (codes "polkit-1") then (codes "polkit-1", insert) ∷ [] else [])
    else if same_bytes target (codes "sudo")
    then ok (sudo_plan files)
    else if same_bytes target (codes "login")
    then ok (login_plan files)
    else if same_bytes target (codes "auto-login")
    then ok (auto_login_plan files)
    else pam_error

unfoldable pub kind_path : Text → Kind → Text
kind_path service kde_config = kscreenlocker_config
kind_path service autologin = autologin_file
kind_path service insert = etc_path service
kind_path service own = etc_path service
kind_path service wallet_release = etc_path service
kind_path service wallet_remember = etc_path service

-- What is on disk: the files, and the manifest in the state file, none where that file is corrupt. A
-- state file that is not there is one without entries.
pub record Disk : Type 0 where
  pub files : Files
  pub saved : Option (Store Entry)

pub data Outcome : Type 0 where
  done : Disk → Outcome
  failed : Disk → Outcome

-- before: the text of each file of a plan, or none.
abbrev pub Before : Type 0
Before = List (Text × Option Text)

unfoldable pub texts_before : Files → Plan → Before
unfolding lookup kind_path
texts_before files [] = []
texts_before files ((service, kind) ∷ plan) =
    (kind_path service kind, lookup (kind_path service kind) files) ∷ texts_before files plan

abbrev pub put_text : Text → Text → Option Text → Files → Files
put_text path text none files = store path text files
put_text path text (some now) files = if same_bytes now text then files else store path text files

abbrev pub put_back : Text → Option Text → Files → Files
put_back path none files = if is_file files path then erase path files else files
put_back path (some text) files = put_text path text (lookup path files) files

unfoldable pub restore : Before → Files → Files
unfolding lookup store erase same_bytes is_file
restore [] files = files
restore ((path, text) ∷ before) files = restore before (put_back path text files)

abbrev pub stepped : (Work → Work × Bool) → Work → Result Work → Work × Bool
stepped rest w (ok next) = rest next
stepped rest w pam_error = (w, false)

abbrev pub finish : Before → Disk → Work × Bool → Outcome
finish before d (w, true) = done (record { files = w.files; saved = some w.state })
finish before d (w, false) = failed (record { files = restore before w.files; saved = d.saved })

abbrev pub begins_of : Kind → List Text
begins_of wallet_release = wallet_begin ∷ []
begins_of wallet_remember = wallet_begin ∷ []
begins_of insert = begin_mark ∷ []
begins_of own = begin_mark ∷ []
begins_of kde_config = begin_mark ∷ []
begins_of autologin = begin_mark ∷ []

abbrev pub is_kde_config : Kind → Bool
is_kde_config kde_config = true
is_kde_config insert = false
is_kde_config own = false
is_kde_config wallet_release = false
is_kde_config wallet_remember = false
is_kde_config autologin = false

abbrev pub disable_plan : Text → Result Plan → Result Plan
disable_plan target pam_error = pam_error
disable_plan target (ok plan) =
    if same_bytes target (codes "auto-login")
    then ok (
        (codes "plasmalogin.conf.d", autologin)
        ∷ (codes "plasmalogin-autologin", wallet_release)
        ∷ (codes "plasmalogin", wallet_remember)
        ∷ [])
    else ok plan

module _ (hash : Text → Text) where
  unfoldable pub step_of : Text → Option Text → Text → Kind → Work → Result Work
  unfolding enable_insert enable_own enable_wallet enable_kde_config enable_autologin
  step_of target user service insert w = enable_insert hash service target w
  step_of target user service own w = enable_own hash service target w
  step_of target user service kde_config w = enable_kde_config hash target w
  step_of target user service wallet_release w = enable_wallet hash service true target w
  step_of target user service wallet_remember w = enable_wallet hash service false target w
  step_of target user service autologin w = enable_autologin hash target user w

  -- The steps of a plan: the work they leave, and whether all of them went well.
  unfoldable pub run_steps : Text → Option Text → Plan → Work → Work × Bool
  unfolding step_of
  run_steps target user [] w = (w, true)
  run_steps target user ((service, kind) ∷ plan) w =
      stepped (run_steps target user plan) w (step_of target user service kind w)

  -- With the manifest that `_load_state` gives, or its error.
  abbrev pub enable_loaded : Text → Option Text → Disk → Plan → Option (Store Entry) → Outcome
  enable_loaded target user d plan none = failed d
  enable_loaded target user d plan (some state) =
      finish (texts_before d.files plan) d
        (run_steps target user plan (record { files = d.files; state = state }))

  abbrev pub enable_plan : Text → Option Text → Disk → Result Plan → Outcome
  enable_plan target user d pam_error = failed d
  enable_plan target user d (ok []) = failed d
  enable_plan target user d (ok (entry ∷ plan)) = enable_loaded target user d (entry ∷ plan) d.saved

  unfoldable pub enable : Text → Option Text → Disk → Outcome
  unfolding plan_of run_steps restore texts_before
  enable target user d = enable_plan target user d (plan_of d.files target)

  unfoldable pub revert_plan : Bool → Plan → Work → Work
  unfolding revert kind_path
  revert_plan keep [] w = w
  revert_plan keep ((service, kind) ∷ plan) w =
      let kept = revert_plan keep plan w in
      let reverted =
        revert_plan keep plan (revert hash (kind_path service kind) (begins_of kind) w).0 in
      if is_kde_config kind && keep then kept else reverted

  abbrev pub disabled_by : Bool → Disk → Store Entry → Result Plan → Outcome
  disabled_by keep d state pam_error = failed d
  disabled_by keep d state (ok plan) =
      let w = revert_plan keep plan (record { files = d.files; state = state }) in
      done (record { files = w.files; saved = some w.state })

  abbrev pub disable_loaded : Text → Bool → Disk → Option (Store Entry) → Outcome
  disable_loaded target keep d none = failed d
  disable_loaded target keep d (some state) =
      disabled_by keep d state (disable_plan target (plan_of d.files target))

  unfoldable pub disable : Text → Bool → Disk → Outcome
  unfolding plan_of revert_plan same_bytes
  disable target keep_kde_config d = disable_loaded target keep_kde_config d d.saved
