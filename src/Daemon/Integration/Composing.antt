-- ===== src/Daemon/Integration/Composing.antt =====
-- Turning automatic login off in the service, and what login_secret then gives (linux-hello/src/daemon/manager.py
-- over linux-hello/src/integration/pam.py).
use Prim.Native.String.{String}
use text.Mathlib.Text.{◌==◌ as str_eq}
use linux_hello.Models.{codes}
use linux_hello.Prelude.{
  ◌≡◌, ◌≢◌, refl, sym, ap, subst, ◌∙◌, inl, inr, Bool, false, not, ◌&&◌, ◌==◌, none, [], ◌∷◌, some,
  Option-cases, is_empty, Bool-cases,
}
use linux_hello.Prelude.Dict.{Dict}
use linux_hello.Prelude.Bytes.{same_bytes_apart, Bytes, same_bytes}
use linux_hello.Prelude.Store.{Store, lookup}
use linux_hello.Daemon.Access.{Caller, Verdict, passes, permission_denied, internal, require}
use linux_hello.Pam.Text.{Text, startswith, endswith}
use linux_hello.Pam.Blocks.{begin_mark, wallet_begin}
use linux_hello.Pam.Files.{Files, join, etc_path, autologin_file}
use linux_hello.Pam.Ini.{user_in, autologin_user}
use linux_hello.Pam.Enable.{Entry, Work}
use linux_hello.Pam.Revert.{revert}
use linux_hello.Pam.Revert.Framing.{revert-Keeps, revert-autologin}
use linux_hello.Pam.Targets.{
  Disk, done, failed, kind_path, revert_plan, disable_loaded, plan_of, disable,
}
use linux_hello.Daemon.Integration.{
  Host, Service, denied, invalid_args, action_failed, Reply, replies, raises, forget_of, after,
  turn_off, checked_target, action_configure, set_target, keeps_login_secret, is_user, login_secret,
}

abbrev pub auto_login : Text
auto_login = codes "auto-login"

-- What turning automatic login off does to the files: three files in turn.
abbrev pub undone : (Text → Text) → Files → Store Entry → Work
undone hash files state =
    (revert hash (etc_path (codes "plasmalogin")) (wallet_begin ∷ [])
      (revert hash (etc_path (codes "plasmalogin-autologin")) (wallet_begin ∷ [])
        (revert hash autologin_file (begin_mark ∷ [])
          (record { files = files; state = state })).0).0).0

abbrev pub undone_disk : (Text → Text) → Files → Store Entry → Disk
undone_disk hash files state = record {
  files = (undone hash files state).files;
  saved = some (undone hash files state).state;
}

disable_loaded-auto_login :
    (hash : Text → Text) (keep : Bool) (d : Disk) (state : Store Entry)
    → disable_loaded hash auto_login keep d (some state) ≡ done (undone_disk hash d.files state)
unfolding disable plan_of same_bytes revert_plan kind_path
disable_loaded-auto_login hash keep d state = refl

pub disable-auto_login :
    (hash : Text → Text) (keep : Bool) (d : Disk) (state : Store Entry)
    → d.saved ≡ some state
    → disable hash auto_login keep d ≡ done (undone_disk hash d.files state)
unfolding disable
disable-auto_login hash keep d state e =
    ap (disable_loaded hash auto_login keep d) e ∙ disable_loaded-auto_login hash keep d state

pub disable-corrupt :
    (hash : Text → Text) (target : Text) (keep : Bool) (d : Disk)
    → d.saved ≡ none
    → disable hash target keep d ≡ failed d
unfolding disable
disable-corrupt hash target keep d e = ap (disable_loaded hash target keep d) e

release_apart : etc_path (codes "plasmalogin-autologin") ≢ autologin_file
unfolding same_bytes join startswith endswith
release_apart =
    same_bytes_apart (etc_path (codes "plasmalogin-autologin")) autologin_file release_differs
  where
    release_differs : same_bytes (etc_path (codes "plasmalogin-autologin")) autologin_file ≡ false
    release_differs = refl

remember_apart : etc_path (codes "plasmalogin") ≢ autologin_file
unfolding same_bytes join startswith endswith
remember_apart = same_bytes_apart (etc_path (codes "plasmalogin")) autologin_file remember_differs
  where
    remember_differs : same_bytes (etc_path (codes "plasmalogin")) autologin_file ≡ false
    remember_differs = refl

-- The drop-in is gone with them.
undone-gone :
    (hash : Text → Text) (files : Files) (state : Store Entry)
    → lookup autologin_file (undone hash files state).files ≡ none
undone-gone hash files state =
    let first =
      revert hash autologin_file (begin_mark ∷ []) (record { files = files; state = state }) in
    let second =
      revert hash (etc_path (codes "plasmalogin-autologin")) (wallet_begin ∷ []) first.0 in
    (revert-Keeps hash (etc_path (codes "plasmalogin")) autologin_file (wallet_begin ∷ []) second.0
      remember_apart remember_apart).kept
    ∙ (revert-Keeps hash (etc_path (codes "plasmalogin-autologin")) autologin_file
        (wallet_begin ∷ []) first.0 release_apart release_apart).kept
    ∙ revert-autologin hash (begin_mark ∷ []) (record { files = files; state = state })

no_user : (files : Files) → lookup autologin_file files ≡ none → autologin_user files ≡ none
unfolding autologin_user
no_user files e = ap user_in e

-- Nobody is told a password of a service without the drop-in.
login_secret-empty :
    (h : Host) (caller : Caller) (user : String) (s : Service) (secret : Bytes)
    → lookup autologin_file s.disk.files ≡ none
    → login_secret h caller user s ≡ replies secret
    → secret ≡ []
unfolding login_secret keeps_login_secret
login_secret-empty h caller user s secret gone e =
    let nobody = no_user s.disk.files gone in
    elim (Bool-cases (caller.uid == 0)) [
      | inr other ↦ let wrong : raises denied ≡ replies secret = rw other at e in absurd (cc wrong)
      | inl root ↦ elim (Bool-cases (is_user h user)) [
        | inr unknown ↦
            let wrong : raises invalid_args ≡ replies secret = rw (root, unknown) at e in
            absurd (cc wrong)
        | inl known ↦
            let nothing : replies [] ≡ replies secret = rw (root, known, nobody) at e in cc nothing
      ]
    ]

off-gone :
    (h : Host) (keep : Bool) (kept : Dict Bytes) (s t : Service)
    → after kept (disable h.hash auto_login keep s.disk) ≡ (t, replies tt)
    → lookup autologin_file t.disk.files ≡ none
off-gone h keep kept s t e = elim (Option-cases s.disk.saved) [
  | inl corrupt ↦
      let failure : (record s { kept = kept }, raises action_failed) ≡ (t, replies tt) =
        sym (ap (after kept) (disable-corrupt h.hash auto_login keep s.disk corrupt)) ∙ e in
      absurd (cc (ap (λ (x : Service × Reply Unit). x.1) failure))
  | inr (state, read) ↦
      let same : (undone h.hash s.disk.files state).files ≡ t.disk.files =
        ap (λ (x : Service × Reply Unit). x.0.disk.files)
          (sym (ap (after kept) (disable-auto_login h.hash keep s.disk state read)) ∙ e) in
      subst (λ (f : Files). lookup autologin_file f ≡ none) same
        (undone-gone h.hash s.disk.files state)
]

checked_off :
    (h : Host) (caller : Caller) (s t : Service) (v : Verdict)
    → checked_target h caller "auto-login" false s v ≡ (t, replies tt)
    → lookup autologin_file t.disk.files ≡ none
unfolding turn_off
checked_off h caller s t passes e =
    let keep = str_eq "auto-login" "lock-screen" && not (is_empty h.users_preferring_face) in
    off-gone h keep (forget_of (autologin_user s.disk.files) s.kept) s t e
checked_off h caller s t permission_denied e =
    absurd (cc (ap (λ (x : Service × Reply Unit). x.1) e))
checked_off h caller s t internal e = absurd (cc (ap (λ (x : Service × Reply Unit). x.1) e))

-- Once `set_target` has turned automatic login off, the drop-in is gone, whatever was in it or in the other files,
-- and no later call of `login_secret` on what it left gets a password, whoever asks and for whichever user.
pub set_target-forgets :
    (h : Host) (caller : Caller) (s t : Service)
    → set_target h caller "auto-login" false s ≡ (t, replies tt)
    → (lookup autologin_file t.disk.files ≡ none)
      × ((h' : Host) (asking : Caller) (user : String) (secret : Bytes)
          → login_secret h' asking user t ≡ replies secret
          → secret ≡ [])
unfolding set_target
set_target-forgets h caller s t e =
    let gone = checked_off h caller s t (require h.system caller action_configure) e in
    (gone, λ h' asking user secret. login_secret-empty h' asking user t secret gone)
