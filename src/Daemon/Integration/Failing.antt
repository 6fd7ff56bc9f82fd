-- ===== src/Daemon/Integration/Failing.antt =====
-- What set_target of linux-hello/src/daemon/manager.py leaves when it raises an error.
use Prim.Native.String.{String}
use text.Mathlib.Text.{◌==◌ as str_eq}
use text.Mathlib.TextEquality.{eq_iff}
use linux_hello.Models.{codes}
use linux_hello.Prelude.{
  ◌≡◌, refl, sym, ap, subst, inl, inr, Bool, true, false, not, ◌&&◌, none, ◌⊎◌, Option, some,
  Option-cases, if◌then◌else◌, is_empty, if_cases, Bool-cases,
}
use linux_hello.Prelude.Store.{Store, lookup}
use linux_hello.Daemon.Access.{Caller, Verdict, passes, permission_denied, internal, require}
use linux_hello.Pam.Text.{Text}
use linux_hello.Pam.Blocks.{Result, ok, pam_error}
use linux_hello.Pam.Ini.{autologin_user}
use linux_hello.Pam.Enable.{Entry}
use linux_hello.Pam.Targets.{
  Disk, Outcome, done, failed, Plan, disable_plan, disabled_by, disable_loaded, plan_of, enable,
  disable,
}
use linux_hello.Pam.Targets.Restoring.{enable-IsAsBefore}
use linux_hello.Daemon.Integration.{
  Host, Service, Error, action_failed, Reply, replies, raises, auto_login_allowed, user_text,
  forget_of, after, turn_on, turn_off, checked_target, action_configure, set_target,
}
use linux_hello.Daemon.Integration.Composing.{auto_login, disable-auto_login, disable-corrupt}

-- What a failing call leaves: every file and the saved manifest as they were, and the kept passwords too, but for
-- one way to fail. Turning automatic login off with a corrupt state file forgets what is kept for the user
-- that the drop-in names.
pub record IsFailed (target : String) (enabled : Bool) (s t : Service) : Type 0 where
  pub files : (q : Text) → lookup q t.disk.files ≡ lookup q s.disk.files
  pub saved : t.disk.saved ≡ s.disk.saved
  pub kept :
      (t.kept ≡ s.kept)
      ⊎ ((enabled ≡ false)
          × (target ≡ "auto-login")
          × (s.disk.saved ≡ none)
          × (t.kept ≡ forget_of (autologin_user s.disk.files) s.kept))

abbrev FailsAs : String → Bool → Service → Service × Reply Unit → Type 0
FailsAs target enabled s (t, replies u) = Unit
FailsAs target enabled s (t, raises e) = IsFailed target enabled s t

same-IsFailed : (target : String) (enabled : Bool) (s : Service) → IsFailed target enabled s s
same-IsFailed target enabled s = record { files = λ q. refl; saved = refl; kept = inl refl }

after-FailsAs :
    (target : String) (enabled : Bool) (s : Service) (o : Outcome)
    → ((d : Disk)
        → o ≡ failed d
        → ((q : Text) → lookup q d.files ≡ lookup q s.disk.files) × (d.saved ≡ s.disk.saved))
    → FailsAs target enabled s (after s.kept o)
after-FailsAs target enabled s (done d) h = tt
after-FailsAs target enabled s (failed d) h = record {
  files = (h d refl).0;
  saved = (h d refl).1;
  kept = inl refl;
}

turn_on-FailsAs :
    (h : Host) (caller : Caller) (target : String) (s : Service)
    → FailsAs target true s (turn_on h caller target s)
unfolding turn_on
turn_on-FailsAs h caller target s =
    let user = h.system.user_name caller.uid in
    let named =
      after-FailsAs target true s (enable h.hash (codes target) (user_text user) s.disk)
        (enable-IsAsBefore h.hash (codes target) (user_text user) s.disk) in
    let unnamed =
      after-FailsAs target true s (enable h.hash (codes target) none s.disk)
        (enable-IsAsBefore h.hash (codes target) none s.disk) in
    if_cases (FailsAs target true s) (str_eq target "auto-login")
      (if auto_login_allowed h user
        then after s.kept (enable h.hash (codes target) (user_text user) s.disk)
        else (s, raises action_failed))
      (after s.kept (enable h.hash (codes target) none s.disk))
      (λ e.
        if_cases (FailsAs target true s) (auto_login_allowed h user)
          (after s.kept (enable h.hash (codes target) (user_text user) s.disk))
          (s, raises action_failed) (λ e'. named) (λ e'. same-IsFailed target true s))
      (λ e. unnamed)

disabled_by-failed :
    (hash : Text → Text) (keep : Bool) (d d' : Disk) (state : Store Entry) (p : Result Plan)
    → disabled_by hash keep d state p ≡ failed d'
    → d ≡ d'
disabled_by-failed hash keep d d' state pam_error e = cc e
disabled_by-failed hash keep d d' state (ok plan) e = absurd (cc e)

disable_loaded-failed :
    (hash : Text → Text) (target : Text) (keep : Bool) (d d' : Disk) (o : Option (Store Entry))
    → disable_loaded hash target keep d o ≡ failed d'
    → d ≡ d'
disable_loaded-failed hash target keep d d' none e = cc e
disable_loaded-failed hash target keep d d' (some state) e =
    disabled_by-failed hash keep d d' state (disable_plan target (plan_of d.files target)) e

disable-failed :
    (hash : Text → Text) (target : Text) (keep : Bool) (d d' : Disk)
    → disable hash target keep d ≡ failed d'
    → d ≡ d'
unfolding disable
disable-failed hash target keep d d' e = disable_loaded-failed hash target keep d d' d.saved e

auto_off-FailsAs :
    (h : Host) (keep : Bool) (s : Service)
    → FailsAs "auto-login" false s (
        after
          (forget_of (autologin_user s.disk.files) s.kept)
          (disable h.hash auto_login keep s.disk))
auto_off-FailsAs h keep s = elim (Option-cases s.disk.saved) [
  | inl corrupt ↦
      rw (disable-corrupt h.hash auto_login keep s.disk corrupt)
        (record { files = λ q. refl; saved = refl; kept = inr (refl, refl, corrupt, refl) })
  | inr (state, read) ↦ rw (disable-auto_login h.hash keep s.disk state read) tt
]

turn_off-FailsAs :
    (h : Host) (target : String) (s : Service) → FailsAs target false s (turn_off h target s)
unfolding turn_off
turn_off-FailsAs h target s =
    let keep = str_eq target "lock-screen" && not (is_empty h.users_preferring_face) in
    let others = after-FailsAs target false s (disable h.hash (codes target) keep s.disk) (λ d e.
      let same = disable-failed h.hash (codes target) keep s.disk d e in
      (
        λ q. ap (λ (x : Disk). lookup q x.files) (sym same),
        ap (λ (x : Disk). x.saved) (sym same),
      )) in
    elim (Bool-cases (str_eq target "auto-login")) [
      | inl auto ↦
          let name : target ≡ "auto-login" = (eq_iff target "auto-login").0 auto in
          let kept = forget_of (autologin_user s.disk.files) s.kept in
          rw auto (
            subst
              (λ (t : String).
                FailsAs t false s (after kept (disable h.hash (codes t) keep s.disk)))
              (sym name) (auto_off-FailsAs h keep s))
      | inr other ↦ rw other others
    ]

-- A call of `set_target` that raises an error, because the caller may not, the target is unknown, the state file is
-- corrupt or a step of it failed, leaves every file and the saved manifest as they were. It leaves the kept
-- passwords too, except where it was to turn automatic login off and the state file is corrupt: then it may have
-- forgotten what is kept for the user that the drop-in names.
pub set_target-IsFailed :
    (h : Host) (caller : Caller) (target : String) (enabled : Bool) (s t : Service) (e : Error)
    → set_target h caller target enabled s ≡ (t, raises e)
    → IsFailed target enabled s t
unfolding set_target
set_target-IsFailed h caller target enabled s t e i =
    subst (FailsAs target enabled s) i
      (by_verdict enabled (require h.system caller action_configure))
  where
    by_verdict :
        (b : Bool) (v : Verdict) → FailsAs target b s (checked_target h caller target b s v)
    by_verdict true passes = turn_on-FailsAs h caller target s
    by_verdict false passes = turn_off-FailsAs h target s
    by_verdict b permission_denied = same-IsFailed target b s
    by_verdict b internal = same-IsFailed target b s
